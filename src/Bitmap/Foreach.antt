-- ===== src/Bitmap/Foreach.antt =====
-- `clib_bitmap_foreach`: the bits that the body of the loop sees.
use uclib.Base.{
  ℕ, zero, suc, ◌+◌, ◌-◌, ◌*◌, ◌/◌, ◌%◌, ◌≤◌, ◌<◌, bit_xor, ◌≡◌, ◌≢◌, refl, sym, ◌∙◌, ap₂, true,
  false, not, ◌&&◌, List, [], ◌∷◌, ◌++◌, arith, leb, ◌==◌, if◌then◌else◌, Bool-cases, inl, inr,
  length,
}
use uclib.Word.{uword_bits, uword_mod, first_set, min_log2, log2_first_set}
use uclib.Word.Bits.{test_bit, test_bit-zero}
use uclib.Word.FirstSet.{log2_first_set_lem, first_set-pow, min_log2-pow, clear_first_set}
use uclib.Bitmap.{Bitmap, word_at, get}
use uclib.Bitmap.Trim.{get-bit_at}
use uclib.Bitmap.Alu.{IsWords}

-- The inner loop on what is left, `m`, of word `i`: at most 64 rounds, and one that ends it.
unfoldable pub word_foreach : ℕ → ℕ → ℕ → List ℕ
word_foreach zero i m = []
word_foreach (suc fuel) i m =
    let f = first_set m in
    let rest = word_foreach fuel i (bit_xor m f) in
    if not (m == 0) then (i * uword_bits + min_log2 f) ∷ rest else []

-- The outer loop from word `i` on, with `n` words left.
unfoldable pub foreach_words : Bitmap → ℕ → ℕ → List ℕ
foreach_words ai zero i = []
foreach_words ai (suc n) i = word_foreach 65 i (word_at ai i) ++ foreach_words ai n (i + 1)

unfoldable pub foreach : Bitmap → List ℕ
foreach ai = foreach_words ai (length ai) 0

-- The bits that are set among the `n` from `lo` on.
pub set_bits : Bitmap → ℕ → ℕ → List ℕ
set_bits b lo zero = []
set_bits b lo (suc n) = let rest = set_bits b (lo + 1) n in if get b lo then lo ∷ rest else rest

set_bits-clear :
    (b : Bitmap) (lo n : ℕ)
    → ((j : ℕ) → lo ≤ j → j < lo + n → get b j ≡ false)
    → set_bits b lo n ≡ []
unfolding set_bits
set_bits-clear b lo zero h = refl
set_bits-clear b lo (suc n) h =
    rw (h lo (omega arith) (omega arith))
      (set_bits-clear b (lo + 1) n (λ j p q. h j (omega arith) (omega arith)))

set_bits-append :
    (b : Bitmap) (lo n m : ℕ) → set_bits b lo (n + m) ≡ set_bits b lo n ++ set_bits b (lo + n) m
unfolding set_bits
set_bits-append b lo zero m =
    let e : 0 + m ≡ m = omega arith in let k : lo + 0 ≡ lo = omega arith in rw (e, k) refl
set_bits-append b lo (suc n) m =
    let e : suc n + m ≡ suc (n + m) = omega arith in
    let k : lo + 1 + n ≡ lo + suc n = omega arith in
    rw e (
      rw (set_bits-append b (lo + 1) n m, k)
        (elim (Bool-cases (get b lo)) [ inl h ↦ rw h refl | inr h ↦ rw h refl ]))

word_bit : (b : Bitmap) (i k : ℕ) → k < 64 → get b (i * 64 + k) ≡ test_bit (word_at b i) k
word_bit b i k h =
    let q : (i * 64 + k) / 64 ≡ i = omega arith in
    let r : (i * 64 + k) % 64 ≡ k = omega arith in rw (get-bit_at b (i * 64 + k), q, r) refl

-- The bits of `m` are those of word `i` from place `s` on.
abbrev Remains : Bitmap → ℕ → ℕ → ℕ → Type 0
Remains b i m s = (k : ℕ) → test_bit m k ≡ (leb s k && test_bit (word_at b i) k)

clear_between :
    (b : Bitmap) (i m s q : ℕ)
    → Remains b i m s
    → s ≤ q
    → q ≤ 64
    → ((k : ℕ) → k < q → test_bit m k ≡ false)
    → set_bits b (i * 64 + s) (q - s) ≡ []
clear_between b i m s q rem le top low = set_bits-clear b (i * 64 + s) (q - s) (λ j p h.
    let e : i * 64 + (j - i * 64) ≡ j = omega arith in
    let bit : get b (i * 64 + (j - i * 64)) ≡ false = ground (
      arith,
      word_bit b i (j - i * 64) (omega arith),
      rem (j - i * 64),
      low (j - i * 64) (omega arith),
    ) in
    rw e at bit)

-- The bits from `s` on when `p` is the lowest place of `m`.
one_set :
    (b : Bitmap) (i m s p : ℕ)
    → Remains b i m s
    → s ≤ p
    → p < 64
    → test_bit m p ≡ true
    → ((k : ℕ) → k < p → test_bit m k ≡ false)
    → set_bits b (i * 64 + s) (64 - s) ≡ (i * 64 + p) ∷ set_bits b (i * 64 + (p + 1)) (64 - (p + 1))
unfolding set_bits
one_set b i m s p rem le lt bit low =
    let n : 64 - s ≡ (p - s) + suc (64 - (p + 1)) = omega arith in
    let a : i * 64 + s + (p - s) ≡ i * 64 + p = omega arith in
    let next : i * 64 + p + 1 ≡ i * 64 + (p + 1) = omega arith in
    let here : get b (i * 64 + p) ≡ true = ground (arith, word_bit b i p lt, rem p) in
    rw
      (
        n,
        set_bits-append b (i * 64 + s) (p - s) (suc (64 - (p + 1))),
        clear_between b i m s p rem le (omega arith) low,
        a,
        here,
        next,
      )
      refl

word_foreach_lem :
    (f i m s : ℕ) (b : Bitmap)
    → m < uword_mod
    → Remains b i m s
    → s ≤ 64
    → 65 ≤ f + s
    → word_foreach f i m ≡ set_bits b (i * 64 + s) (64 - s)
unfolding word_foreach
word_foreach_lem zero i m s b fits rem le enough = absurd (omega arith)
word_foreach_lem (suc f) i m s b fits rem le enough = elim (Bool-cases (m == 0)) [
  | inl z ↦
      let e : m ≡ 0 = ground arith in
      rw z (sym (clear_between b i m s 64 rem le (omega arith) (λ k h. rw e (test_bit-zero k))))
  | inr nz ↦
      let ne : m ≢ 0 = ground arith in
      let l = log2_first_set_lem m ne fits in
      let c = clear_first_set m ne fits in
      let p = log2_first_set m in
      let after : s ≤ p = ground (arith, rem p, l.1) in
      let rest =
        word_foreach_lem f i (bit_xor m (first_set m)) (p + 1) b (omega (arith, c.0))
          (λ k. c.1 k ∙ ground (arith, rem k, after, l.2 k)) (omega (arith, l.0))
          (omega (arith, after)) in
      let log : min_log2 (first_set m) ≡ p = rw (first_set-pow m ne fits) (min_log2-pow p l.0) in
      rw (nz, log, rest) (sym (one_set b i m s p rem after l.0 l.1 l.2))
]

foreach_words_lem :
    (b : Bitmap) (n i : ℕ) → IsWords b → foreach_words b n i ≡ set_bits b (i * 64) (n * 64)
unfolding foreach_words set_bits
foreach_words_lem b zero i w = refl
foreach_words_lem b (suc n) i w =
    let size : suc n * 64 ≡ 64 + n * 64 = omega arith in
    let next : (i + 1) * 64 ≡ i * 64 + 64 = omega arith in
    let start : i * 64 + 0 ≡ i * 64 = omega arith in
    let here =
      word_foreach_lem 65 i (word_at b i) 0 b (w i) (λ k. ground arith) (omega arith)
        (omega arith) in
    rw (size, set_bits-append b (i * 64) 64 (n * 64))
      (ap₂ ◌++◌ (rw start at here) (foreach_words_lem b n (i + 1) w ∙ rw next refl))

-- The loop over a map visits exactly the bits that are set, each once and in ascending order.
pub foreach-set_bits : (b : Bitmap) → IsWords b → foreach b ≡ set_bits b 0 (length b * 64)
unfolding foreach
foreach-set_bits b w = foreach_words_lem b (length b) 0 w
