-- ===== src/Bitmap/Alu.antt =====
-- The operations on two maps, `clib_bitmap_and` and its kin, stated by the bits of the maps.
use uclib.Base.{
  ℕ, zero, suc, ◌+◌, ◌-◌, ◌/◌, ◌%◌, ◌^◌, ◌≤◌, ◌<◌, bit_and, bit_or, bit_xor, ◌≡◌, ◌≢◌, ◌⊎◌, refl,
  sym, ◌∙◌, ap, Bool, true, false, not, ◌&&◌, ◌||◌, xor, [], ◌∷◌, arith, ltb, ◌==◌, if◌then◌else◌,
  Bool-cases, inl, inr, length, take, get_or-beyond, some,
}
use uclib.Word.Bits.{test_bit, test_bit-and, test_bit-or, test_bit-xor, test_bit-not}
use uclib.Bitmap.{
  Bitmap, word_at, vec_validate, get, alu_loop, alu_words, alu, and_map, andnot_map, or_map,
  xor_map, andnot_word,
}
use uclib.Bitmap.Trim.{
  get-bit_at, word_at-vec_validate, length-vec_validate, word_at-take_zeros, length-take_le,
  IsTrimmed,
}

-- Every word fits 64 bits.
abbrev pub IsWords : Bitmap → Type 0
IsWords a = (j : ℕ) → word_at a j < 2 ^ 64

-- `bi[i]` if it is there, and 0 if not, is the read of the word.
word_or_zero :
    (bi : Bitmap) (i : ℕ) → (if ltb i (length bi) then word_at bi i else 0) ≡ word_at bi i
word_or_zero bi i = ground (arith, get_or-beyond bi i 0)

module _ (body : ℕ → ℕ → ℕ) (check_zero : Bool) (bi : Bitmap) where
  length-alu_loop :
      (ai : Bitmap) (i n : ℕ) → length (alu_loop body check_zero bi i ai n).0 ≡ length ai
  unfolding alu_loop
  length-alu_loop [] i n = refl
  length-alu_loop (a ∷ ai) i n = ap suc (length-alu_loop ai (i + 1) _)

  word_at-alu_loop :
      (ai : Bitmap) (i n j : ℕ)
      → j < length ai
      → word_at (alu_loop body check_zero bi i ai n).0 j ≡ body (word_at ai j) (word_at bi (i + j))
  unfolding alu_loop
  word_at-alu_loop [] i n j h = elim h [ ]
  word_at-alu_loop (a ∷ ai) i n zero h = let e : i + 0 ≡ i = omega arith in rw (word_or_zero, e)
  word_at-alu_loop (a ∷ ai) i n (suc j) h =
      let e : i + 1 + j ≡ i + suc j = omega arith in
      rw (word_at-alu_loop ai (i + 1) _ j (omega arith), e)

-- `m` words at the end of `r` are 0 and the one before is not; or all of `r` is 0, and `n` words
-- before it were.
Trailing : ℕ → Bitmap → ℕ → Type 0
Trailing n r m =
    ((m < length r)
      × (word_at r (length r - m - 1) ≢ 0)
      × ((j : ℕ) → length r ≤ j + m → word_at r j ≡ 0))
    ⊎ ((m ≡ n + length r) × ((j : ℕ) → word_at r j ≡ 0))

pub all_zero :
    (a : ℕ) (r : Bitmap) → a ≡ 0 → ((j : ℕ) → word_at r j ≡ 0) → (j : ℕ) → word_at (a ∷ r) j ≡ 0
all_zero a r e zeros zero = e
all_zero a r e zeros (suc j) = zeros j

zeros_behind :
    (a : ℕ) (r : Bitmap) (m : ℕ)
    → m ≤ length r
    → ((j : ℕ) → length r ≤ j + m → word_at r j ≡ 0)
    → (j : ℕ) → suc (length r) ≤ j + m
    → word_at (a ∷ r) j ≡ 0
zeros_behind a r m le zeros zero h = absurd (omega arith)
zeros_behind a r m le zeros (suc j) h = zeros j (omega arith)

Trailing-cons :
    (n a : ℕ) (r : Bitmap) (m : ℕ)
    → Trailing (if not (a == 0) then 0 else n + 1) r m
    → Trailing n (a ∷ r) m
unfolding Trailing
Trailing-cons n a r m (inl (lt, last, zeros)) =
    let e : suc (length r) - m - 1 ≡ suc (length r - m - 1) = omega arith in
    inl (omega arith, rw e last, zeros_behind a r m (omega arith) zeros)
Trailing-cons n a r m (inr (e, zeros)) = elim (Bool-cases (a == 0)) [
  | inl z ↦ inr (ground arith, all_zero a r (ground arith) zeros)
  | inr nz ↦
      let first : suc (length r) - m - 1 ≡ 0 = ground arith in
      inl
        (ground arith, rw first (ground arith), zeros_behind a r m (ground arith) (λ j h. zeros j))
]

alu_loop-Trailing :
    (body : ℕ → ℕ → ℕ) (bi ai : Bitmap) (i n : ℕ)
    → Trailing n (alu_loop body true bi i ai n).0 (alu_loop body true bi i ai n).1
unfolding alu_loop
alu_loop-Trailing body bi [] i n = unfold Trailing in inr (omega arith, λ j. refl)
alu_loop-Trailing body bi (a ∷ ai) i n =
    Trailing-cons n _ _ _ (alu_loop-Trailing body bi ai (i + 1) _)

Trailing-take :
    (r : Bitmap) (m : ℕ)
    → Trailing 0 r m
    → ((j : ℕ) → word_at (take (length r - m) r) j ≡ word_at r j)
      × IsTrimmed (take (length r - m) r)
unfolding Trailing
Trailing-take r m (inl (lt, last, zeros)) =
    let len : length (take (length r - m) r) ≡ length r - m =
      length-take_le r (length r - m) (omega arith) in
    (
      word_at-take_zeros r (length r - m) (λ j p q. zeros j (omega arith)),
      λ h e. last (
          sym (
            word_at-take_zeros r (length r - m) (λ j p q. zeros j (omega arith)) (length r - m - 1))
          ∙ rw len at e),
    )
Trailing-take r m (inr (e, zeros)) =
    let none_left : length r - m ≡ 0 = omega arith in
    rw none_left (λ j. sym (zeros j), λ h. absurd (h refl))

-- The first operand as the loop takes it: at least as long as the second.
abbrev widened : Bitmap → Bitmap → Bitmap
widened ai bi = if ltb 0 (length bi) then vec_validate ai (length bi - 1) else ai

widened_lem :
    (ai bi : Bitmap)
    → (length bi ≤ length (widened ai bi)) × ((j : ℕ) → word_at (widened ai bi) j ≡ word_at ai j)
widened_lem ai bi = elim (Bool-cases (ltb 0 (length bi))) [
  | inl some_words ↦ rw some_words (
    ground (arith, length-vec_validate ai (length bi - 1)),
    word_at-vec_validate ai (length bi - 1),
  )
  | inr no_words ↦ rw no_words (ground arith, λ j. refl)
]

module _ (body : ℕ → ℕ → ℕ) (zero_zero : body 0 0 ≡ 0) where
  word_at-loop_all :
      (check_zero : Bool) (v bi : Bitmap) (j : ℕ)
      → length bi ≤ length v
      → word_at (alu_loop body check_zero bi 0 v 0).0 j ≡ body (word_at v j) (word_at bi j)
  word_at-loop_all check_zero v bi j h = elim (Bool-cases (ltb j (length v))) [
    | inl inside ↦
        word_at-alu_loop body check_zero bi v 0 0 j (ground arith)
        ∙ ap (λ (t : ℕ). body (word_at v j) (word_at bi t)) (omega arith)
    | inr beyond ↦
        let r = alu_loop body check_zero bi 0 v 0 in
        rw (get_or-beyond v j 0 (ground arith), get_or-beyond bi j 0 (ground arith), zero_zero)
          (get_or-beyond r.0 j 0 (ground (arith, length-alu_loop body check_zero bi v 0 0)))
  ]

  word_at-alu_words :
      (check_zero : Bool) (ai bi : Bitmap) (j : ℕ)
      → word_at (alu_words body check_zero ai bi) j ≡ body (word_at ai j) (word_at bi j)
  unfolding alu_words
  word_at-alu_words true ai bi j =
      let w = widened_lem ai bi in
      (Trailing-take _ _ (alu_loop-Trailing body bi (widened ai bi) 0 0)).0 j
      ∙ word_at-loop_all true (widened ai bi) bi j w.0
      ∙ ap (λ (t : ℕ). body t (word_at bi j)) (w.1 j)
  word_at-alu_words false ai bi j =
      let w = widened_lem ai bi in
      word_at-loop_all false (widened ai bi) bi j w.0
      ∙ ap (λ (t : ℕ). body t (word_at bi j)) (w.1 j)

alu_words-IsTrimmed : (body : ℕ → ℕ → ℕ) (ai bi : Bitmap) → IsTrimmed (alu_words body true ai bi)
unfolding alu_words
alu_words-IsTrimmed body ai bi =
    let v = if ltb 0 (length bi) then vec_validate ai (length bi - 1) else ai in
    (Trailing-take _ _ (alu_loop-Trailing body bi v 0 0)).1

-- And, and-not, or and exclusive or of two maps, of which at least one has a word, do not fault and act
-- bit by bit, whatever the lengths of the maps; all but or leave no zero word at the end of their
-- result. The second map consists of 64-bit words.
pub get-alu :
    (ai bi : Bitmap) (i : ℕ)
    → IsWords bi
    → 0 < length ai + length bi
    → ((m : Bitmap) × (and_map ai bi ≡ some m) × (get m i ≡ (get ai i && get bi i)) × IsTrimmed m)
      × ((m : Bitmap) × (andnot_map ai bi ≡ some m)
          × (get m i ≡ (get ai i && not (get bi i)))
          × IsTrimmed m)
      × ((m : Bitmap) × (or_map ai bi ≡ some m) × (get m i ≡ (get ai i || get bi i)))
      × ((m : Bitmap) × (xor_map ai bi ≡ some m)
          × (get m i ≡ xor (get ai i) (get bi i))
          × IsTrimmed m)
unfolding and_map andnot_map or_map xor_map alu
get-alu ai bi i words some_words =
    let a = word_at ai (i / 64) in
    let b = word_at bi (i / 64) in
    let k = i % 64 in
    let flip = test_bit-not 64 b k (words (i / 64)) (omega arith) in
    let not_null : ((length ai + length bi) == 0) ≡ false = ground (arith, some_words) in
    rw not_null (
      (
        alu_words bit_and true ai bi,
        refl,
        simp get-bit_at
            (rw (word_at-alu_words bit_and refl true ai bi (i / 64)) (test_bit-and a b k)),
        alu_words-IsTrimmed bit_and ai bi,
      ),
      (
        alu_words andnot_word true ai bi,
        refl,
        simp get-bit_at (
            rw (word_at-alu_words andnot_word refl true ai bi (i / 64))
              (rw test_bit-and (ap (λ t. test_bit a k && t) flip))),
        alu_words-IsTrimmed andnot_word ai bi,
      ),
      (
        alu_words bit_or false ai bi,
        refl,
        simp get-bit_at
            (rw (word_at-alu_words bit_or refl false ai bi (i / 64)) (test_bit-or a b k)),
      ),
      (
        alu_words bit_xor true ai bi,
        refl,
        simp get-bit_at
            (rw (word_at-alu_words bit_xor refl true ai bi (i / 64)) (test_bit-xor a b k)),
        alu_words-IsTrimmed bit_xor ai bi,
      ),
    )
