-- ===== src/Pool/Foreach/Round.antt =====
-- The inner loop of pool_foreach_region on one word of the free bitmap.
use uclib.Base.{
  ℕ, zero, suc, ◌+◌, ◌-◌, ◌*◌, ◌/◌, ◌%◌, ◌≤◌, ◌<◌, bit_xor, ◌≡◌, ◌≢◌, refl, ◌∙◌, true, false, ◌&&◌,
  List, [], ◌∷◌, arith, ltb, leb, ◌==◌, if◌then◌else◌, Bool-cases, inl, inr, length, range, lt→ltb,
}
use uclib.Word.{uword_bits, uword_mod, first_set, min_log2, log2_first_set}
use uclib.Word.Bits.{test_bit, test_bit-zero}
use uclib.Word.FirstSet.{log2_first_set_lem, first_set-pow, min_log2-pow, clear_first_set}
use uclib.Bitmap.{Bitmap, word_at, get}
use uclib.Bitmap.Trim.{get-bit_at}
use uclib.Pool.{word_regions, visited}
use uclib.Pool.Foreach.Live.{
  live, Covers, Covers-append, Covers-region, Covers-past, Clear, Clear-nil,
}

-- The bits of `m` are those of word `i` from place `s` on.
unfoldable pub Remains : Bitmap → ℕ → ℕ → ℕ → Type 0
Remains b i m s = (k : ℕ) → test_bit m k ≡ (leb s k && test_bit (word_at b i) k)

word_bit : (b : Bitmap) (i k : ℕ) → k < 64 → get b (i * 64 + k) ≡ test_bit (word_at b i) k
word_bit b i k h =
    let q : (i * 64 + k) / 64 ≡ i = omega arith in
    let r : (i * 64 + k) % 64 ≡ k = omega arith in rw (get-bit_at b (i * 64 + k), q, r) refl

-- What the inner loop leaves on a word of the map.
unfoldable pub Done : Bitmap → ℕ → ℕ → List (ℕ × ℕ) × ℕ → Type 0
Done b i lo r =
    Covers b lo r.1 (visited r.0)
    × (r.1 ≤ (i + 1) * 64)
    × Clear b r.1 ((i + 1) * 64)
    × ((n : ℕ) → lo ≤ n → ((j : ℕ) → get b j ≡ true → j < n) → r.1 ≤ n)

pub all_remain : (b : Bitmap) (i : ℕ) → Remains b i (word_at b i) 0
unfolding Remains
all_remain b i k = ground arith

-- One round: the region up to the lowest bit of `m`, and what is left of the word.
pub record IsRound (b : Bitmap) (i m lo s : ℕ) : Type 0 where
  pub inside : i < length b
  pub fits : m < uword_mod
  pub rem : Remains b i m s
  pub below : lo ≤ i * 64 + s
  pub clear : Clear b lo (i * 64 + s)

module _ (b : Bitmap) (i m lo s : ℕ) (round : IsRound b i m lo s) where
  abbrev place : ℕ
  place = log2_first_set m

  abbrev hi : ℕ
  hi = i * 64 + place

  unset_upto : (q : ℕ) → q ≤ 64 → ((k : ℕ) → k < q → test_bit m k ≡ false) → Clear b lo (i * 64 + q)
  unfolding Clear Remains
  unset_upto q le low j p h = elim (Bool-cases (ltb j (i * 64 + s))) [
    | inl before ↦ round.clear j p (ground arith)
    | inr after ↦
        let e : i * 64 + (j - i * 64) ≡ j = ground arith in
        let bit : get b (i * 64 + (j - i * 64)) ≡ false = ground (
          arith,
          word_bit b i (j - i * 64) (ground arith),
          round.rem (j - i * 64),
          low (j - i * 64),
        ) in
        rw e at bit
  ]

  empty-Done : m ≡ 0 → s ≤ 64 → Done b i lo ([], lo)
  unfolding Done Covers live visited Clear
  empty-Done z le =
      let e : lo - lo ≡ 0 = omega arith in
      let n : (i + 1) * 64 ≡ i * 64 + 64 = omega arith in
      (
        (omega arith, rw e refl),
        omega arith,
        rw n (unset_upto 64 (omega arith) (λ k h. rw z (test_bit-zero k))),
        λ n h k. h,
      )

  module _ (ne : m ≢ 0) where
    place_lt : place < 64
    place_lt = (log2_first_set_lem m ne round.fits).0

    place_le : s ≤ place
    unfolding Remains
    place_le = ground (arith, round.rem place, (log2_first_set_lem m ne round.fits).1)

    place_set : get b hi ≡ true
    unfolding Remains
    place_set =
        word_bit b i place place_lt
        ∙ ground (arith, round.rem place, (log2_first_set_lem m ne round.fits).1)

    region : Covers b lo (hi + 1) (range lo (hi - lo))
    unfolding Clear
    region =
        Covers-past b lo hi _
          (Covers-region b lo hi (omega (arith, place_le, round.below))
            (unset_upto place (omega (arith, place_lt)) (log2_first_set_lem m ne round.fits).2))
          place_set

    left-Remains : Remains b i (bit_xor m (first_set m)) (place + 1)
    unfolding Remains
    left-Remains k =
        (clear_first_set m ne round.fits).1 k
        ∙ ground (arith, round.rem k, place_le, (log2_first_set_lem m ne round.fits).2 k)

    left-lt : bit_xor m (first_set m) < uword_mod
    left-lt = omega (arith, (clear_first_set m ne round.fits).0)

    left-IsRound : IsRound b i (bit_xor m (first_set m)) (hi + 1) (place + 1)
    left-IsRound = record {
      inside = round.inside;
      fits = left-lt;
      rem = left-Remains;
      below = omega arith;
      clear = Clear-nil b (hi + 1) (i * 64 + (place + 1)) (omega arith);
    }

    hi_lem : i * uword_bits + min_log2 (first_set m) ≡ hi
    hi_lem = rw (first_set-pow m ne round.fits) (omega (arith, min_log2-pow place place_lt))

    step-Done :
        (r : List (ℕ × ℕ) × ℕ)
        → Done b i (hi + 1) r
        → Done b i lo (if ltb lo hi then ((lo, hi) ∷ r.0, r.1) else r)
    unfolding Done visited
    step-Done r d =
        let c = Covers-append b lo (hi + 1) r.1 _ _ region d.0 in
        let bound : (n : ℕ) → lo ≤ n → ((j : ℕ) → get b j ≡ true → j < n) → r.1 ≤ n =
          λ n h k. d.3 n (omega (arith, k hi place_set)) k in
        elim (Bool-cases (ltb lo hi)) [
          | inl some ↦ rw some (c, d.1, d.2, bound)
          | inr none ↦ let e : hi - lo ≡ 0 = ground arith in rw none (rw e at c, d.1, d.2, bound)
        ]

pub word_regions-Done :
    (f len i m lo s : ℕ) (b : Bitmap)
    → IsRound b i m lo s
    → s ≤ 64
    → 65 ≤ f + s
    → Done b i lo (word_regions f len (length b) i m lo)
unfolding word_regions
word_regions-Done zero len i m lo s b round le enough = absurd (omega arith)
word_regions-Done (suc f) len i m lo s b round le enough = elim (Bool-cases (m == 0)) [
  | inl z ↦ rw z (empty-Done b i m lo s round (ground arith) le)
  | inr nz ↦
      let ne : m ≢ 0 = ground arith in
      let next = left-IsRound b i m lo s round ne in
      rw (nz, lt→ltb i (length b) round.inside, hi_lem b i m lo s round ne)
        (step-Done b i m lo s round ne _ (
          word_regions-Done f len i _ _ _ b next (omega (arith, place_lt b i m lo s round ne))
            (omega (arith, place_le b i m lo s round ne))))
]
