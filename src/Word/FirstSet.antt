-- ===== src/Word/FirstSet.antt =====
-- `first_set`, `log2_first_set` and `min_log2`: the lowest bit of a word, its position, and the
-- position of the highest.
use uclib.Base.{
  ℕ, zero, suc, ◌+◌, ◌-◌, ◌/◌, ◌%◌, ◌^◌, ◌<◌, bit_and, bit_xor, ◌≡◌, ◌≢◌, refl, ◌∙◌, ap, true,
  false, not, ◌&&◌, arith, ltb, ◌==◌, Bool-cases, inl, inr,
}
use uclib.Word.{uword_mod, neg, first_set, trailing_zeros, leading_one, log2_first_set, min_log2}
use uclib.Word.Digits.{bit_and_step, bit_xor_step}
use uclib.Word.Bits.{
  bit_xor-zero, test_bit, pow_double, pow_pos, test_bit-and, test_bit-not, test_bit-zero,
  test_bit-beyond, test_bit-xor, test_bit-pow, word_ext, bit_and-lt,
}

trailing_zeros_lem :
    (f x : ℕ)
    → x ≢ 0
    → x < 2 ^ f
    → (trailing_zeros f x < f) × (test_bit x (trailing_zeros f x) ≡ true)
unfolding trailing_zeros
trailing_zeros_lem zero x ne h = absurd (ne (omega arith))
trailing_zeros_lem (suc f) x ne h = elim (Bool-cases (x % 2 == 1)) [
  | inl odd ↦ rw odd (omega arith, odd)
  | inr even ↦
      let ih = trailing_zeros_lem f (x / 2) (ground arith) (omega (arith, pow_double f)) in
      rw even (omega arith, ih.1)
]

trailing_zeros_below : (f x i : ℕ) → i < trailing_zeros f x → test_bit x i ≡ false
unfolding trailing_zeros
trailing_zeros_below zero x i h = elim h [ ]
trailing_zeros_below (suc f) x zero h = ground arith
trailing_zeros_below (suc f) x (suc i) h = ground (arith, trailing_zeros_below f (x / 2) i)

-- The position is that of the lowest set bit.
pub log2_first_set_lem :
    (x : ℕ)
    → x ≢ 0
    → x < uword_mod
    → (log2_first_set x < 64)
      × (test_bit x (log2_first_set x) ≡ true)
      × ((i : ℕ) → i < log2_first_set x → test_bit x i ≡ false)
unfolding log2_first_set
log2_first_set_lem x ne h =
    let a = trailing_zeros_lem 64 x ne h in (a.0, a.1, trailing_zeros_below 64 x)

bit_and_not : (k y : ℕ) → y < 2 ^ k → bit_and y (2 ^ k - 1 - y) ≡ 0
bit_and_not k y h = word_ext k _ 0 (bit_and-lt k _ _ h) (pow_pos k) bits
  where
    bits : (i : ℕ) → test_bit (bit_and y (2 ^ k - 1 - y)) i ≡ test_bit 0 i
    bits i = elim (Bool-cases (ltb i k)) [
      | inl lt ↦
          ground (arith, test_bit-and y (2 ^ k - 1 - y) i, test_bit-not k y i h, test_bit-zero i)
      | inr ge ↦
          ground (arith, test_bit-and y (2 ^ k - 1 - y) i, test_bit-beyond k y i h, test_bit-zero i)
    ]

lowest : (k x : ℕ) → x ≢ 0 → x < 2 ^ k → bit_and x (2 ^ k - x) ≡ 2 ^ trailing_zeros k x
unfolding trailing_zeros
lowest zero x ne h = absurd (ne (omega arith))
lowest (suc k) x ne h = elim (Bool-cases (x % 2 == 1)) [
  | inl odd ↦
      let half : (2 ^ suc k - x) / 2 ≡ 2 ^ k - 1 - x / 2 = ground (arith, pow_double k) in
      rw odd (
        ground (
          arith,
          pow_double k,
          bit_and_step x (2 ^ suc k - x),
          ap (bit_and (x / 2)) half,
          bit_and_not k (x / 2) (omega (arith, pow_double k)),
        ))
  | inr even ↦
      let half : (2 ^ suc k - x) / 2 ≡ 2 ^ k - x / 2 = ground (arith, pow_double k) in
      rw even (
        ground (
          arith,
          pow_double k,
          pow_double (trailing_zeros k (x / 2)),
          bit_and_step x (2 ^ suc k - x),
          ap (bit_and (x / 2)) half,
          lowest k (x / 2),
        ))
]

-- `x & -x` is the power of two at the lowest set bit.
pub first_set-pow : (x : ℕ) → x ≢ 0 → x < uword_mod → first_set x ≡ 2 ^ log2_first_set x
unfolding first_set log2_first_set
first_set-pow x ne h =
    let e : neg x ≡ uword_mod - x = omega arith in ap (bit_and x) e ∙ lowest 64 x ne h

leading_one-pow : (f k : ℕ) → k < f → leading_one f (2 ^ k) ≡ k
unfolding leading_one
leading_one-pow zero k h = elim h [ ]
leading_one-pow (suc f) zero h = refl
leading_one-pow (suc f) (suc k) h =
    let half : 2 ^ suc k / 2 ≡ 2 ^ k = omega (arith, pow_double k) in
    ground (arith, pow_double k, pow_pos k, ap (leading_one f) half, leading_one-pow f k)

pub min_log2-pow : (k : ℕ) → k < 64 → min_log2 (2 ^ k) ≡ k
unfolding min_log2
min_log2-pow k h = leading_one-pow 64 k h

-- Exclusive or with a set bit takes it away.
pub bit_xor-pow : (x p : ℕ) → test_bit x p ≡ true → bit_xor x (2 ^ p) + 2 ^ p ≡ x
bit_xor-pow x zero h = ground (arith, bit_xor_step x 1, bit_xor-zero (x / 2))
bit_xor-pow x (suc p) h =
    let half : 2 ^ suc p / 2 ≡ 2 ^ p = omega (arith, pow_double p) in
    ground (
      arith,
      pow_double p,
      bit_xor_step x (2 ^ suc p),
      ap (bit_xor (x / 2)) half,
      bit_xor-pow (x / 2) p h,
    )

-- `x ^= first_set (x)`: what is left, and its bits.
pub clear_first_set :
    (x : ℕ)
    → x ≢ 0
    → x < uword_mod
    → (bit_xor x (first_set x) + 2 ^ log2_first_set x ≡ x)
      × ((k : ℕ)
          → test_bit (bit_xor x (first_set x)) k ≡ (test_bit x k && not (log2_first_set x == k)))
clear_first_set x ne h =
    let p = log2_first_set x in
    let l = log2_first_set_lem x ne h in
    rw (first_set-pow x ne h) (
      bit_xor-pow x p l.1,
      λ k. elim (Bool-cases (p == k)) [
        | inl same ↦ ground (
          arith,
          test_bit-xor x (2 ^ p) k,
          test_bit-pow p k,
          l.1,
          λ (e : p ≡ k). ap (test_bit x) e,
        )
        | inr other ↦ ground (arith, test_bit-xor x (2 ^ p) k, test_bit-pow p k)
      ],
    )
