-- ===== src/Bitmap/Field.antt =====
-- Fields of up to 64 bits at any position of a map, which may lie in two words:
-- `clib_bitmap_get_multiple`, and the masks of a field.
pub mod Write
use uclib.Base.{
  ℕ, ◌+◌, ◌-◌, ◌*◌, ◌/◌, ◌%◌, ◌^◌, ◌≤◌, ◌<◌, bit_and, bit_or, ◌≡◌, ◌∙◌, ap, false, ◌&&◌, arith, ltb,
  leb, ◌==◌, if◌then◌else◌, Bool-cases, inl, inr, length, set, get_or-beyond, get_or-set,
  length-set, ==_ne,
}
use uclib.Word.{shl, shr, bit_not}
use uclib.Word.Bits.{
  test_bit, test_bit-and, test_bit-or, test_bit-zero, test_bit-not, test_bit-mod, test_bit-shl,
  test_bit-shr, test_bit-beyond, pow_pos, pow_lt, shl_one, bit_and-lt, bit_or-lt,
}
use uclib.Bitmap.{
  Bitmap, word_at, get, vec_validate, get_multiple, set_multiple, low_ones, value_mask, put_field,
}
use uclib.Bitmap.Trim.{get-bit_at, length-vec_validate}
use uclib.Bitmap.Bits.{get-vec_validate}
use uclib.Bitmap.Alu.{IsWords}
use uclib.Bitmap.Whole.{set-IsWords, vec_validate-IsWords}

low_ones_lem : (n : ℕ) → n < 64 → low_ones n ≡ 2 ^ n - 1
low_ones_lem n h = rw (shl_one n h) (omega (arith, pow_pos n, pow_lt n 64 h))

test_bit-ones : (n k : ℕ) → test_bit (2 ^ n - 1) k ≡ ltb k n
test_bit-ones n k = elim (Bool-cases (ltb k n)) [
  | inl lt ↦ ground (arith, test_bit-not n 0 k (pow_pos n), test_bit-zero k)
  | inr ge ↦ ground (arith, test_bit-beyond n (2 ^ n - 1) k, pow_pos n)
]

pub test_bit-low_ones : (n k : ℕ) → n < 64 → test_bit (low_ones n) k ≡ ltb k n
test_bit-low_ones n k h = rw (low_ones_lem n h) (test_bit-ones n k)

pub test_bit-value_mask : (n k : ℕ) → n ≤ 64 → test_bit (value_mask n) k ≡ ltb k n
test_bit-value_mask n k h = elim (Bool-cases (ltb n 64)) [
  | inl lt ↦ rw lt (test_bit-low_ones n k (ground arith))
  | inr ge ↦ let e : n ≡ 64 = ground arith in rw (ge, e) (test_bit-ones 64 k)
]

-- A word shifted left within 64 bits.
pub test_bit-shl_word :
    (x p k : ℕ) → k < 64 → test_bit (shl x p) k ≡ (if ltb k p then false else test_bit x (k - p))
test_bit-shl_word x p k h = ground (arith, test_bit-mod 64 (x * 2 ^ p) k, test_bit-shl x p k)

-- Where bit `i + j` of a map lies.
split_bit :
    (b : Bitmap) (i j : ℕ)
    → j < 64
    → get b (i + j) ≡ (
        if ltb (i % 64 + j) 64
        then test_bit (word_at b (i / 64)) (i % 64 + j)
        else test_bit (word_at b (i / 64 + 1)) (i % 64 + j - 64))
split_bit b i j h = elim (Bool-cases (ltb (i % 64 + j) 64)) [
  | inl low ↦
      let q : (i + j) / 64 ≡ i / 64 = ground arith in
      let r : (i + j) % 64 ≡ i % 64 + j = ground arith in rw low (get-bit_at b (i + j) ∙ rw (q, r))
  | inr high ↦
      let q : (i + j) / 64 ≡ i / 64 + 1 = ground arith in
      let r : (i + j) % 64 ≡ i % 64 + j - 64 = ground arith in
      rw high (get-bit_at b (i + j) ∙ rw (q, r))
]

-- The first word's share of the field.
test_bit-first :
    (b : Bitmap) (i n j : ℕ)
    → n ≤ 64
    → j < 64
    → test_bit
        (if ltb (i / 64) (length b)
          then (if ltb n 64
              then bit_and (shr (word_at b (i / 64)) (i % 64)) (low_ones n)
              else shr (word_at b (i / 64)) (i % 64))
          else 0)
        j
      ≡ (ltb j n && test_bit (word_at b (i / 64)) (i % 64 + j))
test_bit-first b i n j hn hj = elim (Bool-cases (ltb (i / 64) (length b))) [
  | inl inside ↦ rw inside (elim (Bool-cases (ltb n 64)) [
    | inl lt ↦ rw lt (
        ground (
          arith,
          test_bit-and (shr (word_at b (i / 64)) (i % 64)) (low_ones n) j,
          test_bit-low_ones n j,
          test_bit-shr (word_at b (i / 64)) (i % 64) j,
        ))
    | inr ge ↦ rw ge (ground (arith, test_bit-shr (word_at b (i / 64)) (i % 64) j))
  ])
  | inr outside ↦
      rw (outside, get_or-beyond b (i / 64) 0 (ground arith))
        (ground (arith, test_bit-zero j, test_bit-zero (i % 64 + j)))
]

-- `get_multiple` returns the `n` bits from bit `i` on, with 0 beyond the map and above the field.
pub get_multiple_lem :
    (b : Bitmap) (i n j : ℕ)
    → IsWords b
    → n ≤ 64
    → j < 64
    → test_bit (get_multiple b i n) j ≡ (ltb j n && get b (i + j))
unfolding get_multiple
get_multiple_lem b i n j w hn hj =
    let first = test_bit-first b i n j hn hj in
    let over = test_bit-beyond 64 (word_at b (i / 64)) (i % 64 + j) (w (i / 64)) in
    elim (Bool-cases (ltb 64 (i % 64 + n) && ltb (i / 64 + 1) (length b))) [
      | inl two ↦
          rw (two, test_bit-or, first, split_bit b i j hj)
            (let p = 64 - i % 64 in
              let w1 = word_at b (i / 64 + 1) in
              let e : j - p ≡ i % 64 + j - 64 = omega arith in
              ground (
                arith,
                over,
                test_bit-shl_word (bit_and w1 (low_ones (n - p))) p j,
                test_bit-and w1 (low_ones (n - p)) (j - p),
                test_bit-low_ones (n - p) (j - p),
                ap (test_bit w1) e,
              ))
      | inr one ↦
          rw (one, first, split_bit b i j hj)
            (ground (
              arith,
              over,
              get_or-beyond b (i / 64 + 1) 0,
              test_bit-zero (i % 64 + j - 64),
              λ (h : word_at b (i / 64 + 1) ≡ 0). ap (λ (t : ℕ). test_bit t (i % 64 + j - 64)) h,
            ))
    ]
