-- ===== src/Word/MaxPow2.antt =====
-- `max_pow2`: the least power of two that is not below a word.
use native.Mathlib.Nat.{pow-le-pow_right}
use uclib.Base.{
  ℕ, zero, suc, ◌*◌, ◌/◌, ◌%◌, ◌^◌, ◌≤◌, ◌<◌, ◌≡◌, refl, Bool-cases, inl, inr, arith, ltb,
  if◌then◌else◌,
}
use uclib.Word.{min_log2, leading_one, max_pow2}
use uclib.Word.Bits.{pow_double}

leading_one_le : (f x : ℕ) → 1 ≤ x → 2 ^ leading_one f x ≤ x
unfolding leading_one
leading_one_le zero x h = omega arith
leading_one_le (suc f) x h = elim (Bool-cases (ltb x 2)) [
  | inl one ↦ rw one (omega arith)
  | inr more ↦ rw (more, pow_double) (ground (arith, more, leading_one_le f (x / 2)))
]

leading_one_lt : (f x : ℕ) → x < 2 ^ suc f → x < 2 * 2 ^ leading_one f x
unfolding leading_one
leading_one_lt zero x h = omega arith
leading_one_lt (suc f) x h = elim (Bool-cases (ltb x 2)) [
  | inl one ↦ rw one (ground (arith, one))
  | inr more ↦
      rw (more, pow_double)
        (omega (arith, leading_one_lt f (x / 2) (omega (arith, pow_double (suc f)))))
]

pub min_log2_le : (x : ℕ) → 1 ≤ x → 2 ^ min_log2 x ≤ x
unfolding min_log2
min_log2_le x h = leading_one_le 64 x h

pub min_log2_lt : (x : ℕ) → x < 2 ^ 64 → x < 2 * 2 ^ min_log2 x
unfolding min_log2
min_log2_lt x h = leading_one_lt 64 x (omega arith)

-- The power of two of a number of less than 64 bits, as a number without wrap-around.
pub max_pow2_lem :
    (x : ℕ)
    → 1 ≤ x
    → x < 2 ^ 63
    → max_pow2 x ≡ (if ltb (2 ^ min_log2 x) x then 2 * 2 ^ min_log2 x else 2 ^ min_log2 x)
unfolding max_pow2
max_pow2_lem x pos h =
    let e : 1 * 2 ^ min_log2 x % 2 ^ 64 ≡ 2 ^ min_log2 x = omega (arith, min_log2_le x pos) in
    let e2 : 2 ^ min_log2 x * 2 % 2 ^ 64 ≡ 2 * 2 ^ min_log2 x = omega (arith, min_log2_le x pos) in
    rw (e, e2) refl

pub max_pow2_ge : (x : ℕ) → 1 ≤ x → x < 2 ^ 63 → x ≤ max_pow2 x
max_pow2_ge x pos h = ground (arith, max_pow2_lem x pos h, min_log2_lt x)

-- A number is below a power of two only if its own power is not above that.
pub max_pow2_le : (x : ℕ) → 1 ≤ x → x ≤ 2 ^ 31 → max_pow2 x ≤ 2 ^ 31
max_pow2_le x pos h =
    let k = min_log2 x in
    rw (max_pow2_lem x pos (omega arith)) (elim (Bool-cases (ltb (2 ^ k) x)) [
      | inl less ↦ rw less (elim (Bool-cases (ltb k 31)) [
        | inl small ↦
            let le : 2 ^ suc k ≤ 2 ^ 31 =
              pow-le-pow_right (omega arith) {j = 31} (ground (arith, small)) in
            omega (arith, le, pow_double k)
        | inr big ↦
            let le : 2 ^ 31 ≤ 2 ^ k =
              pow-le-pow_right (omega arith) {i = 31} (ground (arith, big)) in
            absurd (ground (arith, le, less))
      ])
      | inr same ↦ rw same (omega (arith, min_log2_le x pos))
    ])
