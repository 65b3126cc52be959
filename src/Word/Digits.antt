-- ===== src/Word/Digits.antt =====
-- The native bit operations mean `bitwise`, a recursion on binary digits with fuel. Here the fuel
-- is dropped: one equation for the lowest digit of each operation.
use Prim.Native.Nat.{digits, bitwise, differ, bit_and-bitwise, bit_or-bitwise, bit_xor-bitwise}
use uclib.Base.{
  ℕ, zero, suc, ◌+◌, ◌-◌, ◌*◌, ◌/◌, ◌%◌, ◌≤◌, ◌<◌, min, max, bit_and, bit_or, bit_xor, ◌≡◌, refl,
  ◌∙◌, ap, arith,
}

module _ (z : ℕ → ℕ) (f : ℕ → ℕ → ℕ) where
  one_more : (n a b : ℕ) → a ≤ n → digits z f (suc n) a b ≡ digits z f n a b
  one_more zero zero b h = refl
  one_more zero (suc a) b h = absurd (omega arith)
  one_more (suc n) zero b h = refl
  one_more (suc n) (suc a) b h = let half = one_more n (suc a / 2) (b / 2) (omega arith) in cc

  many_more : (k m a b : ℕ) → a ≤ m → digits z f (m + k) a b ≡ digits z f m a b
  many_more zero m a b h = ap (λ (t : ℕ). digits z f t a b) (omega arith)
  many_more (suc k) m a b h =
      let e : m + suc k ≡ suc (m + k) = omega arith in
      ap (λ (t : ℕ). digits z f t a b) e
      ∙ (one_more (m + k) a b (omega arith) ∙ many_more k m a b h)

  more_fuel : (m a b : ℕ) → a ≤ m → digits z f m a b ≡ digits z f a a b
  more_fuel m a b h =
      let e : m ≡ a + (m - a) = omega arith in
      ap (λ (t : ℕ). digits z f t a b) e ∙ many_more (m - a) a a b (omega arith)

  -- The equation for the lowest digit, from its instance at 0.
  lowest_digit :
      ((b : ℕ) → z b ≡ z (b / 2) * 2 + f 0 (b % 2))
      → (a b : ℕ) → bitwise z f a b ≡ bitwise z f (a / 2) (b / 2) * 2 + f (a % 2) (b % 2)
  lowest_digit at_zero zero b = at_zero b
  lowest_digit at_zero (suc a) b =
      ap (λ (t : ℕ). t * 2 + f (suc a % 2) (b % 2)) (more_fuel a (suc a / 2) (b / 2) (omega arith))

pub bit_and_step : (a b : ℕ) → bit_and a b ≡ bit_and (a / 2) (b / 2) * 2 + min (a % 2) (b % 2)
bit_and_step a b = simp bit_and-bitwise (lowest_digit (λ t. 0) min (λ t. omega arith) a b)

pub bit_or_step : (a b : ℕ) → bit_or a b ≡ bit_or (a / 2) (b / 2) * 2 + max (a % 2) (b % 2)
bit_or_step a b = simp bit_or-bitwise (lowest_digit (λ t. t) max (λ t. omega arith) a b)

differ-add : (x y : ℕ) → x < 2 → y < 2 → differ x y ≡ (x + y) % 2
differ-add zero y p q = omega arith
differ-add (suc zero) zero p q = refl
differ-add (suc zero) (suc zero) p q = refl
differ-add (suc zero) (suc (suc y)) p q = absurd (omega arith)
differ-add (suc (suc x)) y p q = absurd (omega arith)

bit_xor-differ : (a b : ℕ) → bit_xor a b ≡ bit_xor (a / 2) (b / 2) * 2 + differ (a % 2) (b % 2)
bit_xor-differ a b =
    let at_zero : (t : ℕ) → t ≡ t / 2 * 2 + differ 0 (t % 2) = λ t. omega arith in
    simp bit_xor-bitwise (lowest_digit (λ t. t) differ at_zero a b)

pub bit_xor_step : (a b : ℕ) → bit_xor a b ≡ bit_xor (a / 2) (b / 2) * 2 + (a % 2 + b % 2) % 2
bit_xor_step a b =
    omega (arith, bit_xor-differ a b, differ-add (a % 2) (b % 2) (omega arith) (omega arith))
