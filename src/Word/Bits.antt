-- ===== src/Word/Bits.antt =====
-- A word read bit by bit: how each operation of a word acts on bit `i`, and words with the same
-- bits are equal.
use native.Mathlib.Nat.{pow-suc, one-le-pow, div-div-eq-div-mul, mod-eq-sub-mul-div}
use Prim.Native.Nat.{bit_and-bitwise}
use uclib.Base.{
  ℕ, zero, suc, ◌+◌, ◌-◌, ◌*◌, ◌/◌, ◌%◌, ◌^◌, ◌≤◌, ◌<◌, bit_and, bit_or, bit_xor, ◌≡◌, refl, ap,
  ◌∙◌, sym, Bool, false, not, xor, ◌&&◌, ◌||◌, arith, ltb, ◌==◌, if◌then◌else◌, Bool-cases, inl,
  inr,
}
use uclib.Word.Digits.{bit_and_step, bit_or_step, bit_xor_step}

abbrev pub test_bit : ℕ → ℕ → Bool
test_bit x zero = x % 2 == 1
test_bit x (suc i) = test_bit (x / 2) i

pub pow_double : (k : ℕ) → 2 ^ suc k ≡ 2 * 2 ^ k
pow_double k = omega (arith, pow-suc 2 k)

pub pow_pos : (k : ℕ) → 1 ≤ 2 ^ k
pow_pos k = one-le-pow k 2 (omega arith)

div_pow : (x k : ℕ) → x / 2 ^ suc k ≡ x / 2 / 2 ^ k
div_pow x k = rw (pow_double k) (sym (div-div-eq-div-mul x 2 (2 ^ k)))

zero-bit_and : (b : ℕ) → bit_and 0 b ≡ 0
zero-bit_and b = bit_and-bitwise 0 b

bit_and-half : (a b : ℕ) → bit_and a b / 2 ≡ bit_and (a / 2) (b / 2)
bit_and-half a b = omega (arith, bit_and_step a b)

bit_or-half : (a b : ℕ) → bit_or a b / 2 ≡ bit_or (a / 2) (b / 2)
bit_or-half a b = omega (arith, bit_or_step a b)

bit_xor-half : (a b : ℕ) → bit_xor a b / 2 ≡ bit_xor (a / 2) (b / 2)
bit_xor-half a b = ground (arith, bit_xor_step a b)

pub test_bit-and : (a b i : ℕ) → test_bit (bit_and a b) i ≡ (test_bit a i && test_bit b i)
test_bit-and a b zero = ground (arith, bit_and_step a b)
test_bit-and a b (suc i) = rw bit_and-half (test_bit-and (a / 2) (b / 2) i)

pub test_bit-or : (a b i : ℕ) → test_bit (bit_or a b) i ≡ (test_bit a i || test_bit b i)
test_bit-or a b zero = ground (arith, bit_or_step a b)
test_bit-or a b (suc i) = rw bit_or-half (test_bit-or (a / 2) (b / 2) i)

xor_tests : (x y : ℕ) → x < 2 → y < 2 → ((x + y) % 2 == 1) ≡ xor (x == 1) (y == 1)
xor_tests x y p q = ground arith

pub test_bit-xor : (a b i : ℕ) → test_bit (bit_xor a b) i ≡ xor (test_bit a i) (test_bit b i)
test_bit-xor a b zero = ground (arith, bit_xor_step a b, xor_tests (a % 2) (b % 2))
test_bit-xor a b (suc i) = rw bit_xor-half (test_bit-xor (a / 2) (b / 2) i)

-- `~a` in a word of `k` bits.
pub test_bit-not : (k a i : ℕ) → a < 2 ^ k → i < k → test_bit (2 ^ k - 1 - a) i ≡ not (test_bit a i)
test_bit-not zero a i h p = absurd (omega arith)
test_bit-not (suc k) a zero h p = ground (arith, pow_double k, pow_pos k)
test_bit-not (suc k) a (suc i) h p =
    let half : (2 ^ suc k - 1 - a) / 2 ≡ 2 ^ k - 1 - a / 2 =
      omega (arith, pow_double k, pow_pos k) in
    rw half (test_bit-not k (a / 2) i (omega (arith, pow_double k)) (omega arith))

pub test_bit-zero : (i : ℕ) → test_bit 0 i ≡ false
test_bit-zero zero = refl
test_bit-zero (suc i) = test_bit-zero i

pub test_bit-pow : (k i : ℕ) → test_bit (2 ^ k) i ≡ (k == i)
test_bit-pow zero zero = refl
test_bit-pow zero (suc i) = ground (arith, test_bit-zero i)
test_bit-pow (suc k) zero = ground (arith, pow_double k)
test_bit-pow (suc k) (suc i) =
    let half : 2 ^ suc k / 2 ≡ 2 ^ k = omega (arith, pow_double k) in
    rw half (ground (arith, test_bit-pow k i))

pub test_bit-beyond : (k a i : ℕ) → a < 2 ^ k → k ≤ i → test_bit a i ≡ false
test_bit-beyond zero a i h p = let z : a ≡ 0 = omega arith in rw z (test_bit-zero i)
test_bit-beyond (suc k) a zero h p = absurd (omega arith)
test_bit-beyond (suc k) a (suc i) h p =
    test_bit-beyond k (a / 2) i (omega (arith, pow_double k)) (omega arith)

-- Words with the same bits are equal.
pub word_ext : (k a b : ℕ) → a < 2 ^ k → b < 2 ^ k → ((i : ℕ) → test_bit a i ≡ test_bit b i) → a ≡ b
word_ext zero a b p q h = omega arith
word_ext (suc k) a b p q h =
    let half : a / 2 ≡ b / 2 =
      word_ext k (a / 2) (b / 2) (omega (arith, pow_double k)) (omega (arith, pow_double k))
        (λ i. h (suc i)) in
    ground (arith, h 0)

pub test_bit-shr : (a k i : ℕ) → test_bit (a / 2 ^ k) i ≡ test_bit a (k + i)
test_bit-shr a zero i = ground arith
test_bit-shr a (suc k) i =
    let e : suc k + i ≡ suc (k + i) = omega arith in rw (div_pow, e) (test_bit-shr (a / 2) k i)

pub test_bit-shl :
    (a k i : ℕ) → test_bit (a * 2 ^ k) i ≡ (if ltb i k then false else test_bit a (i - k))
test_bit-shl a zero i = ground arith
test_bit-shl a (suc k) zero = ground (arith, pow_double k, ap (λ (t : ℕ). a * t) (pow_double k))
test_bit-shl a (suc k) (suc i) =
    let half : a * 2 ^ suc k / 2 ≡ a * 2 ^ k =
      omega (arith, ap (λ (t : ℕ). a * t) (pow_double k)) in
    rw half (ground (arith, test_bit-shl a k i))

mod_double : (k a : ℕ) → (a % 2 ^ suc k / 2 ≡ a / 2 % 2 ^ k) × (a % 2 ^ suc k % 2 ≡ a % 2)
mod_double k a = omega (
  arith,
  mod-eq-sub-mul-div a (2 ^ suc k),
  mod-eq-sub-mul-div (a / 2) (2 ^ k),
  div_pow a k,
  pow_double k,
  ap (λ (t : ℕ). t * (a / 2 / 2 ^ k)) (pow_double k),
  ap (λ (t : ℕ). 2 ^ suc k * t) (div_pow a k),
)

pub test_bit-mod : (k a i : ℕ) → test_bit (a % 2 ^ k) i ≡ (ltb i k && test_bit a i)
test_bit-mod zero a i = ground (arith, test_bit-zero i)
test_bit-mod (suc k) a zero = ground (arith, mod_double k a)
test_bit-mod (suc k) a (suc i) = rw (mod_double k a).0 (ground (arith, test_bit-mod k (a / 2) i))

pub bit_and-lt : (k a b : ℕ) → a < 2 ^ k → bit_and a b < 2 ^ k
bit_and-lt zero a b p = let z : a ≡ 0 = omega arith in rw z (omega (arith, zero-bit_and b))
bit_and-lt (suc k) a b p = omega (
  arith,
  pow_double k,
  bit_and_step a b,
  bit_and-lt k (a / 2) (b / 2) (omega (arith, pow_double k)),
)

pub bit_or-lt : (k a b : ℕ) → a < 2 ^ k → b < 2 ^ k → bit_or a b < 2 ^ k
bit_or-lt zero a b p q =
    let z : a ≡ 0 = omega arith in let w : b ≡ 0 = omega arith in rw (z, w) (omega arith)
bit_or-lt (suc k) a b p q = omega (
  arith,
  pow_double k,
  bit_or_step a b,
  bit_or-lt k (a / 2) (b / 2) (omega (arith, pow_double k)) (omega (arith, pow_double k)),
)

pub bit_xor-lt : (k a b : ℕ) → a < 2 ^ k → b < 2 ^ k → bit_xor a b < 2 ^ k
bit_xor-lt zero a b p q =
    let z : a ≡ 0 = omega arith in let w : b ≡ 0 = omega arith in rw (z, w) (omega arith)
bit_xor-lt (suc k) a b p q = ground (
  arith,
  pow_double k,
  bit_xor_step a b,
  bit_xor-lt k (a / 2) (b / 2) (omega (arith, pow_double k)) (omega (arith, pow_double k)),
)

lt_pow : (n : ℕ) → n < 2 ^ n
lt_pow zero = omega arith
lt_pow (suc n) = omega (arith, lt_pow n, pow_double n)

pub same_bits : (a b : ℕ) → ((i : ℕ) → test_bit a i ≡ test_bit b i) → a ≡ b
same_bits a b h =
    word_ext (a + b) a b (omega (arith, lt_pow (a + b))) (omega (arith, lt_pow (a + b))) h

bit_and-zero : (a : ℕ) → bit_and a 0 ≡ 0
bit_and-zero a = same_bits _ 0 (λ i. ground (arith, test_bit-and a 0 i, test_bit-zero i))

pub bit_xor-zero : (a : ℕ) → bit_xor a 0 ≡ a
bit_xor-zero a = same_bits _ a (λ i. ground (arith, test_bit-xor a 0 i, test_bit-zero i))

pub bit_and-one : (a : ℕ) → bit_and a 1 ≡ a % 2
bit_and-one a = omega (arith, bit_and_step a 1, bit_and-zero (a / 2))

-- The C test `0 != ((x >> i) & 1)`.
pub test_bit-shr_and : (x i : ℕ) → not (bit_and (x / 2 ^ i) 1 == 0) ≡ test_bit x i
test_bit-shr_and x i =
    let e : i + 0 ≡ i = omega arith in
    ground (arith, bit_and-one (x / 2 ^ i), test_bit-shr x i 0, ap (test_bit x) e)

-- The C test `(x & ((uword) 1 << i)) != 0`, for a bit of the word.
bit_and-pow_zero : (x i : ℕ) → test_bit x i ≡ false → bit_and x (2 ^ i) ≡ 0
bit_and-pow_zero x zero h = ground (arith, bit_and-one x)
bit_and-pow_zero x (suc i) h =
    let half : 2 ^ suc i / 2 ≡ 2 ^ i = omega (arith, pow_double i) in
    ground (
      arith,
      pow_double i,
      bit_and_step x (2 ^ suc i),
      ap (bit_and (x / 2)) half,
      bit_and-pow_zero (x / 2) i,
    )

pub test_bit-mask : (x i : ℕ) → not (bit_and x (2 ^ i) == 0) ≡ test_bit x i
test_bit-mask x i = elim (Bool-cases (bit_and x (2 ^ i) == 0)) [
  | inl z ↦
      let e : bit_and x (2 ^ i) ≡ 0 = ground arith in
      ground (
        arith,
        ap (λ (t : ℕ). test_bit t i) e,
        test_bit-and x (2 ^ i) i,
        test_bit-pow i i,
        test_bit-zero i,
      )
  | inr nz ↦ ground (arith, bit_and-pow_zero x i)
]

pub pow_lt : (i k : ℕ) → i < k → 2 ^ i < 2 ^ k
pow_lt i zero h = elim h [ ]
pow_lt zero (suc k) h = omega (arith, pow_double k, pow_pos k)
pow_lt (suc i) (suc k) h = omega (arith, pow_double k, pow_double i, pow_lt i k (omega arith))

-- `(uword) 1 << i`, and `~((uword) 1 << i)` at a bit of the word.
pub shl_one : (i : ℕ) → i < 64 → 1 * 2 ^ i % 2 ^ 64 ≡ 2 ^ i
shl_one i h = omega (arith, pow_lt i 64 h)

pub test_bit-not_one :
    (i k : ℕ) → i < 64 → k < 64 → test_bit (2 ^ 64 - 1 - 1 * 2 ^ i % 2 ^ 64) k ≡ not (i == k)
test_bit-not_one i k p q =
    rw (shl_one i p) (ground (arith, test_bit-not 64 (2 ^ i) k (pow_lt i 64 p) q, test_bit-pow i k))

pub pow_add : (a b : ℕ) → 2 ^ (a + b) ≡ 2 ^ a * 2 ^ b
pow_add zero b = let e : 0 + b ≡ b = omega arith in rw e (omega arith)
pow_add (suc a) b =
    let e : suc a + b ≡ suc (a + b) = omega arith in
    rw e (
      omega (
        arith,
        pow_double (a + b),
        pow_double a,
        pow_add a b,
        ap (λ (t : ℕ). t * 2 ^ b) (pow_double a),
      ))

-- `x & (2 ^ k - 1)`.
pub bit_and_mask : (k x : ℕ) → bit_and x (2 ^ k - 1) ≡ x % 2 ^ k
bit_and_mask zero x = omega (arith, bit_and-zero x)
bit_and_mask (suc k) x =
    let half : (2 ^ suc k - 1) / 2 ≡ 2 ^ k - 1 = omega (arith, pow_double k, pow_pos k) in
    omega (
      arith,
      bit_and_step x (2 ^ suc k - 1),
      ap (bit_and (x / 2)) half,
      bit_and_mask k (x / 2),
      mod_double k x,
      pow_double k,
      pow_pos k,
    )

pub bit_or-zero : (a : ℕ) → bit_or a 0 ≡ a
bit_or-zero a = same_bits _ a (λ i. ground (arith, test_bit-or a 0 i, test_bit-zero i))

pub bit_or_odd : (a : ℕ) → bit_or (a * 2) 1 ≡ a * 2 + 1
bit_or_odd a =
    let half : a * 2 / 2 ≡ a = omega arith in
    omega (arith, bit_or_step (a * 2) 1, ap (λ (t : ℕ). bit_or t 0) half, bit_or-zero a)

-- The digits of two numbers side by side.
pub bit_or_beside : (k x d : ℕ) → d < 2 ^ k → bit_or (x * 2 ^ k) d ≡ x * 2 ^ k + d
bit_or_beside zero x d h =
    let e : d ≡ 0 = omega arith in
    let one : x * 1 ≡ x = omega arith in rw (e, one, bit_or-zero) (omega arith)
bit_or_beside (suc k) x d h =
    let e : x * 2 ^ suc k ≡ 2 * (x * 2 ^ k) = ap (λ (t : ℕ). x * t) (pow_double k) ∙ grind arith in
    let half : 2 * (x * 2 ^ k) / 2 ≡ x * 2 ^ k = omega arith in
    let even : 2 * (x * 2 ^ k) % 2 ≡ 0 = omega arith in
    let rest = bit_or_beside k x (d / 2) (omega (arith, pow_double k)) in
    rw e (bit_or_step (2 * (x * 2 ^ k)) d ∙ rw (half, even, rest) (omega arith))
