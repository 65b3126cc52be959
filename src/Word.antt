-- ===== src/Word.antt =====
-- `uword` arithmetic: uclib/uclib.h and uclib/bitops.h on a machine where `uword` has 64 bits.
-- A word is a native number below 2 ^ 64, and each operation writes its wrap-around out.
mod Digits
pub mod Bits
pub mod FirstSet
pub mod MaxPow2
mod Tests
use uclib.Base.{ℕ, zero, suc, ◌+◌, ◌-◌, ◌*◌, ◌/◌, ◌%◌, ◌^◌, bit_and, Bool, ltb, ◌==◌, if◌then◌else◌}

-- BITS (uword)
abbrev pub uword_bits : ℕ
uword_bits = 64

abbrev pub uword_mod : ℕ
uword_mod = 2 ^ 64

-- ~0
abbrev pub uword_max : ℕ
uword_max = uword_mod - 1

-- x << k and x >> k, for k below 64.
abbrev pub shl : ℕ → ℕ → ℕ
shl x k = x * 2 ^ k % uword_mod

abbrev pub shr : ℕ → ℕ → ℕ
shr x k = x / 2 ^ k

abbrev pub bit_not : ℕ → ℕ
bit_not x = uword_max - x

abbrev pub neg : ℕ → ℕ
neg x = (uword_mod - x) % uword_mod

abbrev pub sub : ℕ → ℕ → ℕ
sub x y = (x + uword_mod - y) % uword_mod

abbrev pub add : ℕ → ℕ → ℕ
add x y = (x + y) % uword_mod

-- The truth value of a C condition as a number.
abbrev pub from_bool : Bool → ℕ
from_bool b = if b then 1 else 0

unfoldable pub pow2_mask : ℕ → ℕ
pow2_mask x = sub (shl 1 x) 1

unfoldable pub first_set : ℕ → ℕ
first_set x = bit_and x (neg x)

-- `__builtin_ctzl` and `63 - __builtin_clzl` of a word that is not 0; the fuel is the width.
pub trailing_zeros : ℕ → ℕ → ℕ
trailing_zeros zero x = 0
trailing_zeros (suc f) x = if x % 2 == 1 then 0 else suc (trailing_zeros f (x / 2))

unfoldable pub leading_one : ℕ → ℕ → ℕ
leading_one zero x = 0
leading_one (suc f) x = if ltb x 2 then 0 else suc (leading_one f (x / 2))

unfoldable pub log2_first_set : ℕ → ℕ
unfolding trailing_zeros
log2_first_set x = trailing_zeros 64 x

unfoldable pub min_log2 : ℕ → ℕ
unfolding leading_one
min_log2 x = leading_one 64 x

unfoldable pub max_pow2 : ℕ → ℕ
max_pow2 x = let y = shl 1 (min_log2 x) in if ltb y x then y * 2 % uword_mod else y
