-- ===== src/Bitmap.antt =====
-- Bitmaps: uclib/bitmap.h. A bitmap is a vector of words, the bit `i` of the map being the bit
-- `i % 64` of the word `i / 64`; what lies beyond the vector is 0. A NULL vector and an empty one
-- are the same list here.
pub mod Trim
pub mod Bits
pub mod Alu
pub mod Whole
pub mod Search
pub mod Field
pub mod Foreach
mod Tests
use uclib.Base.{
  ℕ, zero, suc, ◌+◌, ◌-◌, ◌*◌, ◌/◌, ◌%◌, ◌^◌, bit_and, bit_or, bit_xor, Bool, true, false, not,
  ◌&&◌, ◌||◌, List, [], ◌∷◌, ◌++◌, ltb, leb, ◌==◌, if◌then◌else◌, length, get_or, set, take,
  replicate, Option, some, none,
}
use uclib.Word.{uword_bits, uword_max, shl, shr, bit_not, sub, from_bool, pow2_mask}

abbrev pub Bitmap : Type 0
Bitmap = List ℕ

-- The read ai[i]; the code reads only below the length.
abbrev pub word_at : Bitmap → ℕ → ℕ
word_at ai i = get_or ai i 0

-- vec_validate: make index `i` valid, new words zero.
unfoldable pub vec_validate : Bitmap → ℕ → Bitmap
vec_validate ai i = ai ++ replicate (i + 1 - length ai) 0

unfoldable pub is_zero : Bitmap → Bool
is_zero [] = true
is_zero (x ∷ ai) = if not (x == 0) then false else is_zero ai

equal_words : Bitmap → Bitmap → Bool
equal_words [] b = true
equal_words (x ∷ a) [] = true
equal_words (x ∷ a) (y ∷ b) = if not (x == y) then false else equal_words a b

unfoldable pub is_equal : Bitmap → Bitmap → Bool
unfolding equal_words
is_equal a b = if not (length a == length b) then false else equal_words a b

-- The loop of _clib_bitmap_remove_trailing_zeros, at the index `n - 1`: the length that is left.
trimmed_len : Bitmap → ℕ → ℕ
trimmed_len a zero = 0
trimmed_len a (suc i) = if not (word_at a i == 0) then suc i else trimmed_len a i

unfoldable pub remove_trailing_zeros : Bitmap → Bitmap
unfolding trimmed_len
remove_trailing_zeros a = take (trimmed_len a (length a)) a

-- The word with bit `i1` cleared and then set to the truth value of `v`.
put_bit : ℕ → ℕ → ℕ → ℕ
put_bit a i1 v = bit_or (bit_and a (bit_not (shl 1 i1))) (shl (from_bool (not (v == 0))) i1)

pub set_no_check : Bitmap → ℕ → ℕ → Bitmap × ℕ
unfolding put_bit
set_no_check a i new_value =
    let i0 = i / uword_bits in
    let i1 = i % uword_bits in
    let old_value = from_bool (not (bit_and (word_at a i0) (shl 1 i1) == 0)) in
    (set a i0 (put_bit (word_at a i0) i1 new_value), old_value)

set_word : Bitmap → ℕ → ℕ → Bitmap
set_word ai i0 a = let r = set ai i0 a in if a == 0 then remove_trailing_zeros r else r

unfoldable pub set_bit : Bitmap → ℕ → ℕ → Bitmap
unfolding put_bit set_word
set_bit ai i value =
    let i0 = i / uword_bits in
    let i1 = i % uword_bits in
    if value == 0 && leb (length ai) i0
    then ai
    else let v = vec_validate ai i0 in set_word v i0 (put_bit (word_at v i0) i1 value)

unfoldable pub get : Bitmap → ℕ → Bool
get ai i =
    let i0 = i / uword_bits in
    let i1 = i % uword_bits in ltb i0 (length ai) && not (bit_and (shr (word_at ai i0) i1) 1 == 0)

pub get_no_check : Bitmap → ℕ → Bool
get_no_check ai i = not (bit_and (shr (word_at ai (i / uword_bits)) (i % uword_bits)) 1 == 0)

pub get_multiple_no_check : Bitmap → ℕ → ℕ → Bool
get_multiple_no_check ai i n_bits =
    not (bit_and (shr (word_at ai (i / uword_bits)) (i % uword_bits)) (pow2_mask n_bits) == 0)

-- ((uword) 1 << n) - 1
abbrev low_ones : ℕ → ℕ
low_ones n = sub (shl 1 n) 1

unfoldable pub get_multiple : Bitmap → ℕ → ℕ → ℕ
get_multiple bitmap i n_bits =
    let i0 = i / uword_bits in
    let i1 = i % uword_bits in
    let l = length bitmap in
    let first = shr (word_at bitmap i0) i1 in
    let masked = if ltb n_bits uword_bits then bit_and first (low_ones n_bits) else first in
    let result = if ltb i0 l then masked else 0 in
    if ltb uword_bits (i1 + n_bits) && ltb (i0 + 1) l
    then (let left = n_bits - (uword_bits - i1) in
        bit_or result (shl (bit_and (word_at bitmap (i0 + 1)) (low_ones left)) (uword_bits - i1)))
    else result

-- `~0`, or the `n` lowest bits where `n` is below the width.
abbrev value_mask : ℕ → ℕ
value_mask n = if ltb n uword_bits then low_ones n else uword_max

-- t &= ~(m << i1); t |= value << i1;
put_field : ℕ → ℕ → ℕ → ℕ → ℕ
put_field t m i1 value = bit_or (bit_and t (bit_not (shl m i1))) (shl value i1)

unfoldable pub set_multiple : Bitmap → ℕ → ℕ → ℕ → Bitmap
unfolding put_field
set_multiple bitmap i value n_bits =
    let i0 = i / uword_bits in
    let i1 = i % uword_bits in
    let v = vec_validate bitmap ((i + n_bits) / uword_bits) in
    let l = length v in
    let m = value_mask n_bits in
    let masked = bit_and value m in
    let b = set v i0 (put_field (word_at v i0) m i1 masked) in
    if ltb uword_bits (i1 + n_bits) && ltb (i0 + 1) l
    then (let t = uword_bits - i1 in
        set b (i0 + 1)
          (bit_or (bit_and (word_at b (i0 + 1)) (bit_not (low_ones (n_bits - t)))) (shr masked t)))
    else b

-- The bodies of the ALU macros.
abbrev pub andnot_word : ℕ → ℕ → ℕ
andnot_word a b = bit_and a (bit_not b)

-- The loop of the two-map macro from word `i` on, over what is left of `ai`: the new words, and
-- the number of zero words at their end.
alu_loop : (ℕ → ℕ → ℕ) → Bool → Bitmap → ℕ → Bitmap → ℕ → Bitmap × ℕ
alu_loop body check_zero bi i [] n_trailing_zeros = ([], n_trailing_zeros)
alu_loop body check_zero bi i (a0 ∷ ai) n_trailing_zeros =
    let a = body a0 (if ltb i (length bi) then word_at bi i else 0) in
    let n =
      if check_zero then (if not (a == 0) then 0 else n_trailing_zeros + 1) else n_trailing_zeros in
    let rest = alu_loop body check_zero bi (i + 1) ai n in (a ∷ rest.0, rest.1)

-- The words of the result.
pub alu_words : (ℕ → ℕ → ℕ) → Bool → Bitmap → Bitmap → Bitmap
unfolding alu_loop
alu_words body check_zero ai bi =
    let bi_len = length bi in
    let v = if ltb 0 bi_len then vec_validate ai (bi_len - 1) else ai in
    let r = alu_loop body check_zero bi 0 v 0 in
    if check_zero then take (length r.0 - r.1) r.0 else r.0

-- The two-map macro. Two maps without words are NULL: where `check_zero` holds, the header of a null
-- pointer is written, `none`.
pub alu : (ℕ → ℕ → ℕ) → Bool → Bitmap → Bitmap → Option Bitmap
unfolding alu_words
alu body check_zero ai bi =
    if check_zero && (length ai + length bi) == 0
    then none
    else some (alu_words body check_zero ai bi)

unfoldable pub and_map : Bitmap → Bitmap → Option Bitmap
unfolding alu
and_map = alu bit_and true

unfoldable pub andnot_map : Bitmap → Bitmap → Option Bitmap
unfolding alu
andnot_map = alu andnot_word true

unfoldable pub or_map : Bitmap → Bitmap → Option Bitmap
unfolding alu
or_map = alu bit_or false

unfoldable pub xor_map : Bitmap → Bitmap → Option Bitmap
unfolding alu
xor_map = alu bit_xor true

-- The macro for one map and an immediate bit.
pub alu_immediate : (ℕ → ℕ → ℕ) → Bool → Bitmap → ℕ → Bitmap
alu_immediate body check_zero ai i =
    let i0 = i / uword_bits in
    let i1 = i % uword_bits in
    let v = vec_validate ai i0 in
    let a = body (word_at v i0) (shl 1 i1) in
    let r = set v i0 a in if check_zero && a == 0 then remove_trailing_zeros r else r

unfoldable pub andi : Bitmap → ℕ → Bitmap
unfolding alu_immediate
andi = alu_immediate bit_and true

unfoldable pub andnoti : Bitmap → ℕ → Bitmap
unfolding alu_immediate
andnoti = alu_immediate andnot_word true

unfoldable pub ori : Bitmap → ℕ → Bitmap
unfolding alu_immediate
ori = alu_immediate bit_or false

unfoldable pub xori : Bitmap → ℕ → Bitmap
unfolding alu_immediate
xori = alu_immediate bit_xor true
