-- ===== src/Zvec.antt =====
-- Compressed vectors: uclib/zvec.h and uclib/zvec.c. A coding is the sum of the sizes of its code
-- classes, each a power of two; a value goes into the first class that has room for it.
mod Code
pub mod RoundTrip
pub mod Signed
mod Longest
pub mod Streams
mod Tests
use uclib.Base.{
  ℕ, zero, suc, ◌+◌, ◌-◌, ◌*◌, ◌/◌, ◌%◌, ◌^◌, bit_and, bit_or, bit_xor, Bool, true, false, not,
  ◌&&◌, ◌||◌, Option, none, some, List, [], ◌∷◌, ltb, leb, ◌==◌, if◌then◌else◌,
}
use uclib.Word.{
  uword_bits, uword_mod, uword_max, shl, shr, bit_not, neg, add, sub, from_bool, first_set,
  min_log2,
}
use uclib.Bitmap.{Bitmap, andnot_word, get_multiple, set_multiple}

-- A signed word is its bit pattern: negative from 2 ^ 63 on.
pub zvec_signed_to_unsigned : ℕ → ℕ
zvec_signed_to_unsigned s =
    let a = from_bool (leb (2 ^ 63) s) in
    let s' = add (s * 2 % uword_mod) a in if not (a == 0) then neg s' else s'

pub zvec_unsigned_to_signed : ℕ → ℕ
zvec_unsigned_to_signed u =
    let a = bit_and u 1 in let u' = shr u 1 in if not (a == 0) then neg u' else u'

-- The loop of zvec_decode: the result, the bits used, and the coding at the exit; `none` when the
-- fuel runs out.
pub decode_loop : ℕ → ℕ → ℕ → ℕ → ℕ → Option (ℕ × ℕ × ℕ)
decode_loop zero coding zdata n_bits result = none
decode_loop (suc fuel) coding zdata n_bits result =
    let c = first_set coding in
    let implicit_end = from_bool (c == coding) in
    let explicit_end = andnot_word (bit_and zdata 1) implicit_end in
    let d = bit_and (shr zdata explicit_end) (sub c 1) in
    let rest = decode_loop fuel (bit_xor coding c) (shr zdata 1) (add n_bits 1) (add result c) in
    if not (bit_or explicit_end implicit_end == 0)
    then some (add result d, add n_bits (add (min_log2 c) explicit_end), coding)
    else rest

-- The decoded value, and the number of bits it took.
zvec_decode_result : Option (ℕ × ℕ × ℕ) → Option (ℕ × ℕ)
zvec_decode_result none = none
zvec_decode_result (some (result, n_bits, coding)) =
    some (result, if coding == 0 then uword_bits else n_bits)

-- A coding has at most 64 classes, and one more round ends the loop.
abbrev rounds : ℕ
rounds = 65

pub zvec_decode : ℕ → ℕ → Option (ℕ × ℕ)
unfolding decode_loop zvec_decode_result
zvec_decode coding zdata = zvec_decode_result (decode_loop rounds coding zdata 0 0)

pub encode_loop : ℕ → ℕ → ℕ → ℕ → Option (ℕ × ℕ)
encode_loop zero coding dat shift = none
encode_loop (suc fuel) coding dat shift =
    let c = first_set coding in
    let implicit_end = from_bool (c == coding) in
    let explicit_end = from_bool (bit_and dat (sub c 1) == dat) in
    let t = andnot_word explicit_end implicit_end in
    let rest = encode_loop fuel (bit_xor coding c) (sub dat c) (shift + 1) in
    if not (bit_or explicit_end implicit_end == 0)
    then some (
      shl (bit_or (shl dat t) t) shift,
      add (add (if c == 0 then uword_bits else min_log2 c) shift) t,
    )
    else rest

pub zvec_encode : ℕ → ℕ → Option (ℕ × ℕ)
unfolding encode_loop
zvec_encode coding dat = encode_loop rounds coding dat 0

infixl 5 ◌>>=◌
abbrev pub ◌>>=◌ {ℓ κ} : {A : Type ℓ} {B : Type κ} → Option A → (A → Option B) → Option B
none >>= f = none
some a >>= f = f a

-- The sizes of data that get_data and put_data know; for any other size they panic.
abbrev pub known_size : ℕ → Bool
known_size data_bytes = data_bytes == 1 || data_bytes == 2 || data_bytes == 4 || data_bytes == 8

-- A signed datum of `w` bits as a word.
abbrev pub sign_extend : ℕ → ℕ → ℕ
sign_extend w x = if leb (2 ^ (w - 1)) x then x + (uword_mod - 2 ^ w) else x

pub get_data : ℕ → ℕ → Bool → Option ℕ
unfolding zvec_signed_to_unsigned
get_data x data_bytes is_signed =
    if known_size data_bytes
    then some (if is_signed then zvec_signed_to_unsigned (sign_extend (8 * data_bytes) x) else x)
    else none

pub put_data : ℕ → Bool → ℕ → Option ℕ
unfolding zvec_unsigned_to_signed
put_data data_bytes is_signed x =
    if known_size data_bytes
    then some ((if is_signed then zvec_unsigned_to_signed x else x) % 2 ^ (8 * data_bytes))
    else none

-- `elts` lists the data that stand at each stride.
pub zvec_encode_inline : Bitmap → ℕ → ℕ → List ℕ → ℕ → Bool → Option (Bitmap × ℕ)
zvec_encode_inline zvec i coding [] data_bytes is_signed = some (zvec, i)
zvec_encode_inline zvec i coding (x ∷ elts) data_bytes is_signed = do
  d0 ← get_data x data_bytes is_signed
  (z0, l0) ← zvec_encode coding d0
  zvec_encode_inline (set_multiple zvec i z0 l0) (i + l0) coding elts data_bytes is_signed

pub coding_max_n_bits : ℕ → Option ℕ
coding_max_n_bits coding = do (d, n_bits) ← zvec_decode coding 0; some n_bits

pub decode_from : Bitmap → ℕ → ℕ → ℕ → ℕ → Bool → ℕ → Option (List ℕ × ℕ)
decode_from zvec coding n_max zero data_bytes is_signed i = some ([], i)
decode_from zvec coding n_max (suc n_data) data_bytes is_signed i = do
  (d0, l0) ← zvec_decode coding (get_multiple zvec i n_max)
  x ← put_data data_bytes is_signed d0
  (elts, i') ← decode_from zvec coding n_max n_data data_bytes is_signed (i + l0)
  some (x ∷ elts, i')

pub zvec_decode_inline : Bitmap → ℕ → ℕ → ℕ → ℕ → Bool → Option (List ℕ × ℕ)
zvec_decode_inline zvec i coding n_data data_bytes is_signed = do
  n_max ← coding_max_n_bits coding
  decode_from zvec coding n_max n_data data_bytes is_signed i
