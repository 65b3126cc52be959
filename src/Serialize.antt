-- ===== src/Serialize.antt =====
-- Serialization: uclib/serialize.h and uclib/serialize.c. A writer is the list of bytes that it adds
-- to the stream, and a reader goes from the bytes that are left of a buffer, as
-- `unserialize_open_data` opens it, to what it has read and the bytes behind that. Network order is
-- that of ByteOrder, and the machine is little-endian.
pub mod Integers
pub mod Vectors
mod Tests
use uclib.Base.{
  ℕ, zero, suc, ◌+◌, ◌-◌, ◌*◌, ◌/◌, ◌%◌, ◌^◌, ◌≤◌, ◌<◌, min, Bool, true, false, List, [], ◌∷◌, ◌++◌,
  Option, some, none, ltb, leb, ◌==◌, if◌then◌else◌, length, get_or, take, drop,
}
use uclib.ByteOrder.{big_bytes, big_number}

-- What a reader returns; `none` is the error `unserialize past end of stream`, or another.
abbrev pub Reader {ℓ} : Type ℓ → Type ℓ
Reader A = List ℕ → Option (A × List ℕ)

abbrev pub then_read {ℓ κ} :
    {A : Type ℓ} {B : Type κ} → Option (A × List ℕ) → (A → Reader B) → Option (B × List ℕ)
then_read none f = none
then_read (some p) f = f p.0 p.1

infixl 5 ◌>>=◌
abbrev pub ◌>>=◌ {ℓ κ} : {A : Type ℓ} {B : Type κ} → Reader A → (A → Reader B) → Reader B
(r >>= f) s = then_read (r s) f

abbrev pub pure {ℓ} : {A : Type ℓ} → A → Reader A
pure a s = some (a, s)

unfoldable pub unserialize_get : ℕ → Reader (List ℕ)
unserialize_get n s = if leb n (length s) then some (take n s, drop n s) else none

-- Bytes of the least significant first, and their number.
unfoldable pub little_bytes : ℕ → ℕ → List ℕ
little_bytes zero x = []
little_bytes (suc w) x = x % 256 ∷ little_bytes w (x / 256)

unfoldable pub little_number : List ℕ → ℕ
little_number [] = 0
little_number (x ∷ xs) = x + 256 * little_number xs

-- For 1, 2, 4 and 8 bytes.
unfoldable pub serialize_integer : ℕ → ℕ → List ℕ
serialize_integer x n_bytes = big_bytes n_bytes x

unfoldable pub unserialize_integer : ℕ → Reader ℕ
unserialize_integer n_bytes = do p ← unserialize_get n_bytes; pure (big_number 0 p)

-- serialize_64: the low word first.
unfoldable pub serialize_64 : ℕ → List ℕ
serialize_64 x = serialize_integer (x % 2 ^ 32) 4 ++ serialize_integer (x / 2 ^ 32) 4

unfoldable pub unserialize_64 : Reader ℕ
unserialize_64 = do lo ← unserialize_integer 4; hi ← unserialize_integer 4; pure (hi * 2 ^ 32 + lo)

-- In 1, 2, 4 or 9 bytes.
unfoldable pub serialize_likely_small_unsigned_integer : ℕ → List ℕ
serialize_likely_small_unsigned_integer x =
    if ltb x (2 ^ 7)
    then (1 + 2 * x) ∷ []
    else if ltb (x - 2 ^ 7) (2 ^ 14)
    then little_bytes 2 (4 * (x - 2 ^ 7) + 2)
    else if ltb (x - 2 ^ 7 - 2 ^ 14) (2 ^ 29)
    then little_bytes 4 (8 * (x - 2 ^ 7 - 2 ^ 14) + 4)
    else 0 ∷ little_bytes 8 x

-- What follows the first byte `y`, by its low bits.
unfoldable pub likely_small_rest : ℕ → Reader ℕ
likely_small_rest y =
    if y % 2 == 1
    then pure (y / 2)
    else if y / 2 % 2 == 1
    then (unserialize_get 1 >>= λ q. pure (2 ^ 7 + (y / 4 + get_or q 0 0 * 2 ^ 6)))
    else if y / 4 % 2 == 1
    then (unserialize_get 3 >>= λ q. pure (
        2 ^ 7
        + 2 ^ 14
        + (y / 8 + get_or q 0 0 * 2 ^ 5 + get_or q 1 0 * 2 ^ 13 + get_or q 2 0 * 2 ^ 21)))
    else (unserialize_get 8 >>= λ q. pure (little_number q))

unfoldable pub unserialize_likely_small_unsigned_integer : Reader ℕ
unserialize_likely_small_unsigned_integer = do
  p ← unserialize_get 1
  likely_small_rest (get_or p 0 0)

-- A string is the list of its bytes before the NUL, and NULL the empty one.
unfoldable pub serialize_cstring : List ℕ → List ℕ
serialize_cstring s =
    let len = length s % 2 ^ 32 in serialize_likely_small_unsigned_integer len ++ take len s

unfoldable pub unserialize_cstring : Reader (List ℕ)
unserialize_cstring = do
  n ← unserialize_likely_small_unsigned_integer
  let len = n % 2 ^ 32
  if ltb 0 len then unserialize_get len else pure []

-- Chunks of 64 elements; the fuel is the number of elements.
module _ {ℓ} {A : Type ℓ} where
  unfoldable pub serialize_chunks : (List A → List ℕ) → ℕ → List A → List ℕ
  serialize_chunks f zero p = []
  serialize_chunks f (suc fuel) p =
      let rest = serialize_chunks f fuel (drop 64 p) in
      if length p == 0 then [] else f (take (min 64 (length p)) p) ++ rest

  unfoldable pub serialize_vector : (List A → List ℕ) → List A → List ℕ
  serialize_vector f vec = serialize_integer (length vec) 4 ++ serialize_chunks f (length vec) vec

  unfoldable pub unserialize_chunks : (ℕ → Reader (List A)) → ℕ → ℕ → Reader (List A)
  unserialize_chunks f zero l = pure []
  unserialize_chunks f (suc fuel) l =
      let rest = unserialize_chunks f fuel (l - min 64 l) in
      if l == 0 then pure [] else (do p ← f (min 64 l); ps ← rest; pure (p ++ ps))

  -- unserialize_vector_ha
  unfoldable pub unserialize_vector : (ℕ → Reader (List A)) → ℕ → Reader (List A)
  unserialize_vector f max_length = do
    l ← unserialize_integer 4
    if ltb max_length l then (λ s. none) else unserialize_chunks f l l

-- The elements of one byte.
unfoldable pub serialize_vec_8 : List ℕ → List ℕ
serialize_vec_8 s = s

unfoldable pub unserialize_vec_8 : ℕ → Reader (List ℕ)
unserialize_vec_8 n = unserialize_get n
