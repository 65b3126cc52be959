-- ===== src/Serialize/Tests.antt =====
-- Serialized integers, strings and vectors at concrete values.
use uclib.Base.{◌^◌, ◌≡◌, refl, [], ◌∷◌, ◌++◌, some, arith, length, range}
use uclib.ByteOrder.{big_bytes, big_number}
use uclib.Serialize.{
  little_bytes, unserialize_get, serialize_integer, unserialize_integer,
  serialize_likely_small_unsigned_integer, unserialize_likely_small_unsigned_integer,
  serialize_chunks, unserialize_chunks, serialize_vector, unserialize_vector, serialize_vec_8,
  unserialize_vec_8,
}
use uclib.Serialize.Integers.{get-append, likely_small-serialize}
use uclib.Serialize.Vectors.{unserialize_vector-serialize}

-- One, two, four and nine bytes.
sizes :
    (serialize_likely_small_unsigned_integer 5 ≡ 11 ∷ [])
    × (serialize_likely_small_unsigned_integer 128 ≡ 2 ∷ 0 ∷ [])
    × (serialize_likely_small_unsigned_integer (2 ^ 20) ≡ 4 ∷ 252 ∷ 125 ∷ 0 ∷ [])
    × (length (serialize_likely_small_unsigned_integer (2 ^ 40)) ≡ 9)
unfolding serialize_likely_small_unsigned_integer little_bytes
sizes = (refl, refl, refl, refl)

likely_small-serialize_example :
    unserialize_likely_small_unsigned_integer
      (serialize_likely_small_unsigned_integer 70000 ++ 1 ∷ [])
    ≡ some (70000, 1 ∷ [])
likely_small-serialize_example = likely_small-serialize 70000 (1 ∷ []) (omega arith)

-- Two chunks of bytes.
unserialize_vector-serialize_example :
    unserialize_vector unserialize_vec_8 1000
      (serialize_vector serialize_vec_8 (range 0 100) ++ 7 ∷ [])
    ≡ some (range 0 100, 7 ∷ [])
unfolding serialize_vec_8 unserialize_vec_8
unserialize_vector-serialize_example =
    unserialize_vector-serialize serialize_vec_8 unserialize_vec_8
      (λ xs rest h. get-append (length xs) xs rest refl) (range 0 100) 1000 (7 ∷ []) (omega arith)

written_and_read :
    unserialize_vector unserialize_vec_8 1000 (serialize_vector serialize_vec_8 (range 0 70))
    ≡ some (range 0 70, [])
unfolding serialize_vec_8 unserialize_vec_8 serialize_vector unserialize_vector serialize_chunks
    unserialize_chunks serialize_integer unserialize_integer unserialize_get big_bytes big_number
written_and_read = refl
