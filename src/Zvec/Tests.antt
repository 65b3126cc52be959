-- ===== src/Zvec/Tests.antt =====
-- Runs of the coder on small data, and the theorems at such data.
use uclib.Base.{
  ℕ, zero, suc, false, [], ◌∷◌, ◌+◌, ◌-◌, ◌*◌, ◌%◌, ◌^◌, ◌≤◌, ◌<◌, ◌≡◌, refl, some, arith, leb,
  if◌then◌else◌,
}
use uclib.Word.{uword_mod, first_set, min_log2}
use uclib.Bitmap.{Bitmap, get, set_multiple, get_multiple, vec_validate}
use uclib.Bitmap.Alu.{IsWords}
use uclib.Zvec.Longest.{coding_max_n_bits_lem}
use uclib.Zvec.Streams.{zvec_decode_inline-encode_inline}
use uclib.Zvec.{
  zvec_encode_inline, zvec_decode_inline, decode_from, coding_max_n_bits, get_data, put_data,
  zvec_encode, zvec_decode, zvec_signed_to_unsigned, zvec_unsigned_to_signed,
}
use uclib.Zvec.RoundTrip.{decode-encode}
use uclib.Zvec.Signed.{unsigned_to_signed-signed_to_unsigned}

-- The coding 2 + 4 + 8: one, two and three bits of data in its classes.
three_classes :
    (zvec_encode 14 1 ≡ some (3, 2))
    × (zvec_encode 14 3 ≡ some (6, 4))
    × (zvec_encode 14 13 ≡ some (28, 5))
    × (zvec_decode 14 28 ≡ some (13, 5))
unfolding zvec_encode zvec_decode first_set min_log2
three_classes = (refl, refl, refl, refl)

-- The coding 0 is a single class of 64 bits.
whole_word : (zvec_encode 0 77 ≡ some (77, 64)) × (zvec_decode 0 77 ≡ some (77, 64))
unfolding zvec_encode zvec_decode first_set min_log2
whole_word = (refl, refl)

-- -1 is sent to 1, and 1 back to 0.
minus_one : (zvec_signed_to_unsigned (2 ^ 64 - 1) ≡ 1) × (zvec_unsigned_to_signed 1 ≡ 0)
unfolding zvec_signed_to_unsigned zvec_unsigned_to_signed
minus_one = (refl, refl)

decode-encode_example :
    (z : ℕ) × (n : ℕ) × (zvec_encode 14 13 ≡ some (z, n))
    × (z < 2 ^ n)
    × (n ≤ 63)
    × ((e : ℕ) → zvec_decode 14 (z + e * 2 ^ n) ≡ some (13, n))
decode-encode_example = decode-encode 14 13 (omega arith) (omega arith)

unsigned_to_signed-signed_to_unsigned_example :
    zvec_unsigned_to_signed (zvec_signed_to_unsigned (2 ^ 64 - 5))
    ≡ (if leb (2 ^ 63) (2 ^ 64 - 5) then (2 ^ 64 - 5 + 1) % uword_mod else 2 ^ 64 - 5)
unsigned_to_signed-signed_to_unsigned_example =
    unsigned_to_signed-signed_to_unsigned (2 ^ 64 - 5) (omega arith)

-- Four bytes after three bits of another map.
stream_of_bytes :
    (zvec_encode_inline (5 ∷ []) 3 14 (1 ∷ 3 ∷ 13 ∷ 0 ∷ []) 1 false ≡ some (30941 ∷ [], 16))
    × (zvec_decode_inline (30941 ∷ []) 3 14 4 1 false ≡ some (1 ∷ 3 ∷ 13 ∷ 0 ∷ [], 16))
unfolding zvec_encode_inline zvec_decode_inline decode_from coding_max_n_bits get_data put_data
    zvec_encode zvec_decode first_set min_log2 set_multiple get_multiple vec_validate
stream_of_bytes = (refl, refl)

five-IsWords : IsWords (5 ∷ [])
five-IsWords zero = omega arith
five-IsWords (suc j) = omega arith

zvec_decode_inline-encode_inline_example :
    (b' : Bitmap) × (i' : ℕ) × (zvec_encode_inline (5 ∷ []) 3 14 (1 ∷ 3 ∷ 13 ∷ []) 1 false
      ≡ some (b', i'))
    × ((j : ℕ) → j < 3 → get b' j ≡ get (5 ∷ []) j)
    × (zvec_decode_inline b' 3 14 3 1 false ≡ some (1 ∷ 3 ∷ 13 ∷ [], i'))
zvec_decode_inline-encode_inline_example =
    zvec_decode_inline-encode_inline (5 ∷ []) 3 14 1 (1 ∷ 3 ∷ 13 ∷ []) (λ e. absurd (omega arith))
      (omega arith) refl (refl, (refl, (refl, tt))) five-IsWords

coding_max_n_bits_lem_example :
    (m : ℕ) × (coding_max_n_bits 14 ≡ some m)
    × (m ≤ 63)
    × ((dat z n : ℕ) → dat < 14 → zvec_encode 14 dat ≡ some (z, n) → n ≤ m)
coding_max_n_bits_lem_example = coding_max_n_bits_lem 14 (λ e. absurd (omega arith)) (omega arith)
