-- ===== src/Base64/Tests.antt =====
-- Base 64 at concrete texts.
use uclib.Base.{ℕ, ◌≡◌, refl, List, [], ◌∷◌, arith, replicate, some}
use uclib.Base64.{
  equals, find, decode_byte, encode_digit, encode_triple, encode_loop, n_pad_bytes, pad_text,
  format_base64_data, decode_loop, pad_loop, triple_bytes, decoded, refused, assertion_failed,
  finish, unformat_base64_data,
}
use uclib.Base64.RoundTrip.{unformat-format}

abbrev hello : List ℕ
hello = 0x68 ∷ 0x65 ∷ 0x6C ∷ 0x6C ∷ 0x6F ∷ []

abbrev hello_text : List ℕ
hello_text = 0x61 ∷ 0x47 ∷ 0x56 ∷ 0x73 ∷ 0x62 ∷ 0x47 ∷ 0x38 ∷ 0x3D ∷ []

format-hello : format_base64_data hello ≡ some hello_text
unfolding format_base64_data pad_text encode_loop n_pad_bytes encode_triple encode_digit
format-hello = refl

-- Nothing but pad characters fails the assertion, and a triple without them is refused.
unformat-equals : unformat_base64_data (replicate 4 equals) ≡ assertion_failed
unfolding unformat_base64_data decode_loop decode_byte find pad_loop finish triple_bytes
unformat-equals = refl

unformat-short : unformat_base64_data (0x61 ∷ 0x47 ∷ []) ≡ refused
unfolding unformat_base64_data decode_loop decode_byte find pad_loop finish triple_bytes
unformat-short = refl

unformat-format_example :
    (text : List ℕ) × (format_base64_data hello ≡ some text)
    × (unformat_base64_data text ≡ decoded hello [])
unformat-format_example =
    unformat-format hello (refl, (refl, (refl, (refl, (refl, tt))))) (omega arith)
