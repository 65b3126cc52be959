-- ===== src/Base64.antt =====
-- Base 64: uclib/base64.c. Text and data are lists of bytes, and the input of the decoder is what
-- `unformat_get_input` still returns before the end.
pub mod Digits
pub mod RoundTrip
mod Tests
use uclib.Base.{
  ℕ, zero, suc, ◌+◌, ◌-◌, ◌*◌, ◌/◌, ◌%◌, ◌^◌, ◌≤◌, ◌<◌, bit_and, bit_or, Bool, true, false, ◌&&◌,
  ◌||◌, List, [], ◌∷◌, ◌++◌, Option, some, none, ltb, leb, ◌==◌, if◌then◌else◌, length, get_or,
  take, replicate,
}

abbrev pub equals : ℕ
equals = 0x3D

-- base64_encoding_table
abbrev pub base64_encoding_table : List ℕ
base64_encoding_table =
    0x41 ∷ 0x42 ∷ 0x43 ∷ 0x44 ∷ 0x45 ∷ 0x46 ∷ 0x47 ∷ 0x48 ∷ 0x49 ∷ 0x4A ∷ 0x4B ∷ 0x4C ∷ 0x4D ∷ 0x4E
    ∷ 0x4F ∷ 0x50 ∷ 0x51 ∷ 0x52 ∷ 0x53 ∷ 0x54 ∷ 0x55 ∷ 0x56 ∷ 0x57 ∷ 0x58 ∷ 0x59 ∷ 0x5A ∷ 0x61
    ∷ 0x62 ∷ 0x63 ∷ 0x64 ∷ 0x65 ∷ 0x66 ∷ 0x67 ∷ 0x68 ∷ 0x69 ∷ 0x6A ∷ 0x6B ∷ 0x6C ∷ 0x6D ∷ 0x6E
    ∷ 0x6F ∷ 0x70 ∷ 0x71 ∷ 0x72 ∷ 0x73 ∷ 0x74 ∷ 0x75 ∷ 0x76 ∷ 0x77 ∷ 0x78 ∷ 0x79 ∷ 0x7A ∷ 0x30
    ∷ 0x31 ∷ 0x32 ∷ 0x33 ∷ 0x34 ∷ 0x35 ∷ 0x36 ∷ 0x37 ∷ 0x38 ∷ 0x39 ∷ 0x2B ∷ 0x2F ∷ []

-- The decoding table after the first call: the place of a byte in the encoding table, or -1.
unfoldable pub find : List ℕ → ℕ → ℕ → Option ℕ
find [] i c = none
find (x ∷ xs) i c = let rest = find xs (i + 1) c in if x == c then some i else rest

unfoldable pub decode_byte : ℕ → Option ℕ
decode_byte c = find base64_encoding_table 0 c

abbrev pub is_none : Option ℕ → Bool
is_none none = true
is_none (some d) = false

abbrev pub digit : Option ℕ → ℕ
digit none = 0
digit (some d) = d

-- The four bytes for three.
unfoldable pub encode_digit : ℕ → ℕ → ℕ
encode_digit x k = get_or base64_encoding_table (bit_and (x / 2 ^ (k * 6)) (1 * 2 ^ 6 - 1)) 0

unfoldable pub encode_triple : ℕ → ℕ → ℕ → List ℕ
encode_triple x0 x1 x2 =
    let x = bit_or (bit_or (x0 * 2 ^ 16) (x1 * 2 ^ 8)) x2 in
    encode_digit x 3 ∷ encode_digit x 2 ∷ encode_digit x 1 ∷ encode_digit x 0 ∷ []

-- The loop over the data, of fewer than 2 ^ 31 bytes, which an `i32` counts.
unfoldable pub encode_loop : List ℕ → List ℕ
encode_loop [] = []
encode_loop (a ∷ []) = encode_triple a 0 0
encode_loop (a ∷ b ∷ []) = encode_triple a b 0
encode_loop (a ∷ b ∷ c ∷ d) = encode_triple a b c ++ encode_loop d

unfoldable pub n_pad_bytes : ℕ → ℕ
n_pad_bytes n = let n1 = n % 3 in if n1 == 0 then 0 else 3 - n1

-- The last bytes are written over.
unfoldable pub pad_text : List ℕ → List ℕ
pad_text d =
    let e = encode_loop d in
    let n = n_pad_bytes (length d) in take (length e - n) e ++ replicate n equals

-- From 2 ^ 31 bytes on, `n_bytes_left` is negative and the loop does not run: `none` stands for the
-- bytes that the memory of the new text held.
unfoldable pub format_base64_data : List ℕ → Option (List ℕ)
format_base64_data d = if ltb (length d) (2 ^ 31) then some (pad_text d) else none

-- The variables of the decoder; `result` is the vector so far, and NULL is the empty one.
pub record Decoder : Type 0 where
  pub triple : ℕ
  pub n_chars : ℕ
  pub result : List ℕ
  pub input : List ℕ

-- The three bytes of a triple.
unfoldable pub triple_bytes : ℕ → List ℕ
triple_bytes t = t / 2 ^ 16 % 256 ∷ t / 2 ^ 8 % 256 ∷ t % 256 ∷ []

-- Digits up to the end or the first byte that is none.
unfoldable pub decode_loop : ℕ → ℕ → List ℕ → List ℕ → Decoder
decode_loop triple n_chars result [] = record {
  triple = triple;
  n_chars = n_chars;
  result = result;
  input = [];
}
decode_loop triple n_chars result (c ∷ cs) =
    let d = decode_byte c in
    let t = bit_or (triple * 2 ^ 6 % 2 ^ 64) (digit d) in
    let full = decode_loop 0 0 (result ++ triple_bytes t) cs in
    let part = decode_loop t (n_chars + 1) result cs in
    if is_none d
    then record { triple = triple; n_chars = n_chars; result = result; input = c ∷ cs }
    else if (n_chars + 1) == 4
    then full
    else part

-- Pad characters in place of digits, and their number.
unfoldable pub pad_loop : ℕ → ℕ → ℕ → List ℕ → List ℕ → Decoder × ℕ
pad_loop triple n_chars n_pad result [] =
    (record { triple = triple; n_chars = n_chars; result = result; input = [] }, n_pad)
pad_loop triple n_chars n_pad result (c ∷ cs) =
    let rest = pad_loop (triple * 2 ^ 6 % 2 ^ 64) (n_chars + 1) (n_pad + 1) result cs in
    if (c == equals) && ltb n_chars 4
    then rest
    else (record { triple = triple; n_chars = n_chars; result = result; input = c ∷ cs }, n_pad)

-- The vector and the input that is left, a NULL vector, or a failure of the assertion that there are
-- fewer than three pad characters.
pub data Decoded : Type 0 where
  decoded : List ℕ → List ℕ → Decoded
  refused : Decoded
  assertion_failed : Decoded

unfoldable pub finish : Decoder × ℕ → Decoded
finish r =
    let all = r.0.result ++ triple_bytes r.0.triple in
    if r.0.n_chars == 4
    then (if ltb r.1 3 then decoded (take (length all - r.1) all) r.0.input else assertion_failed)
    else if ltb 0 r.0.n_chars
    then refused
    else if ltb 0 (length r.0.result)
    then decoded r.0.result r.0.input
    else refused

unfoldable pub unformat_base64_data : List ℕ → Decoded
unformat_base64_data input =
    let r = decode_loop 0 0 [] input in finish (pad_loop r.triple r.n_chars 0 r.result r.input)
