-- ===== src/Base64/RoundTrip.antt =====
-- The decoder reads back what the encoder wrote.
use uclib.Base.{
  ℕ, suc, ◌+◌, ◌-◌, ◌*◌, ◌/◌, ◌%◌, ◌^◌, ◌≤◌, ◌<◌, ◌≡◌, refl, sym, ◌∙◌, ap, true, List, [], ◌∷◌,
  ◌++◌, append_assoc, append-nil, All, arith, ltb, if◌then◌else◌, length, length-append, get_or,
  some, take, take-append_at,
}
use uclib.Base64.{
  equals, base64_encoding_table, find, decode_byte, encode_triple, encode_loop, n_pad_bytes,
  pad_text, format_base64_data, Decoder, decode_loop, pad_loop, triple_bytes, Decoded, decoded,
  refused, finish, unformat_base64_data,
}
use uclib.Base64.Digits.{decode_digit, decode_last, number, encode_triple_lem, triple_bytes-number}

-- The four digits of three bytes make a triple.
decode_triple :
    (a b c : ℕ) (result cs : List ℕ)
    → a < 256
    → b < 256
    → c < 256
    → decode_loop 0 0 result (encode_triple a b c ++ cs)
      ≡ decode_loop 0 0 (result ++ a ∷ b ∷ c ∷ []) cs
decode_triple a b c result cs h k l =
    let x = number a b c in
    let n : (((0 * 64 + x / 262144 % 64) * 64 + x / 4096 % 64) * 64 + x / 64 % 64) * 64 + x / 1 % 64
        ≡ x =
      omega arith in
    rw (encode_triple_lem a b c k l) (
      decode_digit 0 0 (x / 262144 % 64) result _ (omega arith) (omega arith) (omega arith)
      ∙ (decode_digit _ 1 (x / 4096 % 64) result _ (omega arith) (omega arith) (omega arith)
          ∙ (decode_digit _ 2 (x / 64 % 64) result _ (omega arith) (omega arith) (omega arith)
              ∙ (decode_last _ (x / 1 % 64) result cs (omega arith) (omega arith)
                  ∙ ap (λ (t : List ℕ). decode_loop 0 0 (result ++ t) cs)
                      (ap triple_bytes n ∙ triple_bytes-number a b c h k l)))))

n_pad_step : (n : ℕ) → n_pad_bytes (suc (suc (suc n))) ≡ n_pad_bytes n
unfolding n_pad_bytes
n_pad_step n = let e : suc (suc (suc n)) % 3 ≡ n % 3 = omega arith in rw e refl

-- What is written over the last bytes is at most what stands there.
pad_le : (d : List ℕ) → n_pad_bytes (length d) ≤ length (encode_loop d)
unfolding n_pad_bytes encode_loop encode_triple
pad_le [] = omega arith
pad_le (a ∷ []) = omega arith
pad_le (a ∷ b ∷ []) = omega arith
pad_le (a ∷ b ∷ c ∷ d) = ground (arith, pad_le d)

format_step :
    (a b c : ℕ) (d : List ℕ) → pad_text (a ∷ b ∷ c ∷ d) ≡ encode_triple a b c ++ pad_text d
unfolding pad_text encode_loop encode_triple
format_step a b c d =
    let n = n_pad_bytes (length d) in
    let same : n_pad_bytes (suc (suc (suc (length d)))) ≡ n = n_pad_step (length d) in
    let e : suc (suc (suc (suc (length (encode_loop d))))) - n
        ≡ suc (suc (suc (suc (length (encode_loop d) - n)))) =
      omega (arith, pad_le d) in
    rw (same, e) refl

abbrev after : Decoder → Decoded
after r = finish (pad_loop r.triple r.n_chars 0 r.result r.input)

last_bytes :
    (result xs ys : List ℕ) (n : ℕ)
    → length ys ≡ n
    → take (length (result ++ (xs ++ ys)) - n) (result ++ (xs ++ ys)) ≡ result ++ xs
last_bytes result xs ys n l =
    let e : result ++ (xs ++ ys) ≡ (result ++ xs) ++ ys = sym (append_assoc result xs ys) in
    rw e (take-append_at _ (result ++ xs) ys (omega (arith, length-append (result ++ xs) ys, l)))

not_empty : (result xs : List ℕ) → 0 < length xs → ltb 0 (length (result ++ xs)) ≡ true
not_empty result xs h = ground (arith, length-append result xs, h)

-- The texts of one and of two bytes.
format_one :
    (a : ℕ)
    → let at = λ (i : ℕ). get_or base64_encoding_table (i % 64) 0 in
      let x = number a 0 0 in
      pad_text (a ∷ []) ≡ at (x / 262144) ∷ at (x / 4096) ∷ equals ∷ equals ∷ []
unfolding pad_text encode_loop n_pad_bytes
format_one a = rw (encode_triple_lem a 0 0 (omega arith) (omega arith)) refl

format_two :
    (a b : ℕ)
    → b < 256
    → let at = λ (i : ℕ). get_or base64_encoding_table (i % 64) 0 in
      let x = number a b 0 in
      pad_text (a ∷ b ∷ []) ≡ at (x / 262144) ∷ at (x / 4096) ∷ at (x / 64) ∷ equals ∷ []
unfolding pad_text encode_loop n_pad_bytes
format_two a b h = rw (encode_triple_lem a b 0 h (omega arith)) refl

decode_stop :
    (t n : ℕ) (result cs : List ℕ)
    → decode_loop t n result (equals ∷ cs)
      ≡ record { triple = t; n_chars = n; result = result; input = equals ∷ cs }
unfolding decode_loop decode_byte find
decode_stop t n result cs = refl

-- The end of the decoder for a triple with `n` characters and the pad characters that are missing.
after_one :
    (a t : ℕ) (result : List ℕ)
    → a < 256
    → t * 4096 ≡ number a 0 0
    → after record { triple = t; n_chars = 2; result = result; input = equals ∷ equals ∷ [] }
      ≡ decoded (result ++ a ∷ []) []
unfolding finish pad_loop
after_one a t result h e =
    let n : t * 64 % 2 ^ 64 * 64 % 2 ^ 64 ≡ number a 0 0 = omega (arith, e) in
    let bytes = triple_bytes-number a 0 0 h (omega arith) (omega arith) in
    rw (n, bytes)
      (ap (λ (r : List ℕ). decoded r []) (last_bytes result (a ∷ []) (0 ∷ 0 ∷ []) 2 refl))

after_two :
    (a b t : ℕ) (result : List ℕ)
    → a < 256
    → b < 256
    → t * 64 ≡ number a b 0
    → after record { triple = t; n_chars = 3; result = result; input = equals ∷ [] }
      ≡ decoded (result ++ a ∷ b ∷ []) []
unfolding finish pad_loop
after_two a b t result h k e =
    let n : t * 64 % 2 ^ 64 ≡ number a b 0 = omega (arith, e) in
    let bytes = triple_bytes-number a b 0 h k (omega arith) in
    rw (n, bytes)
      (ap (λ (r : List ℕ). decoded r []) (last_bytes result (a ∷ b ∷ []) (0 ∷ []) 1 refl))

after_none :
    (result : List ℕ)
    → after (decode_loop 0 0 result (pad_text []))
      ≡ (if ltb 0 (length result) then decoded result [] else refused)
unfolding decode_loop pad_loop finish pad_text encode_loop n_pad_bytes
after_none result = refl

after-format :
    (d result : List ℕ)
    → All (λ x. ltb x 256) d
    → after (decode_loop 0 0 result (pad_text d))
      ≡ (if ltb 0 (length (result ++ d)) then decoded (result ++ d) [] else refused)
after-format [] result h = rw (append-nil result) (after_none result)
after-format (a ∷ []) result h =
    let x = number a 0 0 in
    let byte : a < 256 = ground (arith, h.0) in
    rw (not_empty result (a ∷ []) (omega arith), format_one a)
      (ap after (
          decode_digit 0 0 (x / 262144 % 64) result _ (omega arith) (omega arith) (omega arith)
          ∙ (decode_digit _ 1 (x / 4096 % 64) result _ (omega arith) (omega arith) (omega arith)
              ∙ decode_stop _ 2 result (equals ∷ [])))
        ∙ after_one a ((0 * 64 + x / 262144 % 64) * 64 + x / 4096 % 64) result byte
            (omega (arith, byte)))
after-format (a ∷ b ∷ []) result h =
    let x = number a b 0 in
    let byte : a < 256 = ground (arith, h.0) in
    let second : b < 256 = ground (arith, h.1.0) in
    rw (not_empty result (a ∷ b ∷ []) (omega arith), format_two a b second)
      (ap after (
          decode_digit 0 0 (x / 262144 % 64) result _ (omega arith) (omega arith) (omega arith)
          ∙ (decode_digit _ 1 (x / 4096 % 64) result _ (omega arith) (omega arith) (omega arith)
              ∙ (decode_digit _ 2 (x / 64 % 64) result _ (omega arith) (omega arith) (omega arith)
                  ∙ decode_stop _ 3 result [])))
        ∙ after_two a b (((0 * 64 + x / 262144 % 64) * 64 + x / 4096 % 64) * 64 + x / 64 % 64)
            result byte second (omega (arith, byte, second)))
after-format (a ∷ b ∷ c ∷ d) result h = rw (format_step a b c d) (
    ap after (
      decode_triple a b c result _ (ground (arith, h.0)) (ground (arith, h.1.0))
        (ground (arith, h.1.1.0)))
    ∙ (after-format d (result ++ a ∷ b ∷ c ∷ []) h.1.1.1
        ∙ ap (λ (t : List ℕ). if ltb 0 (length t) then decoded t [] else refused)
            (append_assoc result (a ∷ b ∷ c ∷ []) d)))

-- For fewer than 2 ^ 31 bytes the encoder writes a text, and the decoder returns the data and leaves
-- nothing of the text; for no data it returns 0.
pub unformat-format :
    (d : List ℕ)
    → All (λ x. ltb x 256) d
    → length d < 2 ^ 31
    → (text : List ℕ) × (format_base64_data d ≡ some text)
      × (unformat_base64_data text ≡ (if ltb 0 (length d) then decoded d [] else refused))
unfolding unformat_base64_data format_base64_data
unformat-format d h few =
    let counted : ltb (length d) (2 ^ 31) ≡ true = ground (arith, few) in
    (pad_text d, rw counted refl, after-format d [] h)
