-- ===== src/Base64/Digits.antt =====
-- One digit, and the four digits of three bytes.
use uclib.Base.{
  ℕ, zero, suc, ◌+◌, ◌*◌, ◌/◌, ◌%◌, ◌^◌, ◌<◌, bit_or, ◌≡◌, refl, ◌∙◌, ap, ap₂, Bool, Bool-cases,
  inl, inr, true, false, ◌&&◌, List, [], ◌∷◌, ◌++◌, Option, some, none, arith, ◌==◌, get_or,
}
use uclib.Word.Bits.{bit_and_mask, bit_or_beside}
use uclib.Base64.{
  base64_encoding_table, find, decode_byte, encode_digit, encode_triple, triple_bytes, decode_loop,
}

all_below : (ℕ → Bool) → ℕ → Bool
all_below p zero = true
all_below p (suc n) = all_below p n && p n

all_below_lem : (p : ℕ → Bool) (n i : ℕ) → i < n → all_below p n ≡ true → p i ≡ true
unfolding all_below
all_below_lem p zero i h e = absurd (omega arith)
all_below_lem p (suc n) i h e = elim (Bool-cases (i == n)) [
  | inl same ↦ let q : i ≡ n = ground (arith, same) in rw q (ground (arith, e))
  | inr other ↦ all_below_lem p n i (ground (arith, other)) (ground (arith, e))
]

matches : Option ℕ → ℕ → Bool
matches none i = false
matches (some d) i = d == i

matches_lem : (o : Option ℕ) (i : ℕ) → matches o i ≡ true → o ≡ some i
unfolding matches
matches_lem none i e = absurd (ground (arith, e))
matches_lem (some d) i e = ap some (ground (arith, e))

table_matches :
    all_below (λ (k : ℕ). matches (decode_byte (get_or base64_encoding_table k 0)) k) 64 ≡ true
unfolding all_below matches decode_byte find
table_matches = refl

-- The byte of a digit is that digit again.
pub decode_byte-digit : (i : ℕ) → i < 64 → decode_byte (get_or base64_encoding_table i 0) ≡ some i
decode_byte-digit i h = matches_lem _ i (
    all_below_lem (λ (k : ℕ). matches (decode_byte (get_or base64_encoding_table k 0)) k) 64 i h
      table_matches)

-- One digit more of a triple that is not full, and the last one.
pub decode_digit :
    (t n d : ℕ) (result cs : List ℕ)
    → d < 64
    → n < 3
    → t < 2 ^ 58
    → decode_loop t n result (get_or base64_encoding_table d 0 ∷ cs)
      ≡ decode_loop (t * 64 + d) (n + 1) result cs
unfolding decode_loop
decode_digit t n d result cs h k lt =
    let room : t * 64 % 2 ^ 64 ≡ t * 64 = omega (arith, lt) in
    let less : ((n + 1) == 4) ≡ false = ground (arith, k) in
    rw (decode_byte-digit d h, less, room, bit_or_beside 6 t d h) refl

pub decode_last :
    (t d : ℕ) (result cs : List ℕ)
    → d < 64
    → t < 2 ^ 58
    → decode_loop t 3 result (get_or base64_encoding_table d 0 ∷ cs)
      ≡ decode_loop 0 0 (result ++ triple_bytes (t * 64 + d)) cs
unfolding decode_loop
decode_last t d result cs h lt =
    let room : t * 64 % 2 ^ 64 ≡ t * 64 = omega (arith, lt) in
    rw (decode_byte-digit d h, room, bit_or_beside 6 t d h) refl

-- The number of three bytes.
abbrev pub number : ℕ → ℕ → ℕ → ℕ
number a b c = a * 65536 + b * 256 + c

encode_digit_lem :
    (x k : ℕ) → encode_digit x k ≡ get_or base64_encoding_table (x / 2 ^ (k * 6) % 64) 0
unfolding encode_digit
encode_digit_lem x k =
    ap (λ (i : ℕ). get_or base64_encoding_table i 0) (bit_and_mask 6 (x / 2 ^ (k * 6)))

pub encode_triple_lem :
    (a b c : ℕ)
    → b < 256
    → c < 256
    → let at = λ (i : ℕ). get_or base64_encoding_table (i % 64) 0 in
      let x = number a b c in
      encode_triple a b c ≡ at (x / 262144) ∷ at (x / 4096) ∷ at (x / 64) ∷ at (x / 1) ∷ []
unfolding encode_triple
encode_triple_lem a b c h k =
    let first : bit_or (a * 65536) (b * 256) ≡ (a * 256 + b) * 256 =
      bit_or_beside 16 a (b * 256) (omega arith) ∙ omega arith in
    let second : bit_or ((a * 256 + b) * 256) c ≡ number a b c =
      bit_or_beside 8 (a * 256 + b) c k ∙ omega arith in
    let x = number a b c in
    rw (first, second)
      (ap₂ ◌∷◌ (encode_digit_lem x 3) (
        ap₂ ◌∷◌ (encode_digit_lem x 2)
          (ap₂ ◌∷◌ (encode_digit_lem x 1) (ap₂ ◌∷◌ (encode_digit_lem x 0) refl))))

pub triple_bytes-number :
    (a b c : ℕ) → a < 256 → b < 256 → c < 256 → triple_bytes (number a b c) ≡ a ∷ b ∷ c ∷ []
unfolding triple_bytes
triple_bytes-number a b c h k l =
    ap₂ ◌∷◌ (omega arith) (ap₂ ◌∷◌ (omega arith) (ap₂ ◌∷◌ (omega arith) refl))
