-- ===== src/Serialize/Integers.antt =====
-- Integers and strings come back from the bytes that they were written to.
use native.Mathlib.Nat.{pow-suc}
use uclib.Base.{
  ℕ, zero, suc, ◌+◌, ◌-◌, ◌*◌, ◌/◌, ◌%◌, ◌^◌, ◌≤◌, ◌<◌, ◌≡◌, refl, ◌∙◌, ap, Bool-cases, inl, inr,
  true, false, List, [], ◌∷◌, ◌++◌, append_assoc, Option, some, arith, ltb, leb, ◌==◌, length,
  length-append, take-append_at, drop-append_at,
}
use uclib.ByteOrder.{big_bytes, length-big_bytes, big_number-big_bytes}
use uclib.Serialize.{
  Reader, then_read, ◌>>=◌, unserialize_get, little_bytes, little_number, serialize_integer,
  unserialize_integer, serialize_64, unserialize_64, serialize_likely_small_unsigned_integer,
  unserialize_likely_small_unsigned_integer, likely_small_rest,
}

pub bind_lem {ℓ κ} :
    {A : Type ℓ} {B : Type κ} (r : Reader A) (f : A → Reader B) (s s' : List ℕ) (a : A)
    → r s ≡ some (a, s')
    → (r >>= f) s ≡ f a s'
bind_lem {A = A} r f s s' a e = ap (λ (o : Option (A × List ℕ)). then_read o f) e

pub get-append :
    (n : ℕ) (xs rest : List ℕ) → length xs ≡ n → unserialize_get n (xs ++ rest) ≡ some (xs, rest)
unfolding unserialize_get
get-append n xs rest l =
    let enough : leb n (length (xs ++ rest)) ≡ true = ground (arith, length-append xs rest, l) in
    rw (enough, take-append_at n xs rest l, drop-append_at n xs rest l) refl

pub unserialize_integer-serialize :
    (w x : ℕ) (rest : List ℕ)
    → x < 256 ^ w
    → unserialize_integer w (serialize_integer x w ++ rest) ≡ some (x, rest)
unfolding unserialize_integer serialize_integer
unserialize_integer-serialize w x rest h =
    bind_lem (unserialize_get w) _ (big_bytes w x ++ rest) rest (big_bytes w x)
      (get-append w (big_bytes w x) rest (length-big_bytes w x))
    ∙ ap (λ (t : ℕ). some (t, rest)) (big_number-big_bytes w x h)

pub unserialize_64-serialize :
    (x : ℕ) (rest : List ℕ) → x < 2 ^ 64 → unserialize_64 (serialize_64 x ++ rest) ≡ some (x, rest)
unfolding unserialize_64 serialize_64
unserialize_64-serialize x rest h =
    let lo = serialize_integer (x % 2 ^ 32) 4 in
    let hi = serialize_integer (x / 2 ^ 32) 4 in
    rw (append_assoc lo hi rest) (
      bind_lem (unserialize_integer 4) _ (lo ++ (hi ++ rest)) (hi ++ rest) (x % 2 ^ 32)
        (unserialize_integer-serialize 4 (x % 2 ^ 32) (hi ++ rest) (omega arith))
      ∙ (bind_lem (unserialize_integer 4) _ (hi ++ rest) rest (x / 2 ^ 32)
            (unserialize_integer-serialize 4 (x / 2 ^ 32) rest (omega arith))
          ∙ ap (λ (t : ℕ). some (t, rest)) (omega arith)))

length-little_bytes : (w x : ℕ) → length (little_bytes w x) ≡ w
unfolding little_bytes
length-little_bytes zero x = refl
length-little_bytes (suc w) x = ap suc (length-little_bytes w (x / 256))

little_number-little_bytes : (w x : ℕ) → x < 256 ^ w → little_number (little_bytes w x) ≡ x
unfolding little_bytes little_number
little_number-little_bytes zero x h = omega arith
little_number-little_bytes (suc w) x h =
    omega (arith, little_number-little_bytes w (x / 256) (omega (arith, pow-suc 256 w)))

-- A first byte, and what follows it.
first_byte :
    (y : ℕ) (s : List ℕ) → unserialize_likely_small_unsigned_integer (y ∷ s) ≡ likely_small_rest y s
unfolding unserialize_likely_small_unsigned_integer
first_byte y s = bind_lem (unserialize_get 1) _ (y ∷ s) s (y ∷ []) (get-append 1 (y ∷ []) s refl)

rest_one : (x : ℕ) (rest : List ℕ) → likely_small_rest (1 + 2 * x) rest ≡ some (x, rest)
unfolding likely_small_rest
rest_one x rest =
    let odd : ((1 + 2 * x) % 2 == 1) ≡ true = ground arith in
    rw odd (ap (λ (t : ℕ). some (t, rest)) (omega arith))

rest_two :
    (x y q : ℕ) (rest : List ℕ)
    → y + 256 * q ≡ 4 * (x - 2 ^ 7) + 2
    → y < 256
    → 2 ^ 7 ≤ x
    → likely_small_rest y (q ∷ rest) ≡ some (x, rest)
unfolding likely_small_rest
rest_two x y q rest e h le =
    let even : (y % 2 == 1) ≡ false = ground (arith, e) in
    let bit : (y / 2 % 2 == 1) ≡ true = ground (arith, e) in
    rw (even, bit)
      (bind_lem (unserialize_get 1) _ (q ∷ rest) rest (q ∷ []) (get-append 1 (q ∷ []) rest refl)
        ∙ ap (λ (t : ℕ). some (t, rest)) (omega (arith, e, h, le)))

rest_four :
    (x y q0 q1 q2 : ℕ) (rest : List ℕ)
    → y + 256 * (q0 + 256 * (q1 + 256 * q2)) ≡ 8 * (x - 2 ^ 7 - 2 ^ 14) + 4
    → y < 256
    → 2 ^ 7 + 2 ^ 14 ≤ x
    → likely_small_rest y (q0 ∷ q1 ∷ q2 ∷ rest) ≡ some (x, rest)
unfolding likely_small_rest
rest_four x y q0 q1 q2 rest e h le =
    let q = q0 ∷ q1 ∷ q2 ∷ [] in
    let even : (y % 2 == 1) ≡ false = ground (arith, e) in
    let zero_bit : (y / 2 % 2 == 1) ≡ false = ground (arith, e) in
    let bit : (y / 4 % 2 == 1) ≡ true = ground (arith, e) in
    rw (even, zero_bit, bit)
      (bind_lem (unserialize_get 3) _ (q0 ∷ q1 ∷ q2 ∷ rest) rest q (get-append 3 q rest refl)
        ∙ ap (λ (t : ℕ). some (t, rest)) (omega (arith, e, h, le)))

rest_nine :
    (x : ℕ) (rest : List ℕ)
    → x < 2 ^ 64
    → likely_small_rest 0 (little_bytes 8 x ++ rest) ≡ some (x, rest)
unfolding likely_small_rest
rest_nine x rest h =
    bind_lem (unserialize_get 8) _ (little_bytes 8 x ++ rest) rest (little_bytes 8 x)
      (get-append 8 (little_bytes 8 x) rest (length-little_bytes 8 x))
    ∙ ap (λ (t : ℕ). some (t, rest)) (little_number-little_bytes 8 x h)

-- A number of 64 bits is read back from the one, two, four or nine bytes that it is written to, and
-- what stands behind them is left.
pub likely_small-serialize :
    (x : ℕ) (rest : List ℕ)
    → x < 2 ^ 64
    → unserialize_likely_small_unsigned_integer (serialize_likely_small_unsigned_integer x ++ rest)
      ≡ some (x, rest)
unfolding serialize_likely_small_unsigned_integer little_bytes
likely_small-serialize x rest h = elim (Bool-cases (ltb x (2 ^ 7))) [
  | inl one ↦ rw one (first_byte (1 + 2 * x) rest ∙ rest_one x rest)
  | inr more ↦ elim (Bool-cases (ltb (x - 2 ^ 7) (2 ^ 14))) [
    | inl two ↦
        rw (more, two)
          (let v = 4 * (x - 2 ^ 7) + 2 in
            first_byte (v % 256) _
            ∙ rest_two x (v % 256) (v / 256 % 256) rest (ground (arith, two)) (omega arith)
                (ground (arith, more)))
    | inr more2 ↦ elim (Bool-cases (ltb (x - 2 ^ 7 - 2 ^ 14) (2 ^ 29))) [
      | inl four ↦
          rw (more, more2, four)
            (let v = 8 * (x - 2 ^ 7 - 2 ^ 14) + 4 in
              first_byte (v % 256) _
              ∙ rest_four x (v % 256) (v / 256 % 256) (v / 256 / 256 % 256)
                  (v / 256 / 256 / 256 % 256) rest (ground (arith, four)) (omega arith)
                  (ground (arith, more, more2)))
      | inr nine ↦ rw (more, more2, nine) (first_byte 0 _ ∙ rest_nine x rest h)
    ]
  ]
]
