-- ===== src/Zvec/RoundTrip.antt =====
-- `zvec_decode` reads back what `zvec_encode` wrote, whatever bits follow it.
use native.Mathlib.Nat.{pow-le-pow_right}
use uclib.Base.{
  ℕ, zero, suc, ◌+◌, ◌-◌, ◌*◌, ◌/◌, ◌%◌, ◌^◌, ◌≤◌, ◌<◌, bit_xor, ◌≡◌, ◌≢◌, ◌∙◌, ap, ap₂, false,
  Option, some, arith, ltb, ◌==◌, Bool-cases, inl, inr, ==_ne,
}
use uclib.Word.{uword_mod, add, sub, log2_first_set}
use uclib.Word.Bits.{test_bit, pow_pos, pow_lt, pow_add, pow_double}
use uclib.Word.FirstSet.{log2_first_set_lem, first_set-pow, clear_first_set}
use uclib.Zvec.{decode_loop, encode_loop, zvec_encode, zvec_decode}
use uclib.Zvec.Code.{
  class-le, decode_last, decode_hit, decode_miss, encode_last, encode_hit, encode_miss,
}

-- No bit below `s` is set.
abbrev pub Low : ℕ → ℕ → Type 0
Low s x = (k : ℕ) → k < s → test_bit x k ≡ false

-- The code word `z` of `n` bits for the data `d`, in the classes of `x` from class `s` on.
record IsCode (f x d s : ℕ) : Type 0 where
  z : ℕ
  n : ℕ
  encodes : encode_loop f x d s ≡ some (z * 2 ^ s, n + s)
  small : z < 2 ^ n
  short : n + s ≤ 63
  decodes :
      (e r : ℕ)
      → r + d < 2 ^ 32
      → (y : ℕ) × (decode_loop f x (z + e * 2 ^ n) s r ≡ some (r + d, s + n, y)) × (y ≢ 0)

shift_fits : (z n s : ℕ) → z < 2 ^ n → n + s ≤ 63 → z * 2 ^ s < 2 ^ 64
shift_fits z n s h k =
    let top : 2 ^ (n + s) < 2 ^ 64 = pow_lt (n + s) 64 (omega arith) in
    let e : 2 ^ (n + s) ≡ 2 ^ n * 2 ^ s = pow_add n s in
    let one : 1 ≤ 2 ^ s = pow_pos s in grind arith

low_part : (d e m : ℕ) → d < m → (d + e * m) % m ≡ d
low_part d e m h = grind arith

some_triple :
    (a b c d y : ℕ) → a ≡ c → b ≡ d → ◌≡◌ {A = Option (ℕ × ℕ × ℕ)} (some (a, b, y)) (some (c, d, y))
some_triple a b c d y e h = cc

some_pair : (a b c d : ℕ) → a ≡ c → b ≡ d → ◌≡◌ {A = Option (ℕ × ℕ)} (some (a, b)) (some (c, d))
some_pair a b c d e h = cc

double_bits :
    (d b g p : ℕ)
    → b < 2
    → ((d * 2 + b + g * 2 ^ suc p) % 2 ≡ b) × ((d * 2 + b + g * 2 ^ suc p) / 2 ≡ d + g * 2 ^ p)
double_bits d b g p h = omega (arith, ap (λ (t : ℕ). g * t) (pow_double p))

module _ (x s : ℕ) (ne : x ≢ 0) (fits : x < 2 ^ 32) (low : Low s x) where
  abbrev p : ℕ
  p = log2_first_set x

  pub p_lt : p < 32
  p_lt = elim (Bool-cases (ltb p 32)) [
    | inl lt ↦ ground arith
    | inr ge ↦
        let big : 2 ^ 32 ≤ 2 ^ p = pow-le-pow_right (omega arith) {i = 32} {j = p} (ground arith) in
        absurd (omega (arith, class-le 0 x ne fits))
  ]

  pub s_le : s ≤ p
  s_le = elim (Bool-cases (ltb p s)) [
    | inl lt ↦ ground (arith, low p, log2_first_set_lem x ne (omega arith))
    | inr ge ↦ ground arith
  ]

  pub next-Low : Low (s + 1) (bit_xor x (2 ^ p))
  next-Low k h =
      let word : x < uword_mod = omega arith in
      let c = (clear_first_set x ne word).1 k in
      rw (first_set-pow x ne word) at c ∙ ground (arith, (log2_first_set_lem x ne word).2 k, s_le)

  pub next_sum : bit_xor x (2 ^ p) + 2 ^ p ≡ x
  next_sum =
      let word : x < uword_mod = omega arith in
      rw (first_set-pow x ne word) at ((clear_first_set x ne word).0)

  last-IsCode : (f d : ℕ) → x ≡ 2 ^ p → d < x → IsCode (suc f) x d s
  last-IsCode f d e lt = record {
    z = d;
    n = p;
    encodes =
        encode_last f x ne fits d s e (omega arith)
        ∙ ground (arith, shift_fits d p s (omega arith) (omega (arith, p_lt, s_le)), p_lt, s_le);
    small = omega arith;
    short = omega (arith, p_lt, s_le);
    decodes = λ g r h. (
      x,
      decode_last f x ne fits (d + g * 2 ^ p) s r e
          ∙ ground (arith, low_part d g (2 ^ p) (omega arith), p_lt, s_le),
      ne,
    );
  }

  hit-IsCode : (f d : ℕ) → x ≢ 2 ^ p → d < 2 ^ p → IsCode (suc f) x d s
  hit-IsCode f d e lt =
      let hit_bits = λ (g : ℕ). double_bits d 1 g p (omega arith) in
      record {
        z = d * 2 + 1;
        n = suc p;
        encodes =
            encode_hit f x ne fits d s e lt
            ∙ ground (
              arith,
              shift_fits (d * 2 + 1) (suc p) s (omega (arith, pow_double p))
                  (omega (arith, p_lt, s_le)),
              p_lt,
              s_le,
            );
        small = omega (arith, pow_double p);
        short = omega (arith, p_lt, s_le);
        decodes = λ g r h. (
          x,
          decode_hit f x ne fits (d * 2 + 1 + g * 2 ^ suc p) s r e (hit_bits g).0
              ∙ ground (arith, (hit_bits g).1, low_part d g (2 ^ p) lt, p_lt, s_le),
          ne,
        );
      }

  miss-IsCode :
      (f d : ℕ)
      → x ≢ 2 ^ p
      → 2 ^ p ≤ d
      → d < x
      → IsCode f (bit_xor x (2 ^ p)) (d - 2 ^ p) (s + 1)
      → IsCode (suc f) x d s
  miss-IsCode f d e le lt c =
      let sub_eq : sub d (2 ^ p) ≡ d - 2 ^ p = omega arith in
      let z_eq : c.z * 2 ^ (s + 1) ≡ c.z * 2 * 2 ^ s =
        omega (arith, pow_add s 1, ap (λ (t : ℕ). c.z * t) (pow_add s 1)) in
      record {
        z = c.z * 2;
        n = suc c.n;
        encodes =
            encode_miss f x ne fits d s e le
            ∙ rw sub_eq (c.encodes ∙ ap some (ap₂ (λ (a b : ℕ). (a, b)) z_eq (omega arith)));
        small = omega (arith, c.small, pow_double c.n);
        short = omega (arith, c.short);
        decodes = λ g r h.
            let bits = double_bits c.z 0 g c.n (omega arith) in
            let plain : c.z * 2 + g * 2 ^ suc c.n ≡ c.z * 2 + 0 + g * 2 ^ suc c.n = omega arith in
            let (y, eq, nz) = c.decodes g (r + 2 ^ p) (omega arith) in
            let step : add s 1 ≡ s + 1 = omega (arith, p_lt, s_le) in
            let sum : add r (2 ^ p) ≡ r + 2 ^ p = omega arith in
            (
              y,
              decode_miss f x ne fits (c.z * 2 + g * 2 ^ suc c.n) s r e (rw plain bits.0)
                  ∙ rw (plain, bits.1, step, sum)
                      (eq ∙ some_triple _ _ _ _ y (omega arith) (omega arith)),
              nz,
            );
      }

encode_loop-IsCode :
    (f x d s : ℕ) → x ≢ 0 → x < 2 ^ 32 → Low s x → d < x → 33 ≤ f + s → IsCode f x d s
encode_loop-IsCode zero x d s ne fits low lt enough =
    absurd (omega (arith, p_lt x s ne fits low, s_le x s ne fits low))
encode_loop-IsCode (suc f) x d s ne fits low lt enough =
    let sum = next_sum x s ne fits low in
    elim (Bool-cases (x == 2 ^ log2_first_set x)) [
      | inl last ↦ last-IsCode x s ne fits low f d (ground arith) lt
      | inr more ↦ elim (Bool-cases (ltb d (2 ^ log2_first_set x))) [
        | inl hit ↦ hit-IsCode x s ne fits low f d (ground arith) (ground arith)
        | inr miss ↦ miss-IsCode x s ne fits low f d (ground arith) (ground arith) lt (
            encode_loop-IsCode f (bit_xor x (2 ^ log2_first_set x)) (d - 2 ^ log2_first_set x)
              (s + 1) (ground (arith, sum)) (omega (arith, sum)) (next-Low x s ne fits low)
              (ground (arith, sum)) (omega arith))
      ]
    ]

-- For a coding of 32 bits and data below it, `zvec_encode` returns a word `z` of `n` bits, at most
-- 63; and `zvec_decode` of `z`, with any bits `e` behind it, returns the data and the length `n`.
pub decode-encode :
    (coding dat : ℕ)
    → coding < 2 ^ 32
    → dat < coding
    → (z : ℕ) × (n : ℕ) × (zvec_encode coding dat ≡ some (z, n))
      × (z < 2 ^ n)
      × (n ≤ 63)
      × ((e : ℕ) → zvec_decode coding (z + e * 2 ^ n) ≡ some (dat, n))
unfolding zvec_encode zvec_decode
decode-encode coding dat fits lt =
    let c =
      encode_loop-IsCode 65 coding dat 0 (omega arith) fits (λ k h. elim h [ ]) lt (omega arith) in
    (
      c.z,
      c.n,
      c.encodes ∙ some_pair _ _ c.z c.n (omega arith) (omega arith),
      c.small,
      omega (arith, c.short),
      λ e.
          let (y, eq, nz) = c.decodes e 0 (omega arith) in
          rw (eq, ==_ne y 0 nz) (some_pair _ _ dat c.n (omega arith) (omega arith)),
    )
