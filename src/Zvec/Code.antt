-- ===== src/Zvec/Code.antt =====
-- One round of the two loops, as arithmetic: a class of size 2 ^ p at the lowest bit of the coding.
use native.Mathlib.Nat.{mod-lt, mod-eq_of_lt}
use uclib.Base.{
  ℕ, zero, suc, ◌+◌, ◌-◌, ◌*◌, ◌/◌, ◌%◌, ◌^◌, ◌≤◌, ◌<◌, bit_and, bit_xor, ◌≡◌, ◌≢◌, refl, sym, Bool,
  true, false, some, arith, ◌==◌, if◌then◌else◌, ==_refl, ==_ne,
}
use uclib.Word.{uword_mod, shl, add, sub, from_bool, log2_first_set}
use uclib.Word.Bits.{bit_and-one, bit_and_mask, bit_or-zero, bit_or_odd, pow_pos, pow_lt}
use uclib.Word.FirstSet.{log2_first_set_lem, first_set-pow, clear_first_set, min_log2-pow}
use uclib.Bitmap.{andnot_word}
use uclib.Zvec.{decode_loop, encode_loop}

andnot_bit : (y : ℕ) (b : Bool) → y < 2 → andnot_word y (from_bool b) ≡ (if b then 0 else y)
andnot_bit zero true h = refl
andnot_bit zero false h = refl
andnot_bit (suc zero) true h = refl
andnot_bit (suc zero) false h = refl
andnot_bit (suc (suc y)) b h = absurd (omega arith)

-- `(zdata & 1) &~ implicit_end`
explicit_end_lem :
    (z : ℕ) (b : Bool) → andnot_word (bit_and z 1) (from_bool b) ≡ (if b then 0 else z % 2)
explicit_end_lem z b = rw bit_and-one (andnot_bit (z % 2) b (omega arith))

mask_lem : (x p : ℕ) → p < 64 → bit_and x (sub (2 ^ p) 1) ≡ x % 2 ^ p
mask_lem x p h =
    let e : sub (2 ^ p) 1 ≡ 2 ^ p - 1 = omega (arith, pow_pos p, pow_lt p 64 h) in
    rw e (bit_and_mask p x)

module _ (f x : ℕ) (ne : x ≢ 0) (fits : x < 2 ^ 32) where
  abbrev pub p : ℕ
  p = log2_first_set x

  word : x < uword_mod
  word = omega arith

  pub class-le : 2 ^ p ≤ x
  class-le = omega (arith, (clear_first_set x ne word).0)

  pub decode_last :
      (z n r : ℕ)
      → x ≡ 2 ^ p
      → decode_loop (suc f) x z n r ≡ some (add r (z % 2 ^ p), add n (add p 0), x)
  unfolding decode_loop
  decode_last z n r e =
      let l = log2_first_set_lem x ne word in
      let same : (2 ^ p == x) ≡ true = ground arith in
      let whole : z / 1 ≡ z = omega arith in
      rw (
        first_set-pow x ne word,
        same,
        explicit_end_lem z true,
        whole,
        mask_lem z p l.0,
        min_log2-pow p l.0,
      )

  pub decode_hit :
      (z n r : ℕ)
      → x ≢ 2 ^ p
      → z % 2 ≡ 1
      → decode_loop (suc f) x z n r ≡ some (add r (z / 2 % 2 ^ p), add n (add p 1), x)
  unfolding decode_loop
  decode_hit z n r e odd =
      let l = log2_first_set_lem x ne word in
      rw (
        first_set-pow x ne word,
        ==_ne (2 ^ p) x (λ q. e (sym q)),
        explicit_end_lem z false,
        odd,
        mask_lem (z / 2) p l.0,
        min_log2-pow p l.0,
      )

  pub decode_miss :
      (z n r : ℕ)
      → x ≢ 2 ^ p
      → z % 2 ≡ 0
      → decode_loop (suc f) x z n r
        ≡ decode_loop f (bit_xor x (2 ^ p)) (z / 2) (add n 1) (add r (2 ^ p))
  unfolding decode_loop
  decode_miss z n r e even =
      rw (first_set-pow x ne word, ==_ne (2 ^ p) x (λ q. e (sym q)), explicit_end_lem z false, even)

  -- The three rounds of the encoder, on data that is below 2 ^ p or not.
  pub encode_last :
      (d s : ℕ)
      → x ≡ 2 ^ p
      → d < 2 ^ p
      → encode_loop (suc f) x d s ≡ some (shl d s, add (add p s) 0)
  unfolding encode_loop
  encode_last d s e lt =
      let l = log2_first_set_lem x ne word in
      let same : (2 ^ p == x) ≡ true = ground arith in
      let small : d % 2 ^ p ≡ d = mod-eq_of_lt lt in
      let pos : (2 ^ p == 0) ≡ false = ground (arith, pow_pos p) in
      let keep : d * 1 % uword_mod ≡ d = omega (arith, class-le) in
      rw (
        first_set-pow x ne word,
        same,
        mask_lem d p l.0,
        small,
        ==_refl d,
        pos,
        min_log2-pow p l.0,
        keep,
        bit_or-zero d,
      )

  pub encode_hit :
      (d s : ℕ)
      → x ≢ 2 ^ p
      → d < 2 ^ p
      → encode_loop (suc f) x d s ≡ some (shl (d * 2 + 1) s, add (add p s) 1)
  unfolding encode_loop
  encode_hit d s e lt =
      let l = log2_first_set_lem x ne word in
      let small : d % 2 ^ p ≡ d = mod-eq_of_lt lt in
      let pos : (2 ^ p == 0) ≡ false = ground (arith, pow_pos p) in
      let keep : d * 2 % uword_mod ≡ d * 2 = omega (arith, class-le) in
      rw (
        first_set-pow x ne word,
        ==_ne (2 ^ p) x (λ q. e (sym q)),
        mask_lem d p l.0,
        small,
        ==_refl d,
        pos,
        min_log2-pow p l.0,
        keep,
        bit_or_odd d,
      )

  pub encode_miss :
      (d s : ℕ)
      → x ≢ 2 ^ p
      → 2 ^ p ≤ d
      → encode_loop (suc f) x d s ≡ encode_loop f (bit_xor x (2 ^ p)) (sub d (2 ^ p)) (s + 1)
  unfolding encode_loop
  encode_miss d s e le =
      let l = log2_first_set_lem x ne word in
      let big : d % 2 ^ p ≢ d = λ q. absurd (omega (arith, mod-lt d {m = 2 ^ p} (pow_pos p))) in
      rw (
        first_set-pow x ne word,
        ==_ne (2 ^ p) x (λ q. e (sym q)),
        mask_lem d p l.0,
        ==_ne (d % 2 ^ p) d big,
      )
