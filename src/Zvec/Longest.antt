-- ===== src/Zvec/Longest.antt =====
-- The code of the bits 0 0 ... 0 is the longest: `coding_max_n_bits` bounds every code.
use uclib.Base.{
  ℕ, zero, suc, ◌+◌, ◌-◌, ◌%◌, ◌^◌, ◌≤◌, ◌<◌, bit_xor, ◌≡◌, ◌≢◌, refl, sym, ◌∙◌, ap, Option, some,
  arith, ltb, ◌==◌, Bool-cases, inl, inr, ==_ne,
}
use uclib.Word.{uword_mod, add, sub, log2_first_set}
use uclib.Word.FirstSet.{log2_first_set_lem, first_set-pow, clear_first_set}
use uclib.Zvec.{
  decode_loop, encode_loop, zvec_decode_result, zvec_encode, zvec_decode, coding_max_n_bits,
}
use uclib.Zvec.Code.{decode_last, decode_miss, encode_last, encode_hit, encode_miss}
use uclib.Zvec.RoundTrip.{Low, p_lt, s_le, next-Low, next_sum}

-- The length `m` of the code of zeros, from class `s` on, and that no code is longer.
record Longest (f x s r : ℕ) : Type 0 where
  res : ℕ
  m : ℕ
  y : ℕ
  decodes : decode_loop f x 0 s r ≡ some (res, m, y)
  more : y ≢ 0
  above : s + log2_first_set x ≤ m
  short : m ≤ 63
  bounds : (d w k : ℕ) → d < x → encode_loop f x d s ≡ some (w, k) → k ≤ m

length_part : (a b w k : ℕ) → ◌≡◌ {A = Option (ℕ × ℕ)} (some (a, b)) (some (w, k)) → b ≡ k
length_part a b w k h = cc

module _ (x s : ℕ) (ne : x ≢ 0) (fits : x < 2 ^ 32) (low : Low s x) where
  abbrev p : ℕ
  p = log2_first_set x

  last-Longest : (f r : ℕ) → x ≡ 2 ^ p → Longest (suc f) x s r
  last-Longest f r e = record {
    res = add r (0 % 2 ^ p);
    m = s + p;
    y = x;
    decodes =
        decode_last f x ne fits 0 s r e
        ∙ ap (λ (t : ℕ). some (add r (0 % 2 ^ p), t, x))
            (omega (arith, p_lt x s ne fits low, s_le x s ne fits low));
    more = ne;
    above = omega arith;
    short = omega (arith, p_lt x s ne fits low, s_le x s ne fits low);
    bounds = λ d w k lt h. omega (
      arith,
      length_part _ _ w k (sym (encode_last f x ne fits d s e (omega arith)) ∙ h),
      p_lt x s ne fits low,
      s_le x s ne fits low,
    );
  }

  module _ (more : x ≢ 2 ^ p) where
    next_ne : bit_xor x (2 ^ p) ≢ 0
    next_ne h = more (omega (arith, next_sum x s ne fits low))

    next_place : p < log2_first_set (bit_xor x (2 ^ p))
    next_place =
        let sum = next_sum x s ne fits low in
        let word : x < uword_mod = omega arith in
        let c = (clear_first_set x ne word).1 (log2_first_set (bit_xor x (2 ^ p))) in
        let l = log2_first_set_lem (bit_xor x (2 ^ p)) next_ne (omega (arith, sum)) in
        ground (
          arith,
          rw (first_set-pow x ne word) at c,
          l.1,
          (log2_first_set_lem x ne word).2 (log2_first_set (bit_xor x (2 ^ p))),
        )

    miss-Longest :
        (f r : ℕ) → Longest f (bit_xor x (2 ^ p)) (s + 1) (add r (2 ^ p)) → Longest (suc f) x s r
    miss-Longest f r l = record {
      res = l.res;
      m = l.m;
      y = l.y;
      decodes =
          let e : add s 1 ≡ s + 1 = omega (arith, p_lt x s ne fits low, s_le x s ne fits low) in
          decode_miss f x ne fits 0 s r more refl ∙ rw e l.decodes;
      more = l.more;
      above = omega (arith, l.above, next_place);
      short = l.short;
      bounds = λ d w k lt h. elim (Bool-cases (ltb d (2 ^ p))) [
        | inl hit ↦ omega (
          arith,
          length_part _ _ w k (sym (encode_hit f x ne fits d s more (ground arith)) ∙ h),
          p_lt x s ne fits low,
          s_le x s ne fits low,
          l.above,
          next_place,
        )
        | inr miss ↦ l.bounds (d - 2 ^ p) w k (ground (arith, next_sum x s ne fits low)) (
            let e : sub d (2 ^ p) ≡ d - 2 ^ p = ground arith in
            rw e at (sym (encode_miss f x ne fits d s more (ground arith)) ∙ h))
      ];
    }

longest : (f x s r : ℕ) → x ≢ 0 → x < 2 ^ 32 → Low s x → 33 ≤ f + s → Longest f x s r
longest zero x s r ne fits low enough =
    absurd (omega (arith, p_lt x s ne fits low, s_le x s ne fits low))
longest (suc f) x s r ne fits low enough = elim (Bool-cases (x == 2 ^ log2_first_set x)) [
  | inl last ↦ last-Longest x s ne fits low f r (ground arith)
  | inr other ↦
      let more : x ≢ 2 ^ log2_first_set x = ground arith in
      miss-Longest x s ne fits low more f r (
        longest f (bit_xor x (2 ^ log2_first_set x)) (s + 1) (add r (2 ^ log2_first_set x))
          (next_ne x s ne fits low more) (omega (arith, next_sum x s ne fits low))
          (next-Low x s ne fits low) (omega arith))
]

zero_lem : (y : ℕ) → y ≢ 0 → (res m : ℕ) → zvec_decode_result (some (res, m, y)) ≡ some (res, m)
unfolding zvec_decode_result
zero_lem y h res m = rw (==_ne y 0 h) refl

decode_max :
    (coding v m : ℕ) → zvec_decode coding 0 ≡ some (v, m) → coding_max_n_bits coding ≡ some m
unfolding coding_max_n_bits
decode_max coding v m h = rw h refl

decode_zeros : (coding : ℕ) (l : Longest 65 coding 0 0) → zvec_decode coding 0 ≡ some (l.res, l.m)
unfolding zvec_decode
decode_zeros coding l = rw l.decodes (zero_lem l.y l.more l.res l.m)

-- For a coding of 32 bits `coding_max_n_bits` is at most 63, and no code is longer.
pub coding_max_n_bits_lem :
    (coding : ℕ)
    → coding ≢ 0
    → coding < 2 ^ 32
    → (m : ℕ) × (coding_max_n_bits coding ≡ some m)
      × (m ≤ 63)
      × ((dat z n : ℕ) → dat < coding → zvec_encode coding dat ≡ some (z, n) → n ≤ m)
unfolding zvec_encode
coding_max_n_bits_lem coding ne fits =
    let l = longest 65 coding 0 0 ne fits (λ k h. elim h [ ]) (omega arith) in
    (
      l.m,
      decode_max coding l.res l.m (decode_zeros coding l),
      l.short,
      λ dat z n lt h. l.bounds dat z n lt h,
    )
