-- ===== src/Zvec/Streams.antt =====
-- Streams of compressed data: zvec_encode_inline and zvec_decode_inline on the bits of a map.
use native.Mathlib.Nat.{mod-lt, mod-eq_of_lt}
use uclib.Base.{
  ℕ, suc, ◌+◌, ◌-◌, ◌*◌, ◌/◌, ◌%◌, ◌^◌, ◌≤◌, ◌<◌, ◌≡◌, ◌≢◌, refl, ◌∙◌, ap, Bool, true, false, ◌&&◌,
  All, some, List, [], ◌∷◌, arith, ltb, leb, if◌then◌else◌, Bool-cases, inl, inr, length,
}
use uclib.Word.Bits.{test_bit, test_bit-mod, test_bit-beyond, word_ext, pow_pos, pow_lt}
use uclib.Bitmap.{Bitmap, get, get_multiple, set_multiple}
use uclib.Bitmap.Alu.{IsWords}
use uclib.Bitmap.Field.{get_multiple_lem}
use uclib.Bitmap.Field.Write.{get-set_multiple, set_multiple-IsWords}
use uclib.Zvec.{
  zvec_encode, zvec_decode, known_size, get_data, put_data, zvec_encode_inline, decode_from,
  zvec_decode_inline,
}
use uclib.Zvec.RoundTrip.{decode-encode}
use uclib.Zvec.Longest.{coding_max_n_bits_lem}

parts : (g q : ℕ) → 1 ≤ q → g ≡ g % q + g / q * q
parts g q h = grind arith

-- A read of `m` bits where the `n` lowest are those of `z`.
read_lem :
    (b : Bitmap) (i n m z : ℕ)
    → IsWords b
    → n ≤ m
    → m ≤ 63
    → z < 2 ^ n
    → ((j : ℕ) → j < n → get b (i + j) ≡ test_bit z j)
    → (e : ℕ) × (get_multiple b i m ≡ z + e * 2 ^ n)
read_lem b i n m z w le small fits bits =
    let g = get_multiple b i m in
    let low : g % 2 ^ n ≡ z = word_ext n (g % 2 ^ n) z (mod-lt g (pow_pos n)) fits (λ j.
      elim (Bool-cases (ltb j n)) [
        | inl inside ↦ ground (
          arith,
          test_bit-mod n g j,
          get_multiple_lem b i m j w (omega arith) (ground arith),
          bits j,
        )
        | inr outside ↦
            ground (arith, test_bit-mod n g j, test_bit-beyond n z j fits (ground arith))
      ]) in
    (g / 2 ^ n, parts g (2 ^ n) (pow_pos n) ∙ rw low refl)

-- A datum that the coding has a code for and that fits its size.
abbrev pub fits : ℕ → ℕ → ℕ → Bool
fits coding data_bytes x = ltb x coding && ltb x (2 ^ (8 * data_bytes))

get_data_lem :
    (x data_bytes : ℕ) → known_size data_bytes ≡ true → get_data x data_bytes false ≡ some x
unfolding get_data
get_data_lem x data_bytes h = rw h refl

put_data_lem :
    (x data_bytes : ℕ)
    → known_size data_bytes ≡ true
    → x < 2 ^ (8 * data_bytes)
    → put_data data_bytes false x ≡ some x
unfolding put_data
put_data_lem x data_bytes h lt = rw (h, mod-eq_of_lt lt) refl

-- What a stream of codes from bit `i` to bit `i'` of the map `b'` is: the bits before are those of
-- `b`, and the data are read back from any map of words with the same bits up to `i'`.
record IsStream (coding m data_bytes i : ℕ) (b : Bitmap) (elts : List ℕ) : Type 0 where
  b' : Bitmap
  i' : ℕ
  encodes : zvec_encode_inline b i coding elts data_bytes false ≡ some (b', i')
  words : IsWords b'
  later : i ≤ i'
  before : (j : ℕ) → j < i → get b' j ≡ get b j
  reads :
      (c : Bitmap)
      → IsWords c
      → ((j : ℕ) → j < i' → get c j ≡ get b' j)
      → decode_from c coding m (length elts) data_bytes false i ≡ some (elts, i')

encode_step :
    (b : Bitmap) (i coding x data_bytes z n : ℕ) (elts : List ℕ) {r : Bitmap × ℕ}
    → known_size data_bytes ≡ true
    → zvec_encode coding x ≡ some (z, n)
    → zvec_encode_inline (set_multiple b i z n) (i + n) coding elts data_bytes false ≡ some r
    → zvec_encode_inline b i coding (x ∷ elts) data_bytes false ≡ some r
unfolding zvec_encode_inline
encode_step b i coding x data_bytes z n elts known h k = rw (get_data_lem x data_bytes known, h) k

decode_step :
    (c : Bitmap) (coding m n_data data_bytes i x n i' : ℕ) (elts : List ℕ)
    → known_size data_bytes ≡ true
    → x < 2 ^ (8 * data_bytes)
    → zvec_decode coding (get_multiple c i m) ≡ some (x, n)
    → decode_from c coding m n_data data_bytes false (i + n) ≡ some (elts, i')
    → decode_from c coding m (suc n_data) data_bytes false i ≡ some (x ∷ elts, i')
unfolding decode_from
decode_step c coding m n_data data_bytes i x n i' elts known lt h k =
    rw (h, put_data_lem x data_bytes known lt, k) refl

at_place :
    (b : Bitmap) (i n j z : ℕ)
    → j < n
    → (if leb i (i + j) && ltb (i + j) (i + n) then test_bit z (i + j - i) else get b (i + j))
      ≡ test_bit z j
at_place b i n j z p = let e : i + j - i ≡ j = omega arith in ground (arith, ap (test_bit z) e)

module _ (coding data_bytes m : ℕ) (bounded : coding < 2 ^ 32)
    (known : known_size data_bytes ≡ true) (short : m ≤ 63)
    (longest : (x z n : ℕ) → x < coding → zvec_encode coding x ≡ some (z, n) → n ≤ m) where
  cons-IsStream :
      (x z n : ℕ) (elts : List ℕ) (i : ℕ) (b : Bitmap)
      → x < 2 ^ (8 * data_bytes)
      → zvec_encode coding x ≡ some (z, n)
      → z < 2 ^ n
      → n ≤ m
      → ((e : ℕ) → zvec_decode coding (z + e * 2 ^ n) ≡ some (x, n))
      → IsStream coding m data_bytes (i + n) (set_multiple b i z n) elts
      → IsStream coding m data_bytes i b (x ∷ elts)
  cons-IsStream x z n elts i b lt enc small le dec s =
      let put = λ (j : ℕ). get-set_multiple b i z n j (omega arith) in
      record {
        b' = s.b';
        i' = s.i';
        encodes = encode_step b i coding x data_bytes z n elts known enc s.encodes;
        words = s.words;
        later = omega (arith, s.later);
        before = λ j p. s.before j (omega arith) ∙ (put j ∙ ground arith);
        reads = λ c wc same.
            let bits : (j : ℕ) → j < n → get c (i + j) ≡ test_bit z j = λ j p.
              same (i + j) (omega (arith, s.later))
              ∙ (s.before (i + j) (omega arith) ∙ (put (i + j) ∙ at_place b i n j z p)) in
            let (e, g) = read_lem c i n m z wc le short small bits in
            decode_step c coding m (length elts) data_bytes i x n s.i' elts known lt
              (ap (zvec_decode coding) g ∙ dec e) (s.reads c wc same);
      }

  encode_inline-IsStream :
      (elts : List ℕ) (i : ℕ) (b : Bitmap)
      → All (fits coding data_bytes) elts
      → IsWords b
      → IsStream coding m data_bytes i b elts
  unfolding zvec_encode_inline decode_from
  encode_inline-IsStream [] i b h w = record {
    b' = b;
    i' = i;
    encodes = refl;
    words = w;
    later = omega arith;
    before = λ j p. refl;
    reads = λ c wc same. refl;
  }
  encode_inline-IsStream (x ∷ elts) i b h w =
      let lt : (x < coding) × (x < 2 ^ (8 * data_bytes)) = ground (arith, h.0) in
      let (z, n, enc, small, n_short, dec) = decode-encode coding x bounded lt.0 in
      cons-IsStream x z n elts i b lt.1 enc small (longest x z n lt.0 enc) dec (
        encode_inline-IsStream elts (i + n) (set_multiple b i z n) h.1
          (set_multiple-IsWords b i z n (omega (arith, pow_lt n 64 (omega arith))) w))

-- For a coding of 32 bits and unsigned data of 1, 2, 4 or 8 bytes that are below the coding, the
-- encoder appends its codes at any bit of a map without changing the bits before, and the decoder
-- reads the same data back and ends at the same bit.
pub zvec_decode_inline-encode_inline :
    (b : Bitmap) (i coding data_bytes : ℕ) (elts : List ℕ)
    → coding ≢ 0
    → coding < 2 ^ 32
    → known_size data_bytes ≡ true
    → All (fits coding data_bytes) elts
    → IsWords b
    → (b' : Bitmap) × (i' : ℕ) × (zvec_encode_inline b i coding elts data_bytes false
        ≡ some (b', i'))
      × ((j : ℕ) → j < i → get b' j ≡ get b j)
      × (zvec_decode_inline b' i coding (length elts) data_bytes false ≡ some (elts, i'))
unfolding zvec_decode_inline
zvec_decode_inline-encode_inline b i coding data_bytes elts ne bounded known h w =
    let (m, longest, short, bounds) = coding_max_n_bits_lem coding ne bounded in
    let s = encode_inline-IsStream coding data_bytes m bounded known short bounds elts i b h w in
    (s.b', s.i', s.encodes, s.before, rw longest (s.reads s.b' s.words (λ j p. refl)))
