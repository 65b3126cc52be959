-- ===== src/Bitmap/Field/Write.antt =====
-- `clib_bitmap_set_multiple`: the bits of a map after a field is written.
use uclib.Base.{
  ℕ, ◌+◌, ◌-◌, ◌/◌, ◌%◌, ◌^◌, ◌≤◌, ◌<◌, bit_and, bit_or, ◌≡◌, ◌∙◌, ap, ◌&&◌, arith, ltb, leb, ◌==◌,
  if◌then◌else◌, Bool-cases, inl, inr, length, set, get_or-set, length-set, ==_ne,
}
use uclib.Word.{shl, shr, bit_not}
use uclib.Word.Bits.{
  test_bit, test_bit-and, test_bit-or, test_bit-not, test_bit-shr, pow_pos, bit_and-lt, bit_or-lt,
}
use uclib.Bitmap.{Bitmap, word_at, get, vec_validate, set_multiple, low_ones, value_mask, put_field}
use uclib.Bitmap.Trim.{get-bit_at, length-vec_validate}
use uclib.Bitmap.Bits.{get-vec_validate}
use uclib.Bitmap.Alu.{IsWords}
use uclib.Bitmap.Whole.{set-IsWords, vec_validate-IsWords}
use uclib.Bitmap.Field.{test_bit-low_ones, test_bit-value_mask, test_bit-shl_word}

-- A mask `m` of `n` ones at bit `i1` replaces those bits of the word.
test_bit-put_field :
    (t m n i1 value k : ℕ)
    → ((p : ℕ) → test_bit m p ≡ ltb p n)
    → k < 64
    → test_bit (put_field t m i1 (bit_and value m)) k
      ≡ (if leb i1 k && ltb k (i1 + n) then test_bit value (k - i1) else test_bit t k)
unfolding put_field
test_bit-put_field t m n i1 value k mask hk = ground (
  arith,
  test_bit-or (bit_and t (bit_not (shl m i1))) (shl (bit_and value m) i1) k,
  test_bit-and t (bit_not (shl m i1)) k,
  test_bit-not 64 (shl m i1) k (omega arith) hk,
  test_bit-shl_word m i1 k hk,
  test_bit-shl_word (bit_and value m) i1 k hk,
  test_bit-and value m (k - i1),
  mask (k - i1),
)

-- The second word takes the upper `n - p` bits of the field into its lowest places.
test_bit-put_rest :
    (t m n p value k : ℕ)
    → ((q : ℕ) → test_bit m q ≡ ltb q n)
    → n - p < 64
    → k < 64
    → test_bit (bit_or (bit_and t (bit_not (low_ones (n - p)))) (shr (bit_and value m) p)) k
      ≡ (if ltb k (n - p) then test_bit value (p + k) else test_bit t k)
test_bit-put_rest t m n p value k mask hp hk = ground (
  arith,
  test_bit-or (bit_and t (bit_not (low_ones (n - p)))) (shr (bit_and value m) p) k,
  test_bit-and t (bit_not (low_ones (n - p))) k,
  test_bit-not 64 (low_ones (n - p)) k (omega arith) hk,
  test_bit-low_ones (n - p) k hp,
  test_bit-shr (bit_and value m) p k,
  test_bit-and value m (p + k),
  mask (p + k),
)

-- The two writes, on a map that has the words.
abbrev written : Bitmap → ℕ → ℕ → ℕ → ℕ → Bitmap
written v i m value n =
    let b = set v (i / 64) (put_field (word_at v (i / 64)) m (i % 64) (bit_and value m)) in
    let t = 64 - i % 64 in
    if ltb 64 (i % 64 + n) && ltb (i / 64 + 1) (length v)
    then set b (i / 64 + 1) (
        bit_or (bit_and (word_at b (i / 64 + 1)) (bit_not (low_ones (n - t))))
          (shr (bit_and value m) t))
    else b

word_at-written :
    (v : Bitmap) (i m value n j : ℕ)
    → (i + n) / 64 < length v
    → word_at (written v i m value n) j ≡ (
        if i / 64 == j
        then put_field (word_at v (i / 64)) m (i % 64) (bit_and value m)
        else if ltb 64 (i % 64 + n) && i / 64 + 1 == j
        then bit_or
            (bit_and (word_at v (i / 64 + 1)) (bit_not (low_ones (n - (64 - i % 64)))))
            (shr (bit_and value m) (64 - i % 64))
        else word_at v j)
word_at-written v i m value n j h =
    let i0 = i / 64 in
    let t = 64 - i % 64 in
    let b = set v i0 (put_field (word_at v i0) m (i % 64) (bit_and value m)) in
    let rest =
      bit_or (bit_and (word_at b (i0 + 1)) (bit_not (low_ones (n - t))))
        (shr (bit_and value m) t) in
    let first = λ (k : ℕ).
      get_or-set v i0 k (put_field (word_at v i0) m (i % 64) (bit_and value m)) 0 (omega arith) in
    let other : word_at b (i0 + 1) ≡ word_at v (i0 + 1) =
      first (i0 + 1) ∙ rw (==_ne i0 (i0 + 1) (omega arith)) in
    elim (Bool-cases (ltb 64 (i % 64 + n) && ltb (i0 + 1) (length v))) [
      | inl two ↦
          rw (two, get_or-set b (i0 + 1) j rest 0 (rw (length-set v i0 _) (ground arith)), other)
            (ground (arith, first j))
      | inr one ↦ rw (one, first j) (ground arith)
    ]

get-written :
    (v : Bitmap) (i m value n j : ℕ)
    → ((q : ℕ) → test_bit m q ≡ ltb q n)
    → n ≤ 64
    → (i + n) / 64 < length v
    → get (written v i m value n) j
      ≡ (if leb i j && ltb j (i + n) then test_bit value (j - i) else get v j)
get-written v i m value n j mask hn h =
    let i0 = i / 64 in
    let k = j % 64 in
    let p = 64 - i % 64 in
    rw
      (
        get-bit_at (written v i m value n) j,
        get-bit_at v j,
        word_at-written v i m value n (j / 64) h,
      )
      (elim (Bool-cases (i0 == j / 64)) [
        | inl same ↦
            let e : k - i % 64 ≡ j - i = ground arith in
            let w : word_at v i0 ≡ word_at v (j / 64) = ap (word_at v) (ground arith) in
            rw
              (
                same,
                test_bit-put_field (word_at v i0) m n (i % 64) value k mask (omega arith),
                e,
                w,
              )
              (ground arith)
        | inr other ↦ rw other (elim (Bool-cases (ltb 64 (i % 64 + n) && i0 + 1 == j / 64)) [
          | inl second ↦
              let e : p + k ≡ j - i = ground arith in
              let w : word_at v (i0 + 1) ≡ word_at v (j / 64) = ap (word_at v) (ground arith) in
              rw
                (
                  second,
                  test_bit-put_rest (word_at v (i0 + 1)) m n p value k mask (omega arith)
                      (omega arith),
                  e,
                  w,
                )
                (ground arith)
          | inr neither ↦ rw neither (ground arith)
        ])
      ])

-- `set_multiple` writes the `n` lowest bits of the value at bit `i` and keeps every other bit.
pub get-set_multiple :
    (b : Bitmap) (i value n j : ℕ)
    → n ≤ 64
    → get (set_multiple b i value n) j
      ≡ (if leb i j && ltb j (i + n) then test_bit value (j - i) else get b j)
unfolding set_multiple
get-set_multiple b i value n j hn =
    get-written (vec_validate b ((i + n) / 64)) i (value_mask n) value n j
      (λ q. test_bit-value_mask n q hn) hn (length-vec_validate b ((i + n) / 64)).0
    ∙ rw (get-vec_validate b ((i + n) / 64) j)

shr_lt : (x k : ℕ) → x < 2 ^ 64 → x / 2 ^ k < 2 ^ 64
shr_lt x k h = grind (arith, pow_pos k)

-- Writing a field keeps the words of a map within 64 bits.
pub set_multiple-IsWords :
    (b : Bitmap) (i value n : ℕ) → value < 2 ^ 64 → IsWords b → IsWords (set_multiple b i value n)
unfolding set_multiple put_field
set_multiple-IsWords b i value n small w =
    let v = vec_validate b ((i + n) / 64) in
    let m = value_mask n in
    let i0 = i / 64 in
    let inside : i0 < length v = omega (arith, (length-vec_validate b ((i + n) / 64)).0) in
    let wv = vec_validate-IsWords b ((i + n) / 64) w in
    let a =
      bit_or (bit_and (word_at v i0) (bit_not (shl m (i % 64)))) (shl (bit_and value m) (i % 64)) in
    let wb : IsWords (set v i0 a) =
      set-IsWords v i0 a inside wv
        (bit_or-lt 64 _ _ (bit_and-lt 64 (word_at v i0) _ (wv i0)) (omega arith)) in
    elim (Bool-cases (ltb 64 (i % 64 + n) && ltb (i0 + 1) (length v))) [
      | inl two ↦ rw two (
          set-IsWords (set v i0 a) (i0 + 1) _ (rw (length-set v i0 a) (ground arith)) wb (
            bit_or-lt 64 _ _ (bit_and-lt 64 (word_at (set v i0 a) (i0 + 1)) _ (wb (i0 + 1)))
              (shr_lt (bit_and value m) (64 - i % 64) (bit_and-lt 64 value m small))))
      | inr one ↦ rw one wb
    ]
