-- ===== src/Bitmap/Bits.antt =====
-- The operations on one bit, `clib_bitmap_set` and its kin, and the tests on whole maps, stated by
-- the bits of the maps.
use uclib.Base.{
  ℕ, ◌-◌, ◌/◌, ◌%◌, ◌^◌, ◌≤◌, ◌<◌, bit_and, bit_or, bit_xor, ◌≡◌, sym, ◌∙◌, ap, Bool, true, false,
  not, ◌&&◌, ◌||◌, xor, arith, leb, ◌==◌, if◌then◌else◌, Bool-cases, inl, inr, length, set,
  get_or-set, get_or-beyond,
}
use uclib.Word.{shl, bit_not}
use uclib.Word.Bits.{
  test_bit, test_bit-and, test_bit-or, test_bit-xor, test_bit-pow, test_bit-zero, test_bit-not_one,
  test_bit-mask, shl_one,
}
use uclib.Bitmap.{
  Bitmap, word_at, vec_validate, remove_trailing_zeros, put_bit, set_no_check, set_word, set_bit,
  get, alu_immediate, andi, andnoti, ori, xori, andnot_word,
}
use uclib.Bitmap.Trim.{
  bit_at, get-bit_at, word_at-vec_validate, length-vec_validate, word_at-remove_trailing_zeros,
}

test_bit-put_bit :
    (a i v k : ℕ)
    → i < 64
    → k < 64
    → test_bit (put_bit a i v) k ≡ (if i == k then not (v == 0) else test_bit a k)
unfolding put_bit
test_bit-put_bit a i v k p q = elim (Bool-cases (v == 0)) [
  | inl z ↦ rw z (
      ground (
        arith,
        test_bit-or (bit_and a (bit_not (shl 1 i))) 0 k,
        test_bit-zero k,
        test_bit-and a (bit_not (shl 1 i)) k,
        test_bit-not_one i k p q,
      ))
  | inr nz ↦
      rw (nz, shl_one i p)
        (ground (
          arith,
          test_bit-or (bit_and a (2 ^ 64 - 1 - 2 ^ i)) (2 ^ i) k,
          test_bit-pow i k,
          test_bit-and a (2 ^ 64 - 1 - 2 ^ i) k,
          rw (shl_one i p) at (test_bit-not_one i k p q),
        ))
]

-- Bit `j` is bit `i` exactly when word and position agree.
pub same_bit : (i j : ℕ) → (i == j) ≡ (i / 64 == j / 64 && i % 64 == j % 64)
same_bit i j = ground arith

-- Writing one word, at the index of bit `i`.
pub bit_at-set :
    (v : Bitmap) (i a j : ℕ)
    → i / 64 < length v
    → bit_at (set v (i / 64) a) j ≡ (if i / 64 == j / 64 then test_bit a (j % 64) else bit_at v j)
bit_at-set v i a j h = elim (Bool-cases (i / 64 == j / 64)) [
  | inl same ↦ rw (get_or-set v (i / 64) (j / 64) a 0 h, same)
  | inr other ↦ rw (get_or-set v (i / 64) (j / 64) a 0 h, other)
]

pub bit_at-vec_validate : (ai : Bitmap) (i j : ℕ) → bit_at (vec_validate ai i) j ≡ bit_at ai j
bit_at-vec_validate ai i j =
    ap (λ (t : ℕ). test_bit t (j % 64)) (word_at-vec_validate ai i (j / 64))

pub get-vec_validate : (ai : Bitmap) (i j : ℕ) → get (vec_validate ai i) j ≡ get ai j
get-vec_validate ai i j =
    get-bit_at (vec_validate ai i) j ∙ bit_at-vec_validate ai i j ∙ sym (get-bit_at ai j)

pub bit_at-remove_trailing_zeros :
    (a : Bitmap) (j : ℕ) → bit_at (remove_trailing_zeros a) j ≡ bit_at a j
bit_at-remove_trailing_zeros a j =
    ap (λ (t : ℕ). test_bit t (j % 64)) (word_at-remove_trailing_zeros a (j / 64))

pub bit_at-beyond : (ai : Bitmap) (j : ℕ) → length ai ≤ j / 64 → bit_at ai j ≡ false
bit_at-beyond ai j h = rw (get_or-beyond ai (j / 64) 0 h) (test_bit-zero (j % 64))

bit_at-set_word :
    (v : Bitmap) (i a j : ℕ) → bit_at (set_word v (i / 64) a) j ≡ bit_at (set v (i / 64) a) j
unfolding set_word
bit_at-set_word v i a j = ground (arith, bit_at-remove_trailing_zeros (set v (i / 64) a) j)

bit_at-put :
    (v : Bitmap) (i value j : ℕ)
    → i / 64 < length v
    → bit_at (set v (i / 64) (put_bit (word_at v (i / 64)) (i % 64) value)) j
      ≡ (if i == j then not (value == 0) else bit_at v j)
bit_at-put v i value j h = elim (Bool-cases (i / 64 == j / 64)) [
  | inl same ↦
      let e : word_at v (i / 64) ≡ word_at v (j / 64) = ap (word_at v) (ground arith) in
      ground (
        arith,
        bit_at-set v i (put_bit (word_at v (i / 64)) (i % 64) value) j h,
        same_bit i j,
        test_bit-put_bit (word_at v (i / 64)) (i % 64) value (j % 64),
        ap (λ (t : ℕ). test_bit t (j % 64)) e,
      )
  | inr other ↦
      ground (arith, bit_at-set v i (put_bit (word_at v (i / 64)) (i % 64) value) j h, same_bit i j)
]

-- Setting bit `i` to a value makes it the truth value of that value and keeps every other bit, also
-- where the map grows and where trailing zero words are removed.
pub get-set_bit :
    (ai : Bitmap) (i value j : ℕ)
    → get (set_bit ai i value) j ≡ (if i == j then not (value == 0) else get ai j)
unfolding set_bit
get-set_bit ai i value j =
    rw (get-bit_at (set_bit ai i value) j, get-bit_at ai j)
      (elim (Bool-cases (value == 0 && leb (length ai) (i / 64))) [
        | inl past ↦ rw past (ground (arith, bit_at-beyond ai i, ap (bit_at ai), same_bit i j))
        | inr inside ↦
            let v = vec_validate ai (i / 64) in
            rw inside (
              bit_at-set_word v i _ j
              ∙ bit_at-put v i value j (length-vec_validate ai (i / 64)).0
              ∙ rw (bit_at-vec_validate ai (i / 64) j))
      ])

-- `set_no_check` on a word of the map: the old value of the bit, and the map with the bit replaced.
set_no_check_lem :
    (ai : Bitmap) (i value j : ℕ)
    → i / 64 < length ai
    → ((set_no_check ai i value).1 ≡ (if get ai i then 1 else 0))
      × (get (set_no_check ai i value).0 j ≡ (if i == j then not (value == 0) else get ai j))
unfolding set_no_check
set_no_check_lem ai i value j h = (
  rw (get-bit_at, shl_one (i % 64) (omega arith), test_bit-mask),
  rw (get-bit_at, get-bit_at) (bit_at-put ai i value j h),
)

-- The immediate operations change the one word that holds bit `i`.
bit_at-alu_immediate :
    (body : ℕ → ℕ → ℕ) (check_zero : Bool) (ai : Bitmap) (i j : ℕ)
    → bit_at (alu_immediate body check_zero ai i) j ≡ (
        if i / 64 == j / 64
        then test_bit (body (word_at ai (i / 64)) (2 ^ (i % 64))) (j % 64)
        else bit_at ai j)
unfolding alu_immediate
bit_at-alu_immediate body check_zero ai i j =
    let v = vec_validate ai (i / 64) in
    let a = body (word_at v (i / 64)) (shl 1 (i % 64)) in
    let r = set v (i / 64) a in
    let trim : bit_at (if check_zero && a == 0 then remove_trailing_zeros r else r) j ≡ bit_at r j =
      ground (arith, bit_at-remove_trailing_zeros r j) in
    trim
    ∙ bit_at-set v i a j (length-vec_validate ai (i / 64)).0
    ∙ rw (bit_at-vec_validate ai (i / 64) j, word_at-vec_validate, shl_one (i % 64) (omega arith))

bit_at-same_word :
    (ai : Bitmap) (i j : ℕ)
    → (i / 64 == j / 64) ≡ true
    → test_bit (word_at ai (i / 64)) (j % 64) ≡ bit_at ai j
bit_at-same_word ai i j h =
    let e : i / 64 ≡ j / 64 = ground arith in ap (λ (t : ℕ). test_bit (word_at ai t) (j % 64)) e

-- What the four bodies do to a bit of the word, the other operand having one bit set.
immediate_bits :
    (w p k : ℕ)
    → p < 64
    → k < 64
    → (test_bit (bit_or w (2 ^ p)) k ≡ (p == k || test_bit w k))
      × (test_bit (andnot_word w (2 ^ p)) k ≡ (test_bit w k && not (p == k)))
      × (test_bit (bit_xor w (2 ^ p)) k ≡ xor (test_bit w k) (p == k))
      × (test_bit (bit_and w (2 ^ p)) k ≡ (test_bit w k && p == k))
immediate_bits w p k hp hk = (
  ground (arith, test_bit-or w (2 ^ p) k, test_bit-pow p k),
  ground (
    arith,
    test_bit-and w (2 ^ 64 - 1 - 2 ^ p) k,
    rw (shl_one p hp) at (test_bit-not_one p k hp hk),
  ),
  rw (test_bit-xor, test_bit-pow),
  rw (test_bit-and, test_bit-pow),
)

-- Or, and-not and exclusive or with a single bit set, clear and flip that bit and keep the others.
-- And with a single bit keeps that bit, clears the others of its word, and leaves the other words.
pub get-immediate :
    (ai : Bitmap) (i j : ℕ)
    → (get (ori ai i) j ≡ (i == j || get ai j))
      × (get (andnoti ai i) j ≡ (get ai j && not (i == j)))
      × (get (xori ai i) j ≡ xor (get ai j) (i == j))
      × (get (andi ai i) j ≡ (if i / 64 == j / 64 then get ai j && i == j else get ai j))
unfolding ori andnoti xori andi
get-immediate ai i j =
    let b = immediate_bits (word_at ai (i / 64)) (i % 64) (j % 64) (omega arith) (omega arith) in
    let w = bit_at-same_word ai i j in
    simp (get-bit_at, bit_at-alu_immediate)
      (rw (same_bit i j) (elim (Bool-cases (i / 64 == j / 64)) [
        | inl same ↦ rw (same, b.0, b.1, b.2, b.3) (rw (w same) (ground arith))
        | inr other ↦ rw other (ground arith)
      ]))
