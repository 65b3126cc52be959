-- ===== src/Bitmap/Whole.antt =====
-- Invariants of a map (no zero word at its end, every word within 64 bits) and the tests on whole
-- maps, `clib_bitmap_is_zero` and `clib_bitmap_is_equal`.
use uclib.Base.{
  ℕ, suc, ◌+◌, ◌-◌, ◌*◌, ◌/◌, ◌%◌, ◌^◌, ◌≤◌, ◌<◌, bit_and, ◌≡◌, ◌≢◌, ◌↔◌, refl, sym, ◌∙◌, ap, Bool,
  true, false, not, ◌&&◌, [], ◌∷◌, arith, ltb, leb, ◌==◌, Bool-cases, inl, inr, length, set,
  get_or-beyond, length-set, get_or-set, get_or_ext,
}
use uclib.Word.{shl, bit_not, from_bool}
use uclib.Word.Bits.{
  test_bit, test_bit-zero, test_bit-beyond, word_ext, bit_or-lt, bit_and-lt, pow_pos,
}
use uclib.Bitmap.{
  Bitmap, word_at, vec_validate, get, put_bit, set_word, set_bit, remove_trailing_zeros, is_zero,
  is_equal, equal_words, alu_immediate, andnoti, ori, andnot_word,
}
use uclib.Bitmap.Trim.{
  get-bit_at, word_at-vec_validate, length-vec_validate, length-vec_validate_eq, IsTrimmed,
  word_at-remove_trailing_zeros, remove_trailing_zeros-IsTrimmed,
}
use uclib.Bitmap.Alu.{IsWords, all_zero}

-- The words of a map are determined by its bits.
word_of_bits :
    (a b : Bitmap)
    → IsWords a
    → IsWords b
    → ((i : ℕ) → get a i ≡ get b i)
    → (j : ℕ) → word_at a j ≡ word_at b j
word_of_bits a b wa wb h j = word_ext 64 (word_at a j) (word_at b j) (wa j) (wb j) bits
  where
    bits : (k : ℕ) → test_bit (word_at a j) k ≡ test_bit (word_at b j) k
    bits k = elim (Bool-cases (ltb k 64)) [
      | inl inside ↦
          let q : (64 * j + k) / 64 ≡ j = ground arith in
          let r : (64 * j + k) % 64 ≡ k = ground arith in
          rw (q, r) at
            (sym (get-bit_at a (64 * j + k)) ∙ h (64 * j + k) ∙ get-bit_at b (64 * j + k))
      | inr beyond ↦ rw (
        test_bit-beyond 64 (word_at a j) k (wa j) (ground arith),
        test_bit-beyond 64 (word_at b j) k (wb j) (ground arith),
      )
    ]

trimmed_length :
    (a b : Bitmap) → IsTrimmed a → ((j : ℕ) → word_at a j ≡ word_at b j) → length a ≤ length b
trimmed_length a b t h = elim (Bool-cases (ltb (length b) (length a))) [
  | inl longer ↦
      absurd (t (ground arith) (h (length a - 1) ∙ get_or-beyond b (length a - 1) 0 (ground arith)))
  | inr fine ↦ ground arith
]

-- A trimmed map of words is determined by its bits.
pub bitmap_ext :
    (a b : Bitmap)
    → IsWords a × IsTrimmed a
    → IsWords b × IsTrimmed b
    → ((i : ℕ) → get a i ≡ get b i)
    → a ≡ b
bitmap_ext a b wa wb h =
    let w = word_of_bits a b wa.0 wb.0 h in
    let le = trimmed_length a b wa.1 w in
    let ge = trimmed_length b a wb.1 (λ j. sym (w j)) in get_or_ext 0 a b (omega arith) w

equal_words_iff : (a b : Bitmap) → length a ≡ length b → (equal_words a b ≡ true) ↔ (a ≡ b)
unfolding equal_words
equal_words_iff [] [] e = ground arith
equal_words_iff [] (y ∷ b) e = absurd (omega arith)
equal_words_iff (x ∷ a) [] e = absurd (omega arith)
equal_words_iff (x ∷ a) (y ∷ b) e = ground (arith, equal_words_iff a b (omega arith))

is_equal_iff_eq : (a b : Bitmap) → (is_equal a b ≡ true) ↔ (a ≡ b)
unfolding is_equal
is_equal_iff_eq a b = elim (Bool-cases (length a == length b)) [
  | inl same ↦ rw same (equal_words_iff a b (ground arith))
  | inr other ↦ rw other (ground (arith, λ (e : a ≡ b). ap (length {A = ℕ}) e))
]

-- On trimmed maps of words `is_equal` says exactly whether the maps have the same bits.
is_equal_iff :
    (a b : Bitmap)
    → IsWords a × IsTrimmed a
    → IsWords b × IsTrimmed b
    → (is_equal a b ≡ true) ↔ ((i : ℕ) → get a i ≡ get b i)
is_equal_iff a b wa wb = (
  λ e i. ap (λ m. get m i) ((is_equal_iff_eq a b).0 e),
  λ h. (is_equal_iff_eq a b).1 (bitmap_ext a b wa wb h),
)

is_zero_words : (a : Bitmap) → (is_zero a ≡ true) ↔ ((j : ℕ) → word_at a j ≡ 0)
unfolding is_zero
is_zero_words [] = (λ e j. refl, λ h. refl)
is_zero_words (x ∷ a) = elim (Bool-cases (x == 0)) [
  | inl z ↦ rw z (
    λ e. all_zero x a (ground arith) ((is_zero_words a).0 e),
    λ h. (is_zero_words a).1 (λ j. h (suc j)),
  )
  | inr nz ↦ rw nz (λ e. cc, λ h. absurd (ground (arith, h 0)))
]

get_empty : (i : ℕ) → get [] i ≡ false
get_empty i = get-bit_at [] i ∙ test_bit-zero (i % 64)

-- `is_zero` says exactly whether no bit of the map is set.
is_zero_iff : (a : Bitmap) → IsWords a → (is_zero a ≡ true) ↔ ((i : ℕ) → get a i ≡ false)
is_zero_iff a w = (
  λ e i.
      get-bit_at a i
      ∙ ap (λ (t : ℕ). test_bit t (i % 64)) ((is_zero_words a).0 e (i / 64))
      ∙ test_bit-zero (i % 64),
  λ h. (is_zero_words a).1 (word_of_bits a [] w (λ j. pow_pos 64) (λ i. h i ∙ sym (get_empty i))),
)

put_bit-lt : (a i v : ℕ) → a < 2 ^ 64 → put_bit a i v < 2 ^ 64
unfolding put_bit
put_bit-lt a i v h =
    bit_or-lt 64 (bit_and a (bit_not (shl 1 i))) (shl (from_bool (not (v == 0))) i)
      (bit_and-lt 64 a (bit_not (shl 1 i)) h) (omega arith)

pub set-IsWords :
    (v : Bitmap) (i a : ℕ) → i < length v → IsWords v → a < 2 ^ 64 → IsWords (set v i a)
set-IsWords v i a h w p j =
    rw (get_or-set v i j a 0 h)
      (elim (Bool-cases (i == j)) [ inl same ↦ rw same p | inr other ↦ rw other (w j) ])

pub vec_validate-IsWords : (ai : Bitmap) (i : ℕ) → IsWords ai → IsWords (vec_validate ai i)
vec_validate-IsWords ai i w j = rw (word_at-vec_validate ai i j) (w j)

pub remove_trailing_zeros-IsWords : (a : Bitmap) → IsWords a → IsWords (remove_trailing_zeros a)
remove_trailing_zeros-IsWords a w j = rw (word_at-remove_trailing_zeros a j) (w j)

alu_immediate-IsWords :
    (body : ℕ → ℕ → ℕ) (check_zero : Bool) (ai : Bitmap) (i : ℕ)
    → ((a b : ℕ) → a < 2 ^ 64 → b < 2 ^ 64 → body a b < 2 ^ 64)
    → IsWords ai
    → IsWords (alu_immediate body check_zero ai i)
unfolding alu_immediate
alu_immediate-IsWords body check_zero ai i fits w =
    let v = vec_validate ai (i / 64) in
    let a = body (word_at v (i / 64)) (shl 1 (i % 64)) in
    let r = set v (i / 64) a in
    let wr : IsWords r =
      set-IsWords v (i / 64) a (length-vec_validate ai (i / 64)).0
        (vec_validate-IsWords ai (i / 64) w)
        (fits _ _ (vec_validate-IsWords ai (i / 64) w (i / 64)) (omega arith)) in
    elim (Bool-cases (check_zero && a == 0)) [
      | inl trims ↦ rw trims (remove_trailing_zeros-IsWords r wr)
      | inr keeps ↦ rw keeps wr
    ]

pub andnoti-IsWords : (ai : Bitmap) (i : ℕ) → IsWords ai → IsWords (andnoti ai i)
unfolding andnoti
andnoti-IsWords ai i =
    alu_immediate-IsWords andnot_word true ai i (λ a b p q. bit_and-lt 64 a (bit_not b) p)

pub ori-IsWords : (ai : Bitmap) (i : ℕ) → IsWords ai → IsWords (ori ai i)
unfolding ori
ori-IsWords ai i = alu_immediate-IsWords _ false ai i (λ a b p q. bit_or-lt 64 a b p q)

set_last-IsTrimmed :
    (ai : Bitmap) (i a : ℕ) → a ≢ 0 → IsTrimmed ai → IsTrimmed (set (vec_validate ai i) i a)
set_last-IsTrimmed ai i a ne t =
    let v = vec_validate ai i in
    let n = length-vec_validate_eq ai i in
    rw (length-set v i a) (λ h.
      rw (get_or-set v i (length v - 1) a 0 (length-vec_validate ai i).0)
        (elim (Bool-cases (i == length v - 1)) [
          | inl same ↦ rw same ne
          | inr other ↦
              rw (other, word_at-vec_validate ai i (length v - 1))
                (let e : length v ≡ length ai = ground arith in rw e (t (ground arith)))
        ]))

set_word-IsTrimmed :
    (ai : Bitmap) (i a : ℕ)
    → IsWords ai × IsTrimmed ai
    → a < 2 ^ 64
    → IsWords (set_word (vec_validate ai i) i a) × IsTrimmed (set_word (vec_validate ai i) i a)
unfolding set_word
set_word-IsTrimmed ai i a (w, t) p =
    let v = vec_validate ai i in
    let words = set-IsWords v i a (length-vec_validate ai i).0 (vec_validate-IsWords ai i w) p in
    elim (Bool-cases (a == 0)) [
      | inl z ↦ rw z (
        remove_trailing_zeros-IsWords (set v i a) words,
        remove_trailing_zeros-IsTrimmed (set v i a),
      )
      | inr nz ↦ rw nz (words, set_last-IsTrimmed ai i a (ground arith) t)
    ]

-- Setting a bit keeps the words of a map within 64 bits and leaves no zero word at its end.
pub set_bit-IsTrimmed :
    (ai : Bitmap) (i value : ℕ)
    → IsWords ai × IsTrimmed ai
    → IsWords (set_bit ai i value) × IsTrimmed (set_bit ai i value)
unfolding set_bit
set_bit-IsTrimmed ai i value (w, t) = elim (Bool-cases (value == 0 && leb (length ai) (i / 64))) [
  | inl past ↦ rw past (w, t)
  | inr inside ↦
      let v = vec_validate ai (i / 64) in
      rw inside (
        set_word-IsTrimmed ai (i / 64) _ (w, t)
          (put_bit-lt (word_at v (i / 64)) (i % 64) value
            (vec_validate-IsWords ai (i / 64) w (i / 64))))
]
