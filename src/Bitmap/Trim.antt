-- ===== src/Bitmap/Trim.antt =====
-- The bit that a map has at an index, and what changing its length does to it: vec_validate adds
-- words that are 0, and removing trailing zero words removes only such words.
use uclib.Base.{
  ℕ, zero, suc, ◌+◌, ◌-◌, ◌/◌, ◌%◌, ◌≤◌, ◌<◌, ◌≡◌, ◌≢◌, refl, ap, Bool, [], ◌∷◌, arith, ltb, ◌==◌,
  if◌then◌else◌, Bool-cases, inl, inr, length, take, replicate, length-append, length-replicate,
  get_or-beyond, get_or-append-replicate,
}
use uclib.Word.Bits.{test_bit, test_bit-shr_and, test_bit-zero}
use uclib.Bitmap.{
  Bitmap, word_at, vec_validate, trimmed_len, remove_trailing_zeros, get, get_no_check,
}

-- Bit `i` of a map, 0 beyond its words.
abbrev pub bit_at : Bitmap → ℕ → Bool
bit_at ai i = test_bit (word_at ai (i / 64)) (i % 64)

pub get-bit_at : (ai : Bitmap) (i : ℕ) → get ai i ≡ bit_at ai i
unfolding get
get-bit_at ai i = elim (Bool-cases (ltb (i / 64) (length ai))) [
  | inl lt ↦ rw lt (test_bit-shr_and (word_at ai (i / 64)) (i % 64))
  | inr ge ↦ rw ge (
      ground (
        arith,
        ap (λ (t : ℕ). test_bit t (i % 64)) (get_or-beyond ai (i / 64) 0 (ground arith)),
        test_bit-zero (i % 64),
      ))
]

pub get_no_check-bit_at : (ai : Bitmap) (i : ℕ) → get_no_check ai i ≡ bit_at ai i
unfolding get_no_check
get_no_check-bit_at ai i = test_bit-shr_and (word_at ai (i / 64)) (i % 64)

pub word_at-vec_validate : (ai : Bitmap) (i j : ℕ) → word_at (vec_validate ai i) j ≡ word_at ai j
unfolding vec_validate
word_at-vec_validate ai i j = get_or-append-replicate ai (i + 1 - length ai) j 0

pub length-vec_validate :
    (ai : Bitmap) (i : ℕ)
    → (i < length (vec_validate ai i)) × (length ai ≤ length (vec_validate ai i))
unfolding vec_validate
length-vec_validate ai i = omega (
  arith,
  length-append {0} ai (replicate (i + 1 - length ai) 0),
  length-replicate {0} {A = ℕ} (i + 1 - length ai) 0,
)

pub length-vec_validate_eq :
    (ai : Bitmap) (i : ℕ) → length (vec_validate ai i) ≡ length ai + (i + 1 - length ai)
unfolding vec_validate
length-vec_validate_eq ai i = omega (
  arith,
  length-append {0} ai (replicate (i + 1 - length ai) 0),
  length-replicate {0} {A = ℕ} (i + 1 - length ai) 0,
)

-- The words up to the trimmed length are kept, those behind it are 0.
trimmed_len_lem :
    (a : Bitmap) (n : ℕ)
    → (trimmed_len a n ≤ n)
      × ((j : ℕ) → trimmed_len a n ≤ j → j < n → word_at a j ≡ 0)
      × (trimmed_len a n ≢ 0 → word_at a (trimmed_len a n - 1) ≢ 0)
unfolding trimmed_len
trimmed_len_lem a zero = (omega arith, λ j p q. absurd (omega arith), λ h. absurd (h refl))
trimmed_len_lem a (suc i) = elim (Bool-cases (word_at a i == 0)) [
  | inl z ↦
      let ih = trimmed_len_lem a i in
      rw z (omega (arith, ih.0), λ j p q. grind (arith, ih.1 j), ih.2)
  | inr nz ↦ rw nz (omega arith, λ j p q. absurd (omega arith), λ h. ground arith)
]

pub get_or-take :
    (a : Bitmap) (n j : ℕ) → word_at (take n a) j ≡ (if ltb j n then word_at a j else 0)
get_or-take a zero j = ground arith
get_or-take [] (suc n) j = ground arith
get_or-take (x ∷ a) (suc n) zero = ground arith
get_or-take (x ∷ a) (suc n) (suc j) = ground (arith, get_or-take a n j)

pub length-take_le : (a : Bitmap) (n : ℕ) → n ≤ length a → length (take n a) ≡ n
length-take_le a zero h = refl
length-take_le [] (suc n) h = absurd (omega arith)
length-take_le (x ∷ a) (suc n) h = omega (arith, length-take_le a n (omega arith))

pub word_at-take_zeros :
    (a : Bitmap) (n : ℕ)
    → ((j : ℕ) → n ≤ j → j < length a → word_at a j ≡ 0)
    → (j : ℕ) → word_at (take n a) j ≡ word_at a j
word_at-take_zeros a n zeros j = elim (Bool-cases (ltb j n)) [
  | inl lt ↦ ground (arith, get_or-take a n j)
  | inr ge ↦ elim (Bool-cases (ltb j (length a))) [
    | inl inside ↦ ground (arith, get_or-take a n j, zeros j)
    | inr beyond ↦ ground (arith, get_or-take a n j, get_or-beyond a j 0)
  ]
]

pub word_at-remove_trailing_zeros :
    (a : Bitmap) (j : ℕ) → word_at (remove_trailing_zeros a) j ≡ word_at a j
unfolding remove_trailing_zeros
word_at-remove_trailing_zeros a j = word_at-take_zeros a _ (trimmed_len_lem a (length a)).1 j

-- A map whose last word is not 0.
abbrev pub IsTrimmed : Bitmap → Type 0
IsTrimmed a = length a ≢ 0 → word_at a (length a - 1) ≢ 0

pub remove_trailing_zeros-IsTrimmed : (a : Bitmap) → IsTrimmed (remove_trailing_zeros a)
unfolding remove_trailing_zeros
remove_trailing_zeros-IsTrimmed a =
    let t = trimmed_len_lem a (length a) in
    let n = trimmed_len a (length a) in
    let len : length (take n a) ≡ n = length-take_le a n t.0 in
    λ h e.
      t.2 (ground arith) (
        ground
          (arith, get_or-take a n (n - 1), ap (word_at (take n a)) (ap (λ (k : ℕ). k - 1) len)))
