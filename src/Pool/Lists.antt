-- ===== src/Pool/Lists.antt =====
-- How often a number is in a list, and the stack of free indices as the front and the top.
use uclib.Base.{
  ℕ, zero, suc, ◌+◌, ◌-◌, ◌≤◌, ◌<◌, ◌≡◌, refl, ap, ap₂, sym, List, [], ◌∷◌, ◌++◌, arith, ltb, ◌==◌,
  Bool-cases, inl, inr, length, get_or, take,
}
use uclib.Word.{from_bool}

abbrev pub count : ℕ → List ℕ → ℕ
count j [] = 0
count j (x ∷ xs) = from_bool (x == j) + count j xs

pub count-append :
    (j : ℕ) (xs : List ℕ) (y : ℕ) → count j (xs ++ y ∷ []) ≡ count j xs + from_bool (y == j)
count-append j [] y = omega arith
count-append j (x ∷ xs) y = omega (arith, count-append j xs y)

front_count :
    (j x : ℕ) (xs : List ℕ)
    → count j (x ∷ xs)
      ≡ count j (take (length xs) (x ∷ xs)) + from_bool (get_or (x ∷ xs) (length xs) 0 == j)
front_count j x [] = omega arith
front_count j x (y ∷ xs) = omega (arith, front_count j y xs)

length-front : (x : ℕ) (xs : List ℕ) → length (take (length xs) (x ∷ xs)) ≡ length xs
length-front x [] = refl
length-front x (y ∷ xs) = ap suc (length-front y xs)

pub count-top :
    (j : ℕ) (xs : List ℕ)
    → 0 < length xs
    → count j xs ≡ count j (take (length xs - 1) xs) + from_bool (get_or xs (length xs - 1) 0 == j)
count-top j [] h = absurd (omega arith)
count-top j (x ∷ xs) h =
    let e : suc (length xs) - 1 ≡ length xs = omega arith in rw e (front_count j x xs)

pub length-take_top : (xs : List ℕ) → length (take (length xs - 1) xs) ≡ length xs - 1
length-take_top [] = refl
length-take_top (x ∷ xs) =
    let e : suc (length xs) - 1 ≡ length xs = omega arith in rw e (length-front x xs)

pub take-append_top : (xs : List ℕ) (y : ℕ) → take (length xs) (xs ++ y ∷ []) ≡ xs
take-append_top [] y = refl
take-append_top (x ∷ xs) y = ap (λ (t : List ℕ). x ∷ t) (take-append_top xs y)

pub get_or-append_top : (xs : List ℕ) (y : ℕ) → get_or (xs ++ y ∷ []) (length xs) 0 ≡ y
get_or-append_top [] y = refl
get_or-append_top (x ∷ xs) y = get_or-append_top xs y

-- f i + f (i + 1) + ..., `n` terms.
abbrev pub total : (ℕ → ℕ) → ℕ → ℕ → ℕ
total f zero i = 0
total f (suc n) i = f i + total f n (i + 1)

total-add :
    (f g h : ℕ → ℕ)
    → ((i : ℕ) → f i ≡ g i + h i)
    → (n i : ℕ) → total f n i ≡ total g n i + total h n i
total-add f g h e zero i = refl
total-add f g h e (suc n) i = omega (arith, e i, total-add f g h e n (i + 1))

total-zero : (f : ℕ → ℕ) (n i : ℕ) → ((k : ℕ) → i ≤ k → f k ≡ 0) → total f n i ≡ 0
total-zero f zero i h = refl
total-zero f (suc n) i h =
    omega (arith, h i (omega arith), total-zero f n (i + 1) (λ k p. h k (omega arith)))

total-one : (x n i : ℕ) → i ≤ x → x < i + n → total (λ (k : ℕ). from_bool (x == k)) n i ≡ 1
total-one x zero i p q = absurd (omega arith)
total-one x (suc n) i p q = elim (Bool-cases (x == i)) [
  | inl here ↦
      rw here
        (omega (arith, total-zero (λ (k : ℕ). from_bool (x == k)) n (i + 1) (λ k h. ground arith)))
  | inr later ↦ rw later (omega (arith, total-one x n (i + 1) (ground arith) (omega arith)))
]

pub total-ext :
    (f g : ℕ → ℕ) (n i : ℕ) → ((k : ℕ) → i ≤ k → k < i + n → f k ≡ g k) → total f n i ≡ total g n i
total-ext f g zero i h = refl
total-ext f g (suc n) i h =
    ap₂ ◌+◌ (h i (omega arith) (omega arith))
      (total-ext f g n (i + 1) (λ k p q. h k (omega arith) (omega arith)))

-- A list of numbers below `n` has as many elements as its counts say.
pub length-total :
    (n : ℕ) (xs : List ℕ)
    → ((k : ℕ) → n ≤ k → count k xs ≡ 0)
    → length xs ≡ total (λ (k : ℕ). count k xs) n 0
length-total n [] h = sym (total-zero (λ (k : ℕ). 0) n 0 (λ k p. refl))
length-total n (x ∷ xs) h =
    let below : x < n = elim (Bool-cases (ltb x n)) [
      | inl p ↦ ground arith
      | inr p ↦ absurd (ground (arith, h x))
    ] in
    omega (
      arith,
      length-total n xs (λ k p. omega (arith, h k p)),
      total-one x n 0 (omega arith) (omega arith),
      total-add (λ (k : ℕ). count k (x ∷ xs)) (λ (k : ℕ). from_bool (x == k))
          (λ (k : ℕ). count k xs) (λ k. refl) n 0,
    )
