-- ===== src/Base/Slices.antt =====
-- Parts of lists: `drop`, and what `take` and `drop` do to a concatenation.
use Prim.Native.Nat.{ℕ, zero, suc, ◌+◌, ◌-◌, ◌≤◌}
use mathlib.Core.Path.{◌≡◌, refl, sym, ◌∙◌, ap}
use mathlib.Core.List.{List, [], ◌∷◌, ◌++◌, append-nil, append_assoc}
use native.Mathlib.Omega.{arith}
use uclib.Base.Lists.{length, take, replicate, length-append}

module _ {ℓ} {A : Type ℓ} where
  abbrev pub drop : ℕ → List A → List A
  drop zero xs = xs
  drop (suc n) [] = []
  drop (suc n) (x ∷ xs) = drop n xs

  pub take-append-drop : (n : ℕ) (xs : List A) → take n xs ++ drop n xs ≡ xs
  take-append-drop zero xs = refl
  take-append-drop (suc n) [] = refl
  take-append-drop (suc n) (x ∷ xs) = ap (λ (t : List A). x ∷ t) (take-append-drop n xs)

  pub length-take : (n : ℕ) (xs : List A) → n ≤ length xs → length (take n xs) ≡ n
  length-take zero xs h = refl
  length-take (suc n) [] h = absurd (omega arith)
  length-take (suc n) (x ∷ xs) h = omega (arith, length-take n xs (omega arith))

  pub length-drop : (n : ℕ) (xs : List A) → length (drop n xs) ≡ length xs - n
  length-drop zero xs = omega arith
  length-drop (suc n) [] = omega arith
  length-drop (suc n) (x ∷ xs) = omega (arith, length-drop n xs)

  pub take-all : (n : ℕ) (xs : List A) → length xs ≤ n → take n xs ≡ xs
  take-all zero [] h = refl
  take-all zero (x ∷ xs) h = absurd (omega arith)
  take-all (suc n) [] h = refl
  take-all (suc n) (x ∷ xs) h = ap (λ (t : List A). x ∷ t) (take-all n xs (omega arith))

  pub drop-all : (n : ℕ) (xs : List A) → length xs ≤ n → drop n xs ≡ []
  drop-all zero [] h = refl
  drop-all zero (x ∷ xs) h = absurd (omega arith)
  drop-all (suc n) [] h = refl
  drop-all (suc n) (x ∷ xs) h = drop-all n xs (omega arith)

  -- The cut is inside the first list, or at its end.
  pub take-append : (n : ℕ) (xs ys : List A) → n ≤ length xs → take n (xs ++ ys) ≡ take n xs
  take-append zero xs ys h = refl
  take-append (suc n) [] ys h = absurd (omega arith)
  take-append (suc n) (x ∷ xs) ys h = ap (λ (t : List A). x ∷ t) (take-append n xs ys (omega arith))

  pub drop-append : (n : ℕ) (xs ys : List A) → n ≤ length xs → drop n (xs ++ ys) ≡ drop n xs ++ ys
  drop-append zero xs ys h = refl
  drop-append (suc n) [] ys h = absurd (omega arith)
  drop-append (suc n) (x ∷ xs) ys h = drop-append n xs ys (omega arith)

  pub take-append_at : (n : ℕ) (xs ys : List A) → length xs ≡ n → take n (xs ++ ys) ≡ xs
  take-append_at zero [] ys h = refl
  take-append_at zero (x ∷ xs) ys h = absurd (omega arith)
  take-append_at (suc n) [] ys h = absurd (omega arith)
  take-append_at (suc n) (x ∷ xs) ys h =
      ap (λ (t : List A). x ∷ t) (take-append_at n xs ys (omega arith))

  pub drop-append_at : (n : ℕ) (xs ys : List A) → length xs ≡ n → drop n (xs ++ ys) ≡ ys
  drop-append_at zero [] ys h = refl
  drop-append_at zero (x ∷ xs) ys h = absurd (omega arith)
  drop-append_at (suc n) [] ys h = absurd (omega arith)
  drop-append_at (suc n) (x ∷ xs) ys h = drop-append_at n xs ys (omega arith)

  -- The cut is behind the first list.
  pub drop-append_beyond :
      (n : ℕ) (xs ys : List A) → length xs ≤ n → drop n (xs ++ ys) ≡ drop (n - length xs) ys
  drop-append_beyond n [] ys h = ap (λ (t : ℕ). drop t ys) (omega arith)
  drop-append_beyond zero (x ∷ xs) ys h = absurd (omega arith)
  drop-append_beyond (suc n) (x ∷ xs) ys h =
      drop-append_beyond n xs ys (omega arith) ∙ ap (λ (t : ℕ). drop t ys) (omega arith)

  pub drop-replicate : (n m : ℕ) (a : A) → drop n (replicate m a) ≡ replicate (m - n) a
  drop-replicate zero m a = ap (λ (t : ℕ). replicate t a) (omega arith)
  drop-replicate (suc n) zero a = let e : 0 - suc n ≡ 0 = omega arith in rw e refl
  drop-replicate (suc n) (suc m) a =
      drop-replicate n m a ∙ ap (λ (t : ℕ). replicate t a) (omega arith)

-- memcpy (buffer + i, xs, length xs)
abbrev pub memcpy {ℓ} : {A : Type ℓ} → List A → ℕ → List A → List A
memcpy buffer i xs = take i buffer ++ (xs ++ drop (i + length xs) buffer)

module _ {ℓ} {A : Type ℓ} where
  pub memcpy_start : (buffer xs : List A) → memcpy buffer 0 xs ≡ xs ++ drop (length xs) buffer
  memcpy_start buffer xs = let e : 0 + length xs ≡ length xs = omega arith in rw e refl

  pub length-memcpy :
      (buffer : List A) (i : ℕ) (xs : List A)
      → i + length xs ≤ length buffer
      → length (memcpy buffer i xs) ≡ length buffer
  length-memcpy buffer i xs h = omega (
    arith,
    length-append (take i buffer) (xs ++ drop (i + length xs) buffer),
    length-append xs (drop (i + length xs) buffer),
    length-take i buffer (omega arith),
    length-drop (i + length xs) buffer,
  )

  pub take-memcpy :
      (buffer : List A) (i : ℕ) (xs : List A)
      → i + length xs ≤ length buffer
      → take (i + length xs) (memcpy buffer i xs) ≡ take i buffer ++ xs
  take-memcpy buffer i xs h =
      ap (λ (t : List A). take (i + length xs) t) (sym (append_assoc (take i buffer) xs _))
      ∙ take-append_at (i + length xs) (take i buffer ++ xs) (drop (i + length xs) buffer)
          (omega (arith, length-append (take i buffer) xs, length-take i buffer (omega arith)))

  -- A write up to the end of the buffer.
  pub memcpy_to_end :
      (buffer : List A) (i : ℕ) (xs : List A)
      → i + length xs ≡ length buffer
      → memcpy buffer i xs ≡ take i buffer ++ xs
  memcpy_to_end buffer i xs h =
      rw (drop-all (i + length xs) buffer (omega arith), append-nil xs) refl
