-- ===== src/Base/Reads.antt =====
-- Reads of parts of lists, and equality of lists by their reads.
use Prim.Native.Nat.{ℕ, zero, suc, ◌+◌, ◌-◌, ◌≤◌, ◌<◌}
use mathlib.Core.Path.{◌≡◌, refl, sym, ◌∙◌, ap}
use mathlib.Core.Logic.{inl, inr}
use mathlib.Core.List.{List, [], ◌∷◌, ◌++◌}
use native.Mathlib.Omega.{arith}
use uclib.Base.Tests.{ltb, Bool-cases}
use uclib.Base.Lists.{length, get_or, take, get_or_ext, get_or-beyond, get_or-append_below}
use uclib.Base.Slices.{drop, memcpy, length-take}

module _ {ℓ} {A : Type ℓ} where
  pub read_ext :
      (d : A) (xs ys : List A)
      → length xs ≡ length ys
      → ((i : ℕ) → i < length xs → get_or xs i d ≡ get_or ys i d)
      → xs ≡ ys
  read_ext d xs ys e h = get_or_ext d xs ys e (λ i. elim (Bool-cases (ltb i (length xs))) [
    | inl inside ↦ h i (ground (arith, inside))
    | inr outside ↦ get_or-beyond xs i d (ground arith) ∙ sym (get_or-beyond ys i d (ground arith))
  ])

  pub get_or-take :
      (n : ℕ) (xs : List A) (j : ℕ) (d : A) → j < n → get_or (take n xs) j d ≡ get_or xs j d
  get_or-take zero xs j d h = absurd (omega arith)
  get_or-take (suc n) [] j d h = refl
  get_or-take (suc n) (x ∷ xs) zero d h = refl
  get_or-take (suc n) (x ∷ xs) (suc j) d h = get_or-take n xs j d (omega arith)

  pub get_or-drop :
      (n : ℕ) (xs : List A) (j : ℕ) (d : A) → get_or (drop n xs) j d ≡ get_or xs (n + j) d
  get_or-drop zero xs j d = let e : zero + j ≡ j = omega arith in rw e refl
  get_or-drop (suc n) [] j d = refl
  get_or-drop (suc n) (x ∷ xs) j d =
      let e : suc n + j ≡ suc (n + j) = omega arith in rw e (get_or-drop n xs j d)

  pub get_or-append_behind :
      (xs ys : List A) (j : ℕ) (d : A)
      → length xs ≤ j
      → get_or (xs ++ ys) j d ≡ get_or ys (j - length xs) d
  get_or-append_behind [] ys j d h = let e : j - 0 ≡ j = omega arith in rw e refl
  get_or-append_behind (x ∷ xs) ys zero d h = absurd (omega arith)
  get_or-append_behind (x ∷ xs) ys (suc j) d h =
      let e : suc j - suc (length xs) ≡ j - length xs = omega arith in
      rw e (get_or-append_behind xs ys j d (omega arith))

  module _ (buffer : List A) (i : ℕ) (xs : List A) (j : ℕ) (d : A)
      (fits : i + length xs ≤ length buffer) where
    pub get_or-memcpy_before : j < i → get_or (memcpy buffer i xs) j d ≡ get_or buffer j d
    get_or-memcpy_before h =
        get_or-append_below (take i buffer) _ j d
          (omega (arith, length-take i buffer (omega arith)))
        ∙ get_or-take i buffer j d h

    pub get_or-memcpy_inside :
        i ≤ j → j < i + length xs → get_or (memcpy buffer i xs) j d ≡ get_or xs (j - i) d
    get_or-memcpy_inside le h =
        let l : length (take i buffer) ≡ i = length-take i buffer (omega arith) in
        get_or-append_behind (take i buffer) _ j d (omega (arith, l))
        ∙ (ap (λ (t : ℕ). get_or (xs ++ drop (i + length xs) buffer) (j - t) d) l
            ∙ get_or-append_below xs _ (j - i) d (omega arith))

    pub get_or-memcpy_behind :
        i + length xs ≤ j → get_or (memcpy buffer i xs) j d ≡ get_or buffer j d
    get_or-memcpy_behind h =
        let l : length (take i buffer) ≡ i = length-take i buffer (omega arith) in
        get_or-append_behind (take i buffer) _ j d (omega (arith, l))
        ∙ (ap (λ (t : ℕ). get_or (xs ++ drop (i + length xs) buffer) (j - t) d) l
            ∙ (get_or-append_behind xs _ (j - i) d (omega arith)
                ∙ (get_or-drop (i + length xs) buffer (j - i - length xs) d
                    ∙ ap (λ (t : ℕ). get_or buffer t d) (omega arith))))
