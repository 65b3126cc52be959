-- ===== src/Hash/Removal.antt =====
-- The place that a search finds in a vector of pairs, and what is left when the last pair moves
-- there: `get_indirect` and `unset_indirect` of uclib/hash.c.
use uclib.Base.{
  ℕ, suc, ◌+◌, ◌-◌, ◌≤◌, ◌<◌, ◌≡◌, refl, sym, ◌∙◌, ap, true, false, List, [], ◌∷◌, ◌++◌, arith, ltb,
  leb, if◌then◌else◌, length, length-append, get_or, set, take, take-append_at, append_assoc,
}
use uclib.Hash.{Pair, entries, unset_indirect}

module _ {ℓ} {A : Type ℓ} where
  unfoldable pub last : A → List A → A
  last x [] = x
  last x (y ∷ ys) = last y ys

  unfoldable pub init : A → List A → List A
  init x [] = []
  init x (y ∷ ys) = x ∷ init y ys

  -- The list without what stood between `xs` and `ys`: the last element takes its place.
  unfoldable pub removed : List A → List A → List A
  removed xs [] = xs
  removed xs (y ∷ ys) = xs ++ last y ys ∷ init y ys

  pub init-last : (x : A) (xs : List A) → init x xs ++ last x xs ∷ [] ≡ x ∷ xs
  unfolding init last
  init-last x [] = refl
  init-last x (y ∷ ys) = ap (λ (t : List A). x ∷ t) (init-last y ys)

  length-init : (x : A) (xs : List A) → length (init x xs) ≡ length xs
  unfolding init
  length-init x [] = refl
  length-init x (y ∷ ys) = ap suc (length-init y ys)

  pub length-removed : (xs ys : List A) → length (removed xs ys) ≡ length xs + length ys
  unfolding removed
  length-removed xs [] = omega arith
  length-removed xs (y ∷ ys) =
      omega (arith, length-append xs (last y ys ∷ init y ys), length-init y ys)

  pub set-middle :
      (xs : List A) (p e : A) (ys : List A) → set (xs ++ p ∷ ys) (length xs) e ≡ xs ++ e ∷ ys
  set-middle [] p e ys = refl
  set-middle (x ∷ xs) p e ys = ap (λ (t : List A). x ∷ t) (set-middle xs p e ys)

  get_or-last : (x : A) (xs : List A) (d : A) → get_or (x ∷ xs) (length xs) d ≡ last x xs
  unfolding last
  get_or-last x [] d = refl
  get_or-last x (y ∷ ys) d = get_or-last y ys d

  get_or-last_behind :
      (xs : List A) (y : A) (ys : List A) (d : A)
      → get_or (xs ++ y ∷ ys) (length xs + length ys) d ≡ last y ys
  get_or-last_behind [] y ys d =
      let e : 0 + length ys ≡ length ys = omega arith in rw e (get_or-last y ys d)
  get_or-last_behind (x ∷ xs) y ys d =
      let e : suc (length xs) + length ys ≡ suc (length xs + length ys) = omega arith in
      rw e (get_or-last_behind xs y ys d)

  take-last :
      (xs : List A) (e y : A) (ys : List A)
      → take (length xs + length (y ∷ ys)) (xs ++ e ∷ y ∷ ys) ≡ xs ++ e ∷ init y ys
  take-last xs e y ys =
      let split : xs ++ e ∷ y ∷ ys ≡ (xs ++ e ∷ init y ys) ++ last y ys ∷ [] =
        ap (λ (t : List A). xs ++ e ∷ t) (sym (init-last y ys))
        ∙ sym (append_assoc xs (e ∷ init y ys) (last y ys ∷ [])) in
      ap (λ (t : List A). take (length xs + length (y ∷ ys)) t) split
      ∙ take-append_at (length xs + length (y ∷ ys)) (xs ++ e ∷ init y ys) (last y ys ∷ [])
          (omega (arith, length-append xs (e ∷ init y ys), length-init y ys))

module _ {ℓ} {V : Type ℓ} where
  unset_many :
      (r : Pair V) (ps : List (Pair V)) (q n : ℕ)
      → length ps ≡ n
      → 2 ≤ n
      → entries (unset_indirect (r ∷ ps) q)
        ≡ take n (if ltb q n then set (r ∷ ps) q (get_or (r ∷ ps) n r) else r ∷ ps)
  unfolding entries unset_indirect
  unset_many r ps q n e h =
      let l : suc (length ps) - 1 ≡ n = omega arith in
      let many : leb (suc (length ps)) 2 ≡ false = ground (arith, e, h) in rw (many, l) refl

  unset_before :
      (r : Pair V) (ps : List (Pair V)) (q n : ℕ)
      → length ps ≡ n
      → 2 ≤ n
      → q < n
      → entries (unset_indirect (r ∷ ps) q) ≡ take n (set (r ∷ ps) q (get_or (r ∷ ps) n r))
  unset_before r ps q n e h lt =
      let inside : ltb q n ≡ true = ground (arith, lt) in unset_many r ps q n e h ∙ rw inside refl

  -- Deleting the pair between `xs` and `ys` moves the last pair to its place.
  pub unset_indirect_lem :
      (xs : List (Pair V)) (p : Pair V) (ys : List (Pair V))
      → entries (unset_indirect (xs ++ p ∷ ys) (length xs)) ≡ removed xs ys
  unfolding entries unset_indirect removed last init
  unset_indirect_lem [] p [] = refl
  unset_indirect_lem [] p (y ∷ []) = refl
  unset_indirect_lem [] p (y ∷ z ∷ ys) =
      let n = length (y ∷ z ∷ ys) in
      unset_before p (y ∷ z ∷ ys) 0 n refl (omega arith) (omega arith)
      ∙ (ap (λ (e : Pair V). take n (e ∷ y ∷ z ∷ ys)) (get_or-last y (z ∷ ys) p)
          ∙ let c : 0 + n ≡ n = omega arith in
            (ap (λ (m : ℕ). take m (last z ys ∷ y ∷ z ∷ ys)) (sym c)
              ∙ take-last [] (last z ys) y (z ∷ ys)))
  unset_indirect_lem (x ∷ []) p [] = refl
  unset_indirect_lem (x ∷ w ∷ xs) p [] =
      let n = length (x ∷ w ∷ xs) in
      let at_end : ltb n n ≡ false = ground arith in
      unset_many x (w ∷ xs ++ p ∷ []) n n (omega (arith, length-append xs (p ∷ []))) (omega arith)
      ∙ rw at_end (take-append_at n (x ∷ w ∷ xs) (p ∷ []) refl)
  unset_indirect_lem (x ∷ xs) p (y ∷ ys) =
      let q = length (x ∷ xs) in
      let n = q + length (y ∷ ys) in
      let e = get_or (x ∷ xs ++ p ∷ y ∷ ys) n x in
      let split : x ∷ xs ++ p ∷ y ∷ ys ≡ (x ∷ xs ++ p ∷ []) ++ y ∷ ys =
        ap (λ (t : List (Pair V)). x ∷ t) (sym (append_assoc xs (p ∷ []) (y ∷ ys))) in
      let l : length (x ∷ xs ++ p ∷ []) ≡ q + 1 = omega (arith, length-append xs (p ∷ [])) in
      let sum : n ≡ length (x ∷ xs ++ p ∷ []) + length ys = omega (arith, l) in
      let at : e ≡ last y ys =
        ap (λ (t : List (Pair V)). get_or t n x) split
        ∙ (ap (λ (m : ℕ). get_or ((x ∷ xs ++ p ∷ []) ++ y ∷ ys) m x) sum
            ∙ get_or-last_behind (x ∷ xs ++ p ∷ []) y ys x) in
      unset_before x (xs ++ p ∷ y ∷ ys) q n (omega (arith, length-append xs (p ∷ y ∷ ys)))
        (omega arith) (omega arith)
      ∙ (ap (λ (t : List (Pair V)). take n t) (set-middle (x ∷ xs) p e (y ∷ ys))
          ∙ (take-last (x ∷ xs) e y ys ∙ ap (λ (t : Pair V). x ∷ xs ++ t ∷ init y ys) at))
