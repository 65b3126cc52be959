-- ===== src/Hash/Searches.antt =====
-- Searches in a vector of pairs: the place that `get_indirect` of uclib/hash.c finds, and searches
-- in lists that are put together from parts.
use uclib.Base.{
  ℕ, ◌≡◌, refl, sym, ◌∙◌, ap, subst, ◌⊎◌, inl, inr, true, false, Bool-cases, List, [], ◌∷◌, ◌++◌,
  length, Option, none, some,
}
use uclib.Hash.{Keys, key_equal, Pair, behind, get_indirect}
use uclib.Hash.Pairs.{
  IsKeys, IsDistinct, find, find-head, find-tail, find-append, find_equal, or_else, both_none,
  or_else-none, differ_of_none, differ_sym, equal_right,
}
use uclib.Hash.Removal.{last, init, init-last, removed}

module _ {ℓ} {V : Type ℓ} where
  -- The pair with an equal key, and what stands around it.
  pub record Found (h : Keys) (ps : List (Pair V)) (key : ℕ) : Type ℓ where
    pub before : List (Pair V)
    pub pair : Pair V
    pub after : List (Pair V)
    pub split : ps ≡ before ++ pair ∷ after
    pub found : get_indirect h ps key ≡ some (length before, pair)
    pub first : find h before key ≡ none
    pub same : key_equal h pair.0 key ≡ true

  behind-Found :
      (h : Keys) (p : Pair V) (ps : List (Pair V)) (key : ℕ)
      → key_equal h p.0 key ≡ false
      → Found h ps key
      → Found h (p ∷ ps) key
  unfolding get_indirect behind
  behind-Found h p ps key differ f = record {
    before = p ∷ f.before;
    pair = f.pair;
    after = f.after;
    split = ap (λ (t : List (Pair V)). p ∷ t) f.split;
    found = rw differ (ap behind f.found);
    first = find-tail h p.0 p.1 f.before key differ ∙ f.first;
    same = f.same;
  }

  pub get_indirect-cases :
      (h : Keys) (ps : List (Pair V)) (key : ℕ)
      → ((get_indirect h ps key ≡ none) × (find h ps key ≡ none)) ⊎ Found h ps key
  unfolding get_indirect find behind
  get_indirect-cases h [] key = inl (refl, refl)
  get_indirect-cases h (p ∷ ps) key = elim (Bool-cases (key_equal h p.0 key)) [
    | inl e ↦ inr (record {
      before = [];
      pair = p;
      after = ps;
      split = refl;
      found = rw e refl;
      first = refl;
      same = e;
    })
    | inr differ ↦ elim (get_indirect-cases h ps key) [
      | inl missing ↦ inl (rw differ (ap behind missing.0), rw differ missing.1)
      | inr f ↦ inr (behind-Found h p ps key differ f)
    ]
  ]

  -- Every key has the property.
  abbrev pub AllKeys : (ℕ → Type 0) → List (Pair V) → Type 0
  AllKeys P [] = Unit
  AllKeys P (p ∷ ps) = P p.0 × AllKeys P ps

  pub AllKeys-append :
      (P : ℕ → Type 0) (ps qs : List (Pair V)) → AllKeys P ps → AllKeys P qs → AllKeys P (ps ++ qs)
  AllKeys-append P [] qs a b = b
  AllKeys-append P (p ∷ ps) qs a b = (a.0, AllKeys-append P ps qs a.1 b)

  pub AllKeys-parts :
      (P : ℕ → Type 0) (ps qs : List (Pair V)) → AllKeys P (ps ++ qs) → AllKeys P ps × AllKeys P qs
  AllKeys-parts P [] qs a = (tt, a)
  AllKeys-parts P (p ∷ ps) qs a = let r = AllKeys-parts P ps qs a.1 in ((a.0, r.0), r.1)

  pub IsDistinct-parts :
      (h : Keys) (ps qs : List (Pair V))
      → IsDistinct h (ps ++ qs)
      → IsDistinct h ps × IsDistinct h qs
  IsDistinct-parts h [] qs d = (tt, d)
  IsDistinct-parts h ((k, x) ∷ ps) qs d =
      let r = IsDistinct-parts h ps qs d.1 in
      (((both_none (find h ps k) (find h qs k) (sym (find-append h ps qs k) ∙ d.0)).0, r.0), r.1)

  -- The second part may be replaced by one that holds the same.
  pub IsDistinct-replace :
      (h : Keys) (ps qs rs : List (Pair V))
      → IsDistinct h (ps ++ qs)
      → IsDistinct h rs
      → ((j : ℕ) → find h rs j ≡ find h qs j)
      → IsDistinct h (ps ++ rs)
  IsDistinct-replace h [] qs rs d dr same = dr
  IsDistinct-replace h ((k, x) ∷ ps) qs rs d dr same = (
    find-append h ps rs k
        ∙ (ap (or_else (find h ps k)) (same k) ∙ (sym (find-append h ps qs k) ∙ d.0)),
    IsDistinct-replace h ps qs rs d.1 dr same,
  )

  IsDistinct-drop :
      (h : Keys) (xs : List (Pair V)) (p : Pair V) (ys : List (Pair V))
      → IsDistinct h (xs ++ p ∷ ys)
      → IsDistinct h (xs ++ ys)
  IsDistinct-drop h [] p ys d = d.1
  IsDistinct-drop h ((k, x) ∷ xs) p ys d =
      let apart =
        both_none (find h xs k) (find h (p ∷ ys) k) (sym (find-append h xs (p ∷ ys) k) ∙ d.0) in
      (
        find-append h xs ys k ∙ rw apart.0 (differ_of_none h p.0 p.1 ys k apart.1).1,
        IsDistinct-drop h xs p ys d.1,
      )

  -- A new value under the same key keeps pairs distinct.
  pub IsDistinct-overwrite :
      (h : Keys) (xs : List (Pair V)) (p : Pair V) (x : V) (ys : List (Pair V))
      → IsDistinct h (xs ++ p ∷ ys)
      → IsDistinct h (xs ++ (p.0, x) ∷ ys)
  unfolding find
  IsDistinct-overwrite h [] p x ys d = d
  IsDistinct-overwrite h ((k, y) ∷ xs) p x ys d =
      let apart =
        both_none (find h xs k) (find h (p ∷ ys) k) (sym (find-append h xs (p ∷ ys) k) ∙ d.0) in
      let tail = differ_of_none h p.0 p.1 ys k apart.1 in
      (
        find-append h xs ((p.0, x) ∷ ys) k ∙ rw (apart.0, tail.0) tail.1,
        IsDistinct-overwrite h xs p x ys d.1,
      )

  module _ {h : Keys} (laws : IsKeys h) where
    -- The last pair of distinct ones has no equal key before it.
    pub last-differs :
        (ys : List (Pair V)) (e : Pair V) → IsDistinct h (ys ++ e ∷ []) → find h ys e.0 ≡ none
    unfolding find
    last-differs [] e d = refl
    last-differs ((k, x) ∷ ys) e d =
        let apart =
          both_none (find h ys k) (find h (e ∷ []) k) (sym (find-append h ys (e ∷ []) k) ∙ d.0) in
        let differ = (differ_of_none h e.0 e.1 [] k apart.1).0 in
        rw (differ_sym laws e.0 k differ) (last-differs ys e d.1)

    pub find-rotate :
        (ys : List (Pair V)) (e : Pair V) (j : ℕ)
        → IsDistinct h (ys ++ e ∷ [])
        → find h (e ∷ ys) j ≡ find h (ys ++ e ∷ []) j
    unfolding find
    find-rotate ys e j d =
        let split = find-append h ys (e ∷ []) j in
        elim (Bool-cases (key_equal h e.0 j)) [
          | inl same ↦
              find-head h e.0 e.1 ys j same
              ∙ sym (
                  split
                  ∙ (ap (λ (o : Option V). or_else o (find h (e ∷ []) j))
                        (sym (find_equal laws ys e.0 j same) ∙ last-differs ys e d)
                      ∙ find-head h e.0 e.1 [] j same))
          | inr differ ↦
              find-tail h e.0 e.1 ys j differ
              ∙ sym (
                  split
                  ∙ (ap (or_else (find h ys j)) (find-tail h e.0 e.1 [] j differ)
                      ∙ or_else-none (find h ys j)))
        ]

    -- Between the two parts of distinct pairs, nothing else has a key that is equal to a third's.
    pub around :
        (xs : List (Pair V)) (p : Pair V) (ys : List (Pair V)) (j : ℕ)
        → IsDistinct h (xs ++ p ∷ ys)
        → key_equal h p.0 j ≡ true
        → (find h xs j ≡ none) × (find h ys j ≡ none)
    unfolding find
    around [] p ys j d same = (refl, sym (find_equal laws ys p.0 j same) ∙ d.0)
    around ((k, x) ∷ xs) p ys j d same =
        let apart =
          both_none (find h xs k) (find h (p ∷ ys) k) (sym (find-append h xs (p ∷ ys) k) ∙ d.0) in
        let differ = (differ_of_none h p.0 p.1 ys k apart.1).0 in
        let differ_j : key_equal h k j ≡ false =
          sym (equal_right laws k p.0 j same) ∙ differ_sym laws p.0 k differ in
        let rest = around xs p ys j d.1 same in (rw differ_j rest.0, rest.1)

    pub find-removed :
        (xs ys : List (Pair V)) (j : ℕ)
        → IsDistinct h ys
        → find h (removed xs ys) j ≡ or_else (find h xs j) (find h ys j)
    unfolding removed find
    find-removed xs [] j d = sym (or_else-none (find h xs j))
    find-removed xs (y ∷ ys) j d =
        find-append h xs (last y ys ∷ init y ys) j
        ∙ ap (or_else (find h xs j)) (
            find-rotate (init y ys) (last y ys) j (subst (IsDistinct h) (sym (init-last y ys)) d)
            ∙ ap (λ (t : List (Pair V)). find h t j) (init-last y ys))

    IsDistinct-rotate :
        (ys : List (Pair V)) (e : Pair V) → IsDistinct h (ys ++ e ∷ []) → IsDistinct h (e ∷ ys)
    IsDistinct-rotate ys e d = (last-differs ys e d, (IsDistinct-parts h ys (e ∷ []) d).0)

    pub IsDistinct-removed :
        (xs : List (Pair V)) (p : Pair V) (ys : List (Pair V))
        → IsDistinct h (xs ++ p ∷ ys)
        → IsDistinct h (removed xs ys)
    unfolding removed find
    IsDistinct-removed xs p [] d = (IsDistinct-parts h xs (p ∷ []) d).0
    IsDistinct-removed xs p (y ∷ ys) d =
        let tail = (IsDistinct-parts h xs (p ∷ y ∷ ys) d).1.1 in
        IsDistinct-replace h xs (y ∷ ys) (last y ys ∷ init y ys) (IsDistinct-drop h xs p (y ∷ ys) d)
          (IsDistinct-rotate (init y ys) (last y ys)
            (subst (IsDistinct h) (sym (init-last y ys)) tail))
          (λ j. sym (find-append h [] (last y ys ∷ init y ys) j) ∙ find-removed [] (y ∷ ys) j tail)

  pub AllKeys-removed :
      (P : ℕ → Type 0) (xs : List (Pair V)) (p : Pair V) (ys : List (Pair V))
      → AllKeys P (xs ++ p ∷ ys)
      → AllKeys P (removed xs ys)
  unfolding removed
  AllKeys-removed P xs p [] a = (AllKeys-parts P xs (p ∷ []) a).0
  AllKeys-removed P xs p (y ∷ ys) a =
      let parts = AllKeys-parts P xs (p ∷ y ∷ ys) a in
      let ends =
        AllKeys-parts P (init y ys) (last y ys ∷ [])
          (subst (AllKeys P) (sym (init-last y ys)) parts.1.1) in
      AllKeys-append P xs (last y ys ∷ init y ys) parts.0 (ends.1.0, ends.0)
