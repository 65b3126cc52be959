-- ===== src/Hash/Buckets.antt =====
-- What `lookup` of uclib/hash.c does to the pairs of one bucket, for each of its operations.
use uclib.Base.{
  ℕ, suc, ◌-◌, ◌≤◌, ◌≡◌, refl, sym, ◌∙◌, ap, subst, inl, inr, true, false, Bool-cases, List, [],
  ◌∷◌, ◌++◌, arith, ltb, leb, ◌==◌, if◌then◌else◌, length, length-append, length-set, length-take,
  get_or, set, Option, none, some,
}
use uclib.Hash.{
  Keys, key_equal, Pair, Bucket, empty, direct, indirect, Opcode, get, put, unset, entries,
  get_indirect, set_indirect, unset_indirect, unset_found, found_pair, lookup_direct, lookup_bucket,
  new_elts, value_of,
}
use uclib.Hash.Pairs.{
  IsKeys, IsDistinct, IsDistinct-append, find, find-head, find-append, find_equal, or_else,
  or_else-none, equal_left,
}
use uclib.Hash.Removal.{removed, length-removed, set-middle, unset_indirect_lem}
use uclib.Hash.Searches.{
  Found, get_indirect-cases, AllKeys, AllKeys-append, AllKeys-parts, IsDistinct-parts,
  IsDistinct-overwrite, IsDistinct-removed, AllKeys-removed, find-removed, around,
}

module _ {ℓ} {V : Type ℓ} where
  -- What an operation leaves under its key.
  abbrev pub outcome : Opcode V → Option V → Option V
  outcome get o = o
  outcome (put x) o = some x
  outcome unset o = none

  pub record Effect (h : Keys) (P : ℕ → Type 0) (key : ℕ) (op : Opcode V) (ps : List (Pair V))
      (old : Option (Pair V)) (qs : List (Pair V)) : Type ℓ where
    pub old_value : value_of old ≡ find h ps key
    pub reads :
        (j : ℕ)
        → find h qs j ≡ (if key_equal h key j then outcome op (find h ps key) else find h ps j)
    pub distinct : IsDistinct h qs
    pub placed : AllKeys P qs
    pub count : length qs ≡ new_elts op old (length ps)

  module _ {h : Keys} (laws : IsKeys h) {P : ℕ → Type 0} (key : ℕ) (here : P key)
      (ps : List (Pair V)) (distinct : IsDistinct h ps) (placed : AllKeys P ps) where
    get-Effect :
        (old : Option (Pair V)) → value_of old ≡ find h ps key → Effect h P key get ps old ps
    unfolding new_elts
    get-Effect old e = record {
      old_value = e;
      reads = λ j. elim (Bool-cases (key_equal h key j)) [
        | inl same ↦ rw same (sym (find_equal laws ps key j same))
        | inr differ ↦ rw differ refl
      ];
      distinct = distinct;
      placed = placed;
      count = refl;
    }

    unset_missing-Effect : find h ps key ≡ none → Effect h P key unset ps none ps
    unfolding value_of new_elts
    unset_missing-Effect missing = record {
      old_value = sym missing;
      reads = λ j. elim (Bool-cases (key_equal h key j)) [
        | inl same ↦ rw same (sym (find_equal laws ps key j same) ∙ missing)
        | inr differ ↦ rw differ refl
      ];
      distinct = distinct;
      placed = placed;
      count = refl;
    }

    put_missing-Effect :
        (x : V) → find h ps key ≡ none → Effect h P key (put x) ps none (ps ++ (key, x) ∷ [])
    unfolding value_of new_elts find
    put_missing-Effect x missing = record {
      old_value = sym missing;
      reads = λ j. find-append h ps ((key, x) ∷ []) j ∙ elim (Bool-cases (key_equal h key j)) [
        | inl same ↦ rw (same, sym (find_equal laws ps key j same) ∙ missing) refl
        | inr differ ↦ rw differ (or_else-none (find h ps j))
      ];
      distinct =
          IsDistinct-append h ps ((key, x) ∷ []) distinct (refl, tt)
            (λ j. elim (Bool-cases (key_equal h key j)) [
              | inl same ↦ inl (sym (find_equal laws ps key j same) ∙ missing)
              | inr differ ↦ inr (rw differ refl)
            ]);
      placed = AllKeys-append P ps ((key, x) ∷ []) placed (here, tt);
      count = length-append ps ((key, x) ∷ []) ∙ omega arith;
    }

  found_value :
      (h : Keys) (key : ℕ) (xs : List (Pair V)) (p : Pair V) (ys : List (Pair V))
      → find h xs key ≡ none
      → key_equal h p.0 key ≡ true
      → find h (xs ++ p ∷ ys) key ≡ some p.1
  found_value h key xs p ys first same =
      find-append h xs (p ∷ ys) key
      ∙ (ap (λ (o : Option V). or_else o (find h (p ∷ ys) key)) first
          ∙ find-head h p.0 p.1 ys key same)

  module _ {h : Keys} (laws : IsKeys h) {P : ℕ → Type 0} (key : ℕ) (xs : List (Pair V)) (p : Pair V)
      (ys : List (Pair V)) (first : find h xs key ≡ none) (same : key_equal h p.0 key ≡ true)
      (distinct : IsDistinct h (xs ++ p ∷ ys)) (placed : AllKeys P (xs ++ p ∷ ys)) where
    put_found-Effect :
        (x : V) → Effect h P key (put x) (xs ++ p ∷ ys) (some p) (xs ++ (p.0, x) ∷ ys)
    unfolding value_of new_elts find
    put_found-Effect x = record {
      old_value = sym (found_value h key xs p ys first same);
      reads = λ j. find-append h xs ((p.0, x) ∷ ys) j ∙ elim (Bool-cases (key_equal h key j)) [
        | inl e ↦
            let at : key_equal h p.0 j ≡ true = laws.equal_trans p.0 key j same e in
            rw (e, at, (around laws xs p ys j distinct at).0) refl
        | inr e ↦
            let at : key_equal h p.0 j ≡ false = equal_left laws p.0 key j same ∙ e in
            rw (e, at) (sym (find-append h xs (p ∷ ys) j ∙ rw at refl))
      ];
      distinct = IsDistinct-overwrite h xs p x ys distinct;
      placed =
          let parts = AllKeys-parts P xs (p ∷ ys) placed in
          AllKeys-append P xs ((p.0, x) ∷ ys) parts.0 parts.1;
      count = omega (arith, length-append xs ((p.0, x) ∷ ys), length-append xs (p ∷ ys));
    }

    unset_found-Effect : Effect h P key unset (xs ++ p ∷ ys) (some p) (removed xs ys)
    unfolding value_of new_elts find removed
    unset_found-Effect =
        let parts = IsDistinct-parts h xs (p ∷ ys) distinct in
        record {
          old_value = sym (found_value h key xs p ys first same);
          reads = λ j. find-removed laws xs ys j parts.1.1 ∙ elim (Bool-cases (key_equal h key j)) [
            | inl e ↦
                let at : key_equal h p.0 j ≡ true = laws.equal_trans p.0 key j same e in
                let none_left = around laws xs p ys j distinct at in
                rw (e, none_left.0, none_left.1) refl
            | inr e ↦
                let at : key_equal h p.0 j ≡ false = equal_left laws p.0 key j same ∙ e in
                rw e (sym (find-append h xs (p ∷ ys) j ∙ rw at refl))
          ];
          distinct = IsDistinct-removed laws xs p ys distinct;
          placed = AllKeys-removed P xs p ys placed;
          count = omega (arith, length-removed xs ys, length-append xs (p ∷ ys));
        }

  -- A vector of pairs has at least two.
  abbrev pub HasShape : Bucket V → Type 0
  HasShape empty = Unit
  HasShape (direct p) = Unit
  HasShape (indirect ps) = 2 ≤ length ps

  unset_indirect-HasShape : (ps : List (Pair V)) (q : ℕ) → HasShape (unset_indirect ps q)
  unfolding unset_indirect
  unset_indirect-HasShape [] q = tt
  unset_indirect-HasShape (r ∷ ps) q =
      let n = suc (length ps) - 1 in
      let e = get_or (r ∷ ps) n r in
      elim (Bool-cases (leb (suc (length ps)) 2)) [
        | inl few ↦
            rw few (elim (Bool-cases (suc (length ps) == 2)) [
              | inl two ↦ rw two tt
              | inr one ↦ rw one tt
            ])
        | inr many ↦ rw many (elim (Bool-cases (ltb q n)) [
          | inl inside ↦
              rw inside
                (ground (arith, many, length-set (r ∷ ps) q e, length-take n (set (r ∷ ps) q e)))
          | inr at_end ↦ rw at_end (ground (arith, many, length-take n (r ∷ ps)))
        ])
      ]

  -- The statement for a bucket.
  abbrev pub BucketEffect :
      Keys → (ℕ → Type 0) → ℕ → Opcode V → Bucket V → Bucket V × Option (Pair V) → Type ℓ
  BucketEffect h P key op b r = Effect h P key op (entries b) r.1 (entries r.0) × HasShape r.0

  module _ {h : Keys} (laws : IsKeys h) {P : ℕ → Type 0} (key : ℕ) (here : P key)
      (ps : List (Pair V)) (shape : 2 ≤ length ps) (d : IsDistinct h ps) (a : AllKeys P ps) where
    missing-BucketEffect :
        (op : Opcode V)
        → get_indirect h ps key ≡ none
        → find h ps key ≡ none
        → BucketEffect h P key op (indirect ps) (lookup_bucket h key op (indirect ps))
    unfolding lookup_bucket entries set_indirect unset_found found_pair value_of
    missing-BucketEffect get g m = rw g (get-Effect laws key here ps d a none (sym m), shape)
    missing-BucketEffect (put x) g m = rw g (
      put_missing-Effect laws key here ps d a x m,
      omega (arith, shape, length-append ps ((key, x) ∷ [])),
    )
    missing-BucketEffect unset g m = rw g (unset_missing-Effect laws key here ps d a m, shape)

    Found-BucketEffect :
        (op : Opcode V)
        → Found h ps key
        → BucketEffect h P key op (indirect ps) (lookup_bucket h key op (indirect ps))
    unfolding lookup_bucket entries set_indirect unset_found found_pair value_of
    Found-BucketEffect get f = rw f.found (
      get-Effect laws key here ps d a (some f.pair) (
          sym (
            ap (λ (t : List (Pair V)). find h t key) f.split
            ∙ found_value h key f.before f.pair f.after f.first f.same)),
      shape,
    )
    Found-BucketEffect (put x) f =
        let d' = subst (IsDistinct h) f.split d in
        let a' = subst (AllKeys P) f.split a in
        let q = length f.before in
        rw f.found (
          subst
              (λ (t : List (Pair V)).
                Effect h P key (put x) t (some f.pair) (set t q (f.pair.0, x)))
              (sym f.split)
              (rw (set-middle f.before f.pair (f.pair.0, x) f.after)
                (put_found-Effect laws key f.before f.pair f.after f.first f.same d' a' x)),
          omega (arith, shape, length-set ps q (f.pair.0, x)),
        )
    Found-BucketEffect unset f =
        let d' = subst (IsDistinct h) f.split d in
        let a' = subst (AllKeys P) f.split a in
        let q = length f.before in
        rw f.found (
          subst
              (λ (t : List (Pair V)).
                Effect h P key unset t (some f.pair) (entries (unset_indirect t q)))
              (sym f.split)
              (rw (unset_indirect_lem f.before f.pair f.after)
                (unset_found-Effect laws key f.before f.pair f.after f.first f.same d' a')),
          unset_indirect-HasShape ps q,
        )

  module _ {h : Keys} (laws : IsKeys h) {P : ℕ → Type 0} (key : ℕ) (here : P key) (p : Pair V)
      (d : IsDistinct h (p ∷ [])) (a : AllKeys P (p ∷ [])) where
    direct-BucketEffect :
        (op : Opcode V) → BucketEffect h P key op (direct p) (lookup_direct h key op p)
    unfolding lookup_direct entries value_of find removed
    direct-BucketEffect get = elim (Bool-cases (key_equal h p.0 key)) [
      | inl e ↦ rw e (get-Effect laws key here (p ∷ []) d a (some p) (rw e refl), tt)
      | inr e ↦ rw e (get-Effect laws key here (p ∷ []) d a none (rw e refl), tt)
    ]
    direct-BucketEffect (put x) = elim (Bool-cases (key_equal h p.0 key)) [
      | inl e ↦ rw e (put_found-Effect laws key [] p [] refl e d a x, tt)
      | inr e ↦ rw e (put_missing-Effect laws key here (p ∷ []) d a x (rw e refl), omega arith)
    ]
    direct-BucketEffect unset = elim (Bool-cases (key_equal h p.0 key)) [
      | inl e ↦ rw e (unset_found-Effect laws key [] p [] refl e d a, tt)
      | inr e ↦ rw e (unset_missing-Effect laws key here (p ∷ []) d a (rw e refl), tt)
    ]

  -- Every operation on every bucket does what it says.
  pub lookup_bucket-Effect :
      {h : Keys} (laws : IsKeys h) {P : ℕ → Type 0} (key : ℕ) (here : P key) (b : Bucket V)
      → IsDistinct h (entries b)
      → AllKeys P (entries b)
      → HasShape b
      → (op : Opcode V) → BucketEffect h P key op b (lookup_bucket h key op b)
  unfolding lookup_bucket entries value_of find
  lookup_bucket-Effect laws key here empty d a shape get =
      (get-Effect laws key here [] tt tt none refl, tt)
  lookup_bucket-Effect laws key here empty d a shape (put x) =
      (put_missing-Effect laws key here [] tt tt x refl, tt)
  lookup_bucket-Effect laws key here empty d a shape unset =
      (unset_missing-Effect laws key here [] tt tt refl, tt)
  lookup_bucket-Effect laws key here (direct p) d a shape op =
      direct-BucketEffect laws key here p d a op
  lookup_bucket-Effect {h} laws key here (indirect ps) d a shape op =
      elim (get_indirect-cases h ps key) [
        | inl m ↦ missing-BucketEffect laws key here ps shape d a op m.0 m.1
        | inr f ↦ Found-BucketEffect laws key here ps shape d a op f
      ]
