-- ===== src/Hash/Growth.antt =====
-- Setting a key, with the growing of the table, and resizing: uclib/hash.c. Both keep the invariant;
-- resizing keeps the finite map and the number of elements.
use uclib.Base.{
  ℕ, zero, suc, ◌+◌, ◌*◌, ◌^◌, ◌≤◌, ◌≡◌, refl, sym, ◌∙◌, ap, subst, ◌⊎◌, inl, inr, true, not, ◌&&◌,
  Bool-cases, List, [], ◌∷◌, arith, ltb, if◌then◌else◌, length, Option, none, some,
}
use uclib.Word.Bits.{pow_pos}
use uclib.Hash.{
  Keys, key_equal, Pair, Table, put, hash_foreach_pair, create, lookup, new_elts, value_of,
  set_pairs, resize_with, set3_with,
}
use uclib.Hash.Pairs.{
  IsKeys, IsDistinct, equal_refl, find, find-head, find-tail, find_equal, or_else, or_else-none,
}
use uclib.Hash.Places.{IsDistinct-bucket_pairs}
use uclib.Hash.Tables.{IsTable, place, respects, at, lookup_lem}
use uclib.Hash.Capacity.{create-IsTable, at-create, length-create}

module _ {ℓ} {V : Type ℓ} where
  -- What a new pair adds to the number of elements.
  abbrev pub added : Option V → ℕ
  added none = 1
  added (some x) = 0

  pub record SetTo (v : Table V) (key : ℕ) (x : V) (w : Table V) : Type ℓ where
    pub table : IsTable w
    pub same_keys : w.keys ≡ v.keys
    pub reads : (j : ℕ) → at w j ≡ (if key_equal v.keys key j then some x else at v j)
    pub elts : w.elts ≡ v.elts + added (at v key)
    pub larger : length v.buckets ≤ length w.buckets

  -- The same finite map.
  pub record Same (v : Table V) (w : Table V) : Type ℓ where
    pub table : IsTable w
    pub same_keys : w.keys ≡ v.keys
    pub reads : (j : ℕ) → at w j ≡ at v j
    pub elts : w.elts ≡ v.elts

  put_elts :
      (n : ℕ) (x : V) (old : Option (Pair V)) (o : Option V)
      → value_of old ≡ o
      → new_elts (put x) old n ≡ n + added o
  unfolding new_elts value_of
  put_elts n x none o e = rw (sym e) refl
  put_elts n x (some p) o e = rw (sym e) (omega arith)

  pub lookup-SetTo :
      {v : Table V} (t : IsTable v) (key : ℕ) (x : V) → SetTo v key x (lookup v key (put x)).0
  lookup-SetTo {v} t key x =
      let r = lookup_lem t key (put x) in
      record {
        table = r.table;
        same_keys = r.same_keys;
        reads = r.reads;
        elts = r.elts ∙ put_elts v.elts x _ (at v key) r.old_value;
        larger = omega (arith, r.size);
      }

  pub hash_foreach_pair-IsDistinct :
      {v : Table V} → IsTable v → IsDistinct v.keys (hash_foreach_pair v)
  unfolding hash_foreach_pair
  hash_foreach_pair-IsDistinct {v} t =
      let n = length v.buckets in
      IsDistinct-bucket_pairs v.keys (place v.keys n) (respects t.laws n) 0 v.buckets t.placed

  -- A way to set a key in a table that is not too large.
  abbrev pub Sets : (Table V → ℕ → V → Table V) → Type ℓ
  Sets set3 =
      (v : Table V) (key : ℕ) (x : V)
      → IsTable v
      → v.elts + 1 ≤ 2 ^ 28
      → SetTo v key x (set3 v key x)

  pub record Joined (h : Keys) (v : Table V) (ps : List (Pair V)) (w : Table V) : Type ℓ where
    pub table : IsTable w
    pub same_keys : w.keys ≡ h
    pub reads : (j : ℕ) → at w j ≡ or_else (find h ps j) (at v j)
    pub elts : w.elts ≡ v.elts + length ps
    pub larger : length v.buckets ≤ length w.buckets

  module _ (set3 : Table V → ℕ → V → Table V) (sets : Sets set3) (h : Keys) (laws : IsKeys h) where
    -- Setting distinct pairs that a table does not have.
    set_pairs-Joined :
        (ps : List (Pair V)) (v : Table V)
        → IsTable v
        → v.keys ≡ h
        → IsDistinct h ps
        → ((j : ℕ) → (find h ps j ≡ none) ⊎ (at v j ≡ none))
        → v.elts + length ps ≤ 2 ^ 28
        → Joined h v ps (set_pairs set3 v ps)
    unfolding set_pairs find
    set_pairs-Joined [] v t e d apart fits = record {
      table = t;
      same_keys = e;
      reads = λ j. refl;
      elts = omega arith;
      larger = omega arith;
    }
    set_pairs-Joined (p ∷ ps) v t e d apart fits =
        let w = set3 v p.0 p.1 in
        let s = sets v p.0 p.1 t (omega (arith, fits)) in
        let fresh : at v p.0 ≡ none = elim (apart p.0) [
          | inl missing ↦ absurd (cc (find-head h p.0 p.1 ps p.0 (equal_refl h p.0), missing))
          | inr missing ↦ missing
        ] in
        let count : w.elts ≡ v.elts + 1 = s.elts ∙ ap (λ (o : Option V). v.elts + added o) fresh in
        let reads = λ (j : ℕ).
          subst (λ (k : Keys). at w j ≡ (if key_equal k p.0 j then some p.1 else at v j)) e
            (s.reads j) in
        let rest =
          set_pairs-Joined ps w s.table (s.same_keys ∙ e) d.1
            (λ j. elim (Bool-cases (key_equal h p.0 j)) [
              | inl same ↦ inl (sym (find_equal laws ps p.0 j same) ∙ d.0)
              | inr differ ↦ elim (apart j) [
                | inl missing ↦ inl (sym (find-tail h p.0 p.1 ps j differ) ∙ missing)
                | inr missing ↦ inr (reads j ∙ rw differ missing)
              ]
            ])
            (omega (arith, count, fits)) in
        record {
          table = rest.table;
          same_keys = rest.same_keys;
          reads = λ j. rest.reads j ∙ elim (Bool-cases (key_equal h p.0 j)) [
            | inl same ↦
                rw (same, sym (find_equal laws ps p.0 j same) ∙ d.0) (reads j ∙ rw same refl)
            | inr differ ↦ rw differ (ap (or_else (find h ps j)) (reads j ∙ rw differ refl))
          ];
          elts = omega (arith, rest.elts, count);
          larger = omega (arith, rest.larger, s.larger);
        }

  module _ (set3 : Table V → ℕ → V → Table V) (sets : Sets set3) where
    -- Resizing to a size that is not 0.
    pub resize_with-Same :
        (v : Table V) (n : ℕ)
        → IsTable v
        → 1 ≤ n
        → n ≤ 2 ^ 30
        → v.elts ≤ 2 ^ 28
        → Same v (resize_with set3 v n) × (n ≤ length (resize_with set3 v n).buckets)
    unfolding resize_with
    resize_with-Same v n t pos small fits =
        let new = create {V = V} n v.flags v.keys in
        let zero_elts : new.elts ≡ 0 = unfold create in refl in
        let new_keys : new.keys ≡ v.keys = unfold create in refl in
        let some_size : ltb 0 n ≡ true = ground (arith, pos) in
        let r =
          set_pairs-Joined set3 sets v.keys t.laws (hash_foreach_pair v) new
            (create-IsTable V n small v.flags v.keys t.laws) new_keys
            (hash_foreach_pair-IsDistinct t) (λ j. inr (at-create V n v.flags v.keys j))
            (omega (arith, t.counted, fits, zero_elts)) in
        rw some_size (
          record {
            table = r.table;
            same_keys = r.same_keys;
            reads = λ j.
                r.reads j
                ∙ (ap (or_else (find v.keys (hash_foreach_pair v) j))
                      (at-create V n v.flags v.keys j)
                    ∙ (or_else-none (find v.keys (hash_foreach_pair v) j) ∙ unfold at in refl));
            elts = omega (arith, r.elts, t.counted, zero_elts);
          },
          omega (arith, r.larger, (length-create V n small v.flags v.keys).enough),
        )

  SetTo-Same :
      {v w u : Table V} {key : ℕ} {x : V}
      → SetTo v key x w
      → Same w u
      → length w.buckets ≤ length u.buckets
      → SetTo v key x u
  SetTo-Same s r more = record {
    table = r.table;
    same_keys = r.same_keys ∙ s.same_keys;
    reads = λ j. r.reads j ∙ s.reads j;
    elts = r.elts ∙ s.elts;
    larger = omega (arith, s.larger, more);
  }

  pub added-le : (o : Option V) → added o ≤ 1
  added-le none = omega arith
  added-le (some x) = omega arith

  -- Whatever the fuel, setting a key sets it, and the table may grow.
  pub set3_with-SetTo : (fuel : ℕ) → Sets (set3_with fuel)
  unfolding set3_with
  set3_with-SetTo zero v key x t fits = lookup-SetTo t key x
  set3_with-SetTo (suc fuel) v key x t fits =
      let w = (lookup v key (put x)).0 in
      let s = lookup-SetTo t key x in
      elim (Bool-cases
        (not w.flags.no_auto_grow && ltb (3 * length w.buckets) (4 * (w.elts + 1)))) [
          | inl grow ↦
              let r =
                resize_with-Same (set3_with fuel) (set3_with-SetTo fuel) w (2 * length w.buckets)
                  s.table (ground (arith, s.table.size, pow_pos s.table.log2_capacity))
                  (ground (arith, grow, s.elts, added-le (at v key), fits))
                  (omega (arith, s.elts, added-le (at v key), fits)) in
              rw grow (SetTo-Same s r.0 (omega (arith, r.1)))
          | inr keep ↦ rw keep s
        ]
