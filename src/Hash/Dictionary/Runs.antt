-- ===== src/Hash/Dictionary/Runs.antt =====
-- Any calls on a table of uclib/hash.c, and the same calls on a dictionary.
use uclib.Base.{
  ℕ, ◌+◌, ◌^◌, ◌≤◌, ◌≡◌, refl, sym, ◌∙◌, ap, ap₂, subst, List, [], ◌∷◌, arith, length,
  if◌then◌else◌, none, some,
}
use uclib.Hash.{
  Keys, key_equal, Pair, Table, hash_foreach_pair, hash_elts, hash_dup, hash_create2, create,
}
use uclib.Hash.Pairs.{IsKeys, IsDistinct, find}
use uclib.Hash.Tables.{at}
use uclib.Hash.Growth.{added-le, Same, hash_foreach_pair-IsDistinct}
use uclib.Hash.Capacity.{create-IsTable, at-create}
use uclib.Hash.Dictionary.{
  Call, get, put, unset, elts, resize, dup, dictionary_step, table_step, run, value, number,
  IsSized, AllSized, n_put,
}
use uclib.Hash.Dictionary.Changes.{
  find-put_pair, IsDistinct-put_pair, length-put_pair, find-remove_key, IsDistinct-remove_key,
  length-remove_key,
}
use uclib.Hash.Dictionary.Steps.{
  StandsFor, hash_resize-Same, hash_set3-SetTo, hash_unset-UnsetOf, hash_get-at, size-pos, size-le,
}

module _ {ℓ} {V : Type ℓ} {h : Keys} (laws : IsKeys h) where
  Same-StandsFor :
      {v w : Table V} {d : List (Pair V)} → StandsFor h v d → Same v w → StandsFor h w d
  Same-StandsFor s r = record {
    table = r.table;
    keys = r.same_keys ∙ s.keys;
    reads = λ j. r.reads j ∙ s.reads j;
    elts = r.elts ∙ s.elts;
    distinct = s.distinct;
  }

  -- One call returns the same, and leaves a table that stands for the new dictionary.
  Steps : Table V → List (Pair V) → Call V → Type ℓ
  Steps v d call =
      StandsFor h (table_step call v).0 (dictionary_step h call d).0
      × ((table_step call v).1 ≡ (dictionary_step h call d).1)
      × (length (dictionary_step h call d).0 ≤ length d + n_put (call ∷ []))

  table_step-StandsFor :
      (v : Table V) (d : List (Pair V)) (call : Call V)
      → StandsFor h v d
      → IsSized call
      → length d + n_put (call ∷ []) ≤ 2 ^ 28
      → Steps v d call
  unfolding Steps table_step dictionary_step n_put
  table_step-StandsFor v d (get key) s sized fits =
      (s, ap value (hash_get-at v key s.table ∙ s.reads key), omega arith)
  table_step-StandsFor v d (put key x) s sized fits =
      let r = hash_set3-SetTo v key x s.table (omega (arith, s.elts, fits)) in
      (
        record {
          table = r.0.table;
          keys = r.0.same_keys ∙ s.keys;
          reads = λ j.
              r.0.reads j
              ∙ (subst
                    (λ (k : Keys).
                      (if key_equal k key j then some x else at v j)
                      ≡ (if key_equal h key j then some x else find h d j))
                    (sym s.keys) (rw (s.reads j) refl)
                  ∙ sym (find-put_pair laws key x d j));
          elts = r.0.elts ∙ (rw (s.reads key, s.elts) (sym (length-put_pair h key x d)));
          distinct = IsDistinct-put_pair laws key x d s.distinct;
        },
        ap value (r.1 ∙ s.reads key),
        omega (arith, length-put_pair h key x d, added-le (find h d key)),
      )
  table_step-StandsFor v d (unset key) s sized fits =
      let r = hash_unset-UnsetOf v key s.table (omega (arith, s.elts, fits)) in
      (
        record {
          table = r.0.table;
          keys = r.0.same_keys ∙ s.keys;
          reads = λ j.
              r.0.reads j
              ∙ (subst
                    (λ (k : Keys).
                      (if key_equal k key j then none else at v j)
                      ≡ (if key_equal h key j then none else find h d j))
                    (sym s.keys) (rw (s.reads j) refl)
                  ∙ sym (find-remove_key laws key d j s.distinct));
          elts = r.0.elts ∙ (rw (s.reads key, s.elts) (sym (length-remove_key h key d)));
          distinct = IsDistinct-remove_key laws key d s.distinct;
        },
        ap value (r.1 ∙ s.reads key),
        omega (arith, length-remove_key h key d),
      )
  table_step-StandsFor v d elts s sized fits =
      (s, ap number (unfold hash_elts in s.elts), omega arith)
  table_step-StandsFor v d (resize n) s sized fits =
      let r = hash_resize-Same v n s.table sized.0 sized.1 (omega (arith, s.elts, fits)) in
      (Same-StandsFor s r, refl, omega arith)
  table_step-StandsFor v d dup s sized fits =
      let r =
        hash_resize-Same v (length v.buckets) s.table (size-pos s.table) (size-le s.table)
          (omega (arith, s.elts, fits)) in
      (unfold hash_dup in Same-StandsFor s r, refl, omega arith)

  n_put-head :
      (call : Call V) (calls : List (Call V))
      → n_put (call ∷ calls) ≡ n_put (call ∷ []) + n_put calls
  unfolding n_put
  n_put-head (get key) calls = omega arith
  n_put-head (put key x) calls = omega arith
  n_put-head (unset key) calls = omega arith
  n_put-head elts calls = omega arith
  n_put-head (resize n) calls = omega arith
  n_put-head dup calls = omega arith

  run-StandsFor :
      (calls : List (Call V)) (v : Table V) (d : List (Pair V))
      → StandsFor h v d
      → AllSized calls
      → length d + n_put calls ≤ 2 ^ 28
      → StandsFor h (run table_step v calls).0 (run (dictionary_step h) d calls).0
        × ((run table_step v calls).1 ≡ (run (dictionary_step h) d calls).1)
  unfolding run Steps
  run-StandsFor [] v d s sized fits = (s, refl)
  run-StandsFor (call ∷ calls) v d s sized fits =
      let r =
        table_step-StandsFor v d call s sized.0 (omega (arith, n_put-head call calls, fits)) in
      let rest =
        run-StandsFor calls (table_step call v).0 (dictionary_step h call d).0 r.0 sized.1
          (omega (arith, n_put-head call calls, r.2, fits)) in
      (rest.0, ap₂ ◌∷◌ r.1 rest.1)

  create-StandsFor : (n : ℕ) → n ≤ 2 ^ 30 → StandsFor h (hash_create2 {V = V} n h) []
  unfolding hash_create2
  create-StandsFor n small = record {
    table = create-IsTable V n small _ h laws;
    keys = unfold create in refl;
    reads = λ j. at-create V n _ h j ∙ unfold find in refl;
    elts = unfold create in refl;
    distinct = tt;
  }

  foreach-StandsFor :
      {v : Table V} {d : List (Pair V)}
      → StandsFor h v d
      → ((j : ℕ) → find h (hash_foreach_pair v) j ≡ find h d j)
        × (length (hash_foreach_pair v) ≡ length d)
        × IsDistinct h (hash_foreach_pair v)
  unfolding at
  foreach-StandsFor {v} s = (
    λ j. ap (λ (k : Keys). find k (hash_foreach_pair v) j) (sym s.keys) ∙ s.reads j,
    sym s.table.counted ∙ s.elts,
    subst (λ (k : Keys). IsDistinct k (hash_foreach_pair v)) s.keys
        (hash_foreach_pair-IsDistinct s.table),
  )

  -- Calls on a new table, of any size up to 2 ^ 30 and with functions on keys that fit, that set
  -- at most 2 ^ 28 times and resize to sizes from 1 to 2 ^ 30, return what they return on an empty
  -- dictionary. The table that they leave has as many elements as the dictionary, and under every
  -- key what the dictionary has; its loop over the pairs visits that many, with distinct keys.
  pub run-dictionary :
      (n : ℕ) (calls : List (Call V))
      → n ≤ 2 ^ 30
      → AllSized calls
      → n_put calls ≤ 2 ^ 28
      → let v = run table_step (hash_create2 n h) calls in
        let d = run (dictionary_step h) [] calls in
        (v.1 ≡ d.1)
        × (hash_elts v.0 ≡ length d.0)
        × ((j : ℕ) → find h (hash_foreach_pair v.0) j ≡ find h d.0 j)
        × (length (hash_foreach_pair v.0) ≡ length d.0)
        × IsDistinct h (hash_foreach_pair v.0)
  run-dictionary n calls small sized fits =
      let r =
        run-StandsFor calls (hash_create2 n h) [] (create-StandsFor n small) sized
          (omega (arith, fits)) in
      let visited = foreach-StandsFor r.0 in
      (r.1, unfold hash_elts in r.0.elts, visited.0, visited.1, visited.2)
