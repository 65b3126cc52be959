-- ===== src/Hash/Dictionary/Steps.antt =====
-- One call on a table of uclib/hash.c, and the same call on a dictionary.
use native.Mathlib.Nat.{pow-le-pow_right}
use uclib.Base.{
  ℕ, ◌+◌, ◌-◌, ◌*◌, ◌/◌, ◌^◌, ◌≤◌, ◌≡◌, refl, sym, ◌∙◌, inl, inr, false, not, ◌&&◌, Bool-cases,
  List, arith, ltb, ◌==◌, if◌then◌else◌, length, length_zero, Option, none, some,
}
use uclib.Word.Bits.{pow_pos}
use uclib.Hash.{
  Keys, key_equal, Pair, Table, Opcode, new_elts, value_of, lookup, hash_get, hash_set3, hash_unset,
  hash_foreach_pair, hash_resize, set3_with, set3_fuel,
}
use uclib.Hash.Pairs.{IsDistinct, find}
use uclib.Hash.Tables.{IsTable, at, lookup_lem}
use uclib.Hash.Growth.{SetTo, Same, resize_with-Same, set3_with-SetTo}
use uclib.Hash.Dictionary.Changes.{held}

module _ {ℓ} {V : Type ℓ} where
  pub size-pos : {v : Table V} → IsTable v → 1 ≤ length v.buckets
  size-pos t = omega (arith, t.size, pow_pos t.log2_capacity)

  pub size-le : {v : Table V} → IsTable v → length v.buckets ≤ 2 ^ 30
  size-le t =
      let le : 2 ^ t.log2_capacity ≤ 2 ^ 30 = pow-le-pow_right (omega arith) {j = 30} t.most in
      omega (arith, t.size, le)

  -- Resizing keeps the finite map, the number of elements and the invariant.
  pub hash_resize-Same :
      (v : Table V) (n : ℕ)
      → IsTable v
      → 1 ≤ n
      → n ≤ 2 ^ 30
      → v.elts ≤ 2 ^ 28
      → Same v (hash_resize v n)
  unfolding hash_resize
  hash_resize-Same v n t pos small fits =
      (resize_with-Same (set3_with set3_fuel) (set3_with-SetTo set3_fuel) v n t pos small fits).0

  pub hash_set3-SetTo :
      (v : Table V) (key : ℕ) (x : V)
      → IsTable v
      → v.elts + 1 ≤ 2 ^ 28
      → SetTo v key x (hash_set3 v key x).0 × ((hash_set3 v key x).1 ≡ at v key)
  unfolding hash_set3
  hash_set3-SetTo v key x t fits =
      let some_buckets : (length v.buckets == 0) ≡ false = ground (arith, size-pos t) in
      rw some_buckets
        (set3_with-SetTo set3_fuel v key x t fits, (lookup_lem t key (Opcode.put x)).old_value)

  pub record UnsetOf (v : Table V) (key : ℕ) (w : Table V) : Type ℓ where
    pub table : IsTable w
    pub same_keys : w.keys ≡ v.keys
    pub reads : (j : ℕ) → at w j ≡ (if key_equal v.keys key j then none else at v j)
    pub elts : w.elts ≡ v.elts - held (at v key)

  unset_elts :
      (n : ℕ) (old : Option (Pair V)) (o : Option V)
      → value_of old ≡ o
      → new_elts Opcode.unset old n ≡ n - held o
  unfolding new_elts value_of
  unset_elts n none o e = rw (sym e) (omega arith)
  unset_elts n (some p) o e = rw (sym e) refl

  lookup-UnsetOf :
      {v : Table V} (t : IsTable v) (key : ℕ) → UnsetOf v key (lookup v key Opcode.unset).0
  lookup-UnsetOf {v} t key =
      let r = lookup_lem t key Opcode.unset in
      record {
        table = r.table;
        same_keys = r.same_keys;
        reads = r.reads;
        elts = r.elts ∙ unset_elts v.elts _ (at v key) r.old_value;
      }

  UnsetOf-Same : {v w u : Table V} {key : ℕ} → UnsetOf v key w → Same w u → UnsetOf v key u
  UnsetOf-Same s r = record {
    table = r.table;
    same_keys = r.same_keys ∙ s.same_keys;
    reads = λ j. r.reads j ∙ s.reads j;
    elts = r.elts ∙ s.elts;
  }

  pub hash_unset-UnsetOf :
      (v : Table V) (key : ℕ)
      → IsTable v
      → v.elts ≤ 2 ^ 28
      → UnsetOf v key (hash_unset v key).0 × ((hash_unset v key).1 ≡ at v key)
  unfolding hash_unset
  hash_unset-UnsetOf v key t fits =
      let some_buckets : (length v.buckets == 0) ≡ false = ground (arith, size-pos t) in
      let w = (lookup v key Opcode.unset).0 in
      let s = lookup-UnsetOf t key in
      rw some_buckets (
        elim (Bool-cases (
            not w.flags.no_auto_shrink
            && (ltb 32 w.elts && ltb (4 * (w.elts + 1)) (length w.buckets)))) [
              | inl shrink ↦ rw shrink (
                  UnsetOf-Same s (
                    hash_resize-Same w (length w.buckets / 2) s.table (ground (arith, shrink))
                      (omega (arith, size-le s.table)) (omega (arith, s.elts, fits))))
              | inr keep ↦ rw keep s
            ],
        (lookup_lem t key Opcode.unset).old_value,
      )

  pub hash_get-at : (v : Table V) (key : ℕ) → IsTable v → hash_get v key ≡ at v key
  unfolding hash_get
  hash_get-at v key t = elim (Bool-cases (v.elts == 0)) [
    | inl nothing ↦ rw nothing (
        unfold at in
        rw (length_zero (hash_foreach_pair v) (ground (arith, nothing, t.counted)))
          (unfold find in refl))
    | inr more ↦ rw more (lookup_lem t key Opcode.get).old_value
  ]

  -- A table stands for a dictionary.
  pub record StandsFor (h : Keys) (v : Table V) (d : List (Pair V)) : Type ℓ where
    pub table : IsTable v
    pub keys : v.keys ≡ h
    pub reads : (j : ℕ) → at v j ≡ find h d j
    pub elts : v.elts ≡ length d
    pub distinct : IsDistinct h d
