-- ===== src/Hash/Tables.antt =====
-- The invariant of the tables of uclib/hash.c, and what `lookup` does to a whole table.
use uclib.Base.{
  ℕ, ◌+◌, ◌-◌, ◌^◌, ◌≤◌, ◌<◌, bit_and, ◌≡◌, ◌≢◌, refl, sym, ◌∙◌, ap, subst, inl, inr, true, false,
  Bool-cases, List, [], ◌∷◌, arith, ◌==◌, if◌then◌else◌, length, length-set, get_or, set,
  get_or-set_self, get_or-set_ne, Option, none, some,
}
use uclib.Word.Bits.{bit_and_mask, pow_pos}
use uclib.Hash.{
  Keys, key_equal, Pair, Bucket, empty, Table, Opcode, get, put, unset, entries, bucket_pairs,
  hash_foreach_pair, index, lookup, lookup_bucket, new_elts, value_of,
}
use uclib.Hash.Pairs.{IsKeys, find}
use uclib.Hash.Buckets.{BucketEffect, lookup_bucket-Effect, outcome}
use uclib.Hash.Places.{
  IsPlaced, IsBucket, bucket_at, set-IsPlaced, length-bucket_pairs-set, find-bucket,
}

-- The place of a key among `n` buckets.
abbrev pub place : Keys → ℕ → ℕ → ℕ
place h n k = bit_and (h.key_sum k) (n - 1)

pub place-lt : (h : Keys) (n k b : ℕ) → n ≡ 2 ^ b → place h n k < n
place-lt h n k b e = rw e (rw (bit_and_mask b (h.key_sum k)) (grind (arith, pow_pos b)))

pub respects :
    {h : Keys} (laws : IsKeys h) (n a b : ℕ) → key_equal h a b ≡ true → place h n a ≡ place h n b
respects laws n a b e = ap (λ (s : ℕ). bit_and s (n - 1)) (laws.equal_sum a b e)

module _ {ℓ} {V : Type ℓ} where
  pub record IsTable (v : Table V) : Type ℓ where
    pub laws : IsKeys v.keys
    pub log2_capacity : ℕ
    pub size : length v.buckets ≡ 2 ^ log2_capacity
    pub least : 6 ≤ log2_capacity
    pub most : log2_capacity ≤ 30
    pub placed : IsPlaced v.keys (place v.keys (length v.buckets)) 0 v.buckets
    pub counted : v.elts ≡ length (hash_foreach_pair v)

  -- The finite map of a table.
  unfoldable pub at : Table V → ℕ → Option V
  at v j = find v.keys (hash_foreach_pair v) j

  new_elts_shift :
      (h : Keys) (op : Opcode V) (old : Option (Pair V)) (ps : List (Pair V)) (key n m l : ℕ)
      → value_of old ≡ find h ps key
      → m + length ps ≡ n + l
      → l ≡ new_elts op old (length ps)
      → m ≡ new_elts op old n
  unfolding new_elts value_of find
  new_elts_shift h get old ps key n m l e sum count = omega arith
  new_elts_shift h (put x) none ps key n m l e sum count = omega arith
  new_elts_shift h (put x) (some p) ps key n m l e sum count = omega arith
  new_elts_shift h unset none ps key n m l e sum count = omega arith
  new_elts_shift h unset (some p) [] key n m l e sum count = absurd (cc)
  new_elts_shift h unset (some p) (q ∷ ps) key n m l e sum count = omega arith

  -- What an operation with a key does to a table.
  pub record Lookup (v : Table V) (key : ℕ) (op : Opcode V) (w : Table V) (old : Option (Pair V))
      : Type ℓ where
    pub table : IsTable w
    pub same_keys : w.keys ≡ v.keys
    pub old_value : value_of old ≡ at v key
    pub reads :
        (j : ℕ) → at w j ≡ (if key_equal v.keys key j then outcome op (at v key) else at v j)
    pub elts : w.elts ≡ new_elts op old v.elts
    pub size : length w.buckets ≡ length v.buckets

  -- The finite map, read in the bucket of a key.
  at-bucket :
      {v : Table V} (t : IsTable v) (j i : ℕ)
      → place v.keys (length v.buckets) j ≡ i
      → at v j ≡ find v.keys (entries (get_or v.buckets i empty)) j
  unfolding at hash_foreach_pair
  at-bucket {v} t j i e =
      find-bucket v.keys (place v.keys (length v.buckets)) (respects t.laws (length v.buckets)) 0 j
        v.buckets i t.placed (omega (arith, e))

  abbrev new_table : Table V → ℕ → Opcode V → Bucket V × Option (Pair V) → Table V
  new_table v i op r = record v { elts = new_elts op r.1 v.elts; buckets = set v.buckets i r.0 }

  module _ {v : Table V} (t : IsTable v) (key : ℕ) (op : Opcode V) (r : Bucket V × Option (Pair V))
      (i : ℕ) (here : place v.keys (length v.buckets) key ≡ i)
      (eff : BucketEffect v.keys
        (λ k. place v.keys (length v.buckets) k ≡ i)
        key
        op
        (get_or v.buckets i empty)
        r) where
    inside : i < length v.buckets
    inside =
        subst (λ (m : ℕ). m < length v.buckets) here
          (place-lt v.keys (length v.buckets) key t.log2_capacity t.size)

    new-size : length (new_table v i op r).buckets ≡ length v.buckets
    new-size = length-set v.buckets i r.0

    new-counted : (new_table v i op r).elts ≡ length (hash_foreach_pair (new_table v i op r))
    unfolding hash_foreach_pair
    new-counted =
        ap (new_elts op r.1) t.counted
        ∙ sym (
            new_elts_shift v.keys op r.1 (entries (get_or v.buckets i empty)) key
              (length (bucket_pairs v.buckets)) (length (bucket_pairs (set v.buckets i r.0)))
              (length (entries r.0)) eff.0.old_value
              (length-bucket_pairs-set v.buckets i r.0 inside) eff.0.count)

    new-IsTable : IsTable (new_table v i op r)
    new-IsTable = record {
      laws = t.laws;
      log2_capacity = t.log2_capacity;
      size = new-size ∙ t.size;
      least = t.least;
      most = t.most;
      placed =
          let e : 0 + i ≡ i = omega arith in
          rw new-size (
            set-IsPlaced v.keys (place v.keys (length v.buckets)) 0 v.buckets i r.0 t.placed
              (rw e (eff.0.distinct, eff.0.placed, eff.1)));
      counted = new-counted;
    }

    new-reads :
        (j : ℕ)
        → at (new_table v i op r) j
          ≡ (if key_equal v.keys key j then outcome op (at v key) else at v j)
    new-reads j =
        let n = length v.buckets in
        let m = place v.keys n j in
        let at_j : place v.keys (length (set v.buckets i r.0)) j ≡ m =
          ap (λ (l : ℕ). place v.keys l j) new-size in
        elim (Bool-cases (i == m)) [
          | inl same ↦
              let e : m ≡ i = ground (arith, same) in
              at-bucket new-IsTable j i (at_j ∙ e)
              ∙ (ap (λ (b : Bucket V). find v.keys (entries b) j)
                    (get_or-set_self v.buckets i r.0 empty inside)
                  ∙ (eff.0.reads j ∙ rw (at-bucket t j i e, at-bucket t key i here) refl))
          | inr other ↦
              let ne : i ≢ m = ground (arith, other) in
              let differ : key_equal v.keys key j ≡ false =
                elim (Bool-cases (key_equal v.keys key j)) [
                  | inl e ↦ absurd (ne (sym here ∙ respects t.laws n key j e))
                  | inr f ↦ f
                ] in
              rw differ (
                at-bucket new-IsTable j m at_j
                ∙ (ap (λ (b : Bucket V). find v.keys (entries b) j)
                      (get_or-set_ne v.buckets i m r.0 empty ne)
                    ∙ sym (at-bucket t j m refl)))
        ]

    new-Lookup : Lookup v key op (new_table v i op r) r.1
    new-Lookup = record {
      table = new-IsTable;
      same_keys = refl;
      old_value = eff.0.old_value ∙ sym (at-bucket t key i here);
      reads = new-reads;
      elts = refl;
      size = new-size;
    }

  -- `lookup` keeps the invariant and changes what is under its key.
  pub lookup_lem :
      {v : Table V} (t : IsTable v) (key : ℕ) (op : Opcode V)
      → Lookup v key op (lookup v key op).0 (lookup v key op).1
  unfolding lookup index
  lookup_lem {v} t key op =
      let h = v.keys in
      let n = length v.buckets in
      let i = place h n key in
      let e : 0 + i ≡ i = omega arith in
      let is =
        subst (λ (m : ℕ). IsBucket h (place h n) m (get_or v.buckets i empty)) e
          (bucket_at h (place h n) 0 v.buckets i t.placed
            (place-lt h n key t.log2_capacity t.size)) in
      new-Lookup t key op (lookup_bucket h key op (get_or v.buckets i empty)) i refl (
        lookup_bucket-Effect t.laws {P = λ k. place h n k ≡ i} key refl (get_or v.buckets i empty)
          is.0 is.1 is.2 op)
