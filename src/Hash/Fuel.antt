-- ===== src/Hash/Fuel.antt =====
-- The fuel of `_hash_set3` of uclib/hash.c, with its recursion as one that has no result where the
-- fuel runs out: each table that grows within a growing one is twice as large.
use uclib.Base.{
  ℕ, zero, suc, ◌+◌, ◌*◌, ◌^◌, ◌≤◌, ◌<◌, ◌≡◌, refl, sym, Option, some, none, if◌then◌else◌, ◌∙◌, ap,
  inl, inr, not, ◌&&◌, Bool-cases, List, [], ◌∷◌, arith, ltb, false, ◌==◌, length,
}
use native.Mathlib.Nat.{pow-le-pow_right, mul-le-mul_right}
use uclib.Word.Bits.{pow_double, pow_pos}
use uclib.Hash.{
  Pair, Table, put, hash_foreach_pair, create, lookup, set_pairs, null, resize_with, set3_with,
  set3_fuel, hash_set3,
}
use uclib.Hash.Tables.{IsTable, at}
use uclib.Hash.Growth.{added-le, Sets, lookup-SetTo, set3_with-SetTo}
use uclib.Hash.Capacity.{create-IsTable, length-create}

twice_le : (n m e p q : ℕ) → q ≡ 2 * p → e ≤ 3 * (n * q) → 2 * n ≤ m → e ≤ 3 * (m * p)
twice_le n m e p q double enough large =
    let scaled : n * q ≡ 2 * n * p = rw double (grind arith) in
    let le : 2 * n * p ≤ m * p = mul-le-mul_right p large in omega (arith, enough, scaled, le)

plenty : (n p e : ℕ) → 1 ≤ n → e ≤ 3 * p → e ≤ 3 * (n * p)
plenty n p e pos h = grind arith

module _ {ℓ} {V : Type ℓ} where
  unfoldable pub and_then : (Table V → Option (Table V)) → Option (Table V) → Option (Table V)
  and_then next none = none
  and_then next (some v) = next v

  -- The recursion of `_hash_set3` with a result only where it ends: `none` where the fuel, which each
  -- call takes one of, runs out anywhere within it.
  unfoldable pub set_pairs_result :
      (Table V → ℕ → V → Option (Table V)) → Table V → List (Pair V) → Option (Table V)
  set_pairs_result set3 new [] = some new
  set_pairs_result set3 new (p ∷ ps) = and_then (λ t. set_pairs_result set3 t ps) (set3 new p.0 p.1)

  unfoldable pub resize_result :
      (Table V → ℕ → V → Option (Table V)) → Table V → ℕ → Option (Table V)
  resize_result set3 old new_size =
      if ltb 0 new_size
      then set_pairs_result set3 (create new_size old.flags old.keys) (hash_foreach_pair old)
      else some null

  unfoldable pub set3_result : ℕ → Table V → ℕ → V → Option (Table V)
  set3_result zero v key x = none
  set3_result (suc fuel) v key x =
      let w = (lookup v key (put x)).0 in
      let grown = resize_result (set3_result fuel) w (2 * length w.buckets) in
      if not w.flags.no_auto_grow && ltb (3 * length w.buckets) (4 * (w.elts + 1))
      then grown
      else some w

  -- Two ways to set a key agree on tables with at least `n` buckets and fewer than `e` elements.
  abbrev Agree : ℕ → ℕ → (Table V → ℕ → V → Table V) → (Table V → ℕ → V → Table V) → Type ℓ
  Agree n e s1 s2 =
      (v : Table V) (key : ℕ) (x : V)
      → IsTable v
      → n ≤ length v.buckets
      → v.elts + 1 ≤ e
      → s1 v key x ≡ s2 v key x

  module _ (s1 s2 : Table V → ℕ → V → Table V) (sets : Sets s1) (n e : ℕ) (small : e ≤ 2 ^ 28)
      (agree : Agree n e s1 s2) where
    set_pairs-Agree :
        (ps : List (Pair V)) (v : Table V)
        → IsTable v
        → n ≤ length v.buckets
        → v.elts + length ps ≤ e
        → set_pairs s1 v ps ≡ set_pairs s2 v ps
    unfolding set_pairs
    set_pairs-Agree [] v t large fits = refl
    set_pairs-Agree (p ∷ ps) v t large fits =
        let s = sets v p.0 p.1 t (omega (arith, fits, small)) in
        set_pairs-Agree ps (s1 v p.0 p.1) s.table (omega (arith, large, s.larger))
          (omega (arith, s.elts, added-le (at v p.0), fits))
        ∙ ap (λ (w : Table V). set_pairs s2 w ps) (agree v p.0 p.1 t large (omega (arith, fits)))

    resize_with-Agree :
        (v : Table V)
        → IsTable v
        → n ≤ 2 ^ 30
        → v.elts ≤ e
        → resize_with s1 v n ≡ resize_with s2 v n
    unfolding resize_with
    resize_with-Agree v t fits few = elim (Bool-cases (ltb 0 n)) [
      | inl some_size ↦
          let new = create {V = V} n v.flags v.keys in
          let zero_elts : new.elts ≡ 0 = unfold create in refl in
          rw some_size (
            set_pairs-Agree (hash_foreach_pair v) new
              (create-IsTable V n fits v.flags v.keys t.laws)
              (length-create V n fits v.flags v.keys).enough
              (omega (arith, zero_elts, t.counted, few)))
      | inr no_size ↦ rw no_size refl
    ]

  -- A way to set a key ends, and so, on tables with at least `n` buckets and fewer than `e` elements.
  abbrev EndsAs :
      ℕ → ℕ → (Table V → ℕ → V → Option (Table V)) → (Table V → ℕ → V → Table V) → Type ℓ
  EndsAs n e r s =
      (v : Table V) (key : ℕ) (x : V)
      → IsTable v
      → n ≤ length v.buckets
      → v.elts + 1 ≤ e
      → r v key x ≡ some (s v key x)

  module _ (r : Table V → ℕ → V → Option (Table V)) (s : Table V → ℕ → V → Table V) (sets : Sets s)
      (n e : ℕ) (small : e ≤ 2 ^ 28) (ends : EndsAs n e r s) where
    set_pairs-ends :
        (ps : List (Pair V)) (v : Table V)
        → IsTable v
        → n ≤ length v.buckets
        → v.elts + length ps ≤ e
        → set_pairs_result r v ps ≡ some (set_pairs s v ps)
    unfolding set_pairs set_pairs_result and_then
    set_pairs-ends [] v t large fits = refl
    set_pairs-ends (p ∷ ps) v t large fits =
        let w = sets v p.0 p.1 t (omega (arith, fits, small)) in
        ap (and_then (λ u. set_pairs_result r u ps)) (ends v p.0 p.1 t large (omega (arith, fits)))
        ∙ set_pairs-ends ps (s v p.0 p.1) w.table (omega (arith, large, w.larger))
            (omega (arith, w.elts, added-le (at v p.0), fits))

    resize-ends :
        (v : Table V)
        → IsTable v
        → n ≤ 2 ^ 30
        → v.elts ≤ e
        → resize_result r v n ≡ some (resize_with s v n)
    unfolding resize_with resize_result
    resize-ends v t fits few = elim (Bool-cases (ltb 0 n)) [
      | inl some_size ↦
          let new = create {V = V} n v.flags v.keys in
          let zero_elts : new.elts ≡ 0 = unfold create in refl in
          rw some_size (
            set_pairs-ends (hash_foreach_pair v) new (create-IsTable V n fits v.flags v.keys t.laws)
              (length-create V n fits v.flags v.keys).enough
              (omega (arith, zero_elts, t.counted, few)))
      | inr no_size ↦ rw no_size refl
    ]

  -- Fuel for a table that is large enough after so many doublings.
  more_fuel :
      (fuel : ℕ) (v : Table V) (key : ℕ) (x : V)
      → IsTable v
      → v.elts + 1 ≤ 2 ^ 28
      → 4 * (v.elts + 2) ≤ 3 * (length v.buckets * 2 ^ fuel)
      → set3_with fuel v key x ≡ set3_with (suc fuel) v key x
  unfolding set3_with
  more_fuel zero v key x t fits enough =
      let w = (lookup v key (put x)).0 in
      let s = lookup-SetTo t key x in
      elim (Bool-cases
        (not w.flags.no_auto_grow && ltb (3 * length w.buckets) (4 * (w.elts + 1)))) [
          | inl grow ↦
              let less : 3 * length w.buckets < 4 * (w.elts + 1) = ground (arith, grow) in
              absurd (omega (arith, less, s.elts, s.larger, added-le (at v key), enough))
          | inr keep ↦ rw keep refl
        ]
  more_fuel (suc fuel) v key x t fits enough =
      let w = (lookup v key (put x)).0 in
      let s = lookup-SetTo t key x in
      elim (Bool-cases
        (not w.flags.no_auto_grow && ltb (3 * length w.buckets) (4 * (w.elts + 1)))) [
          | inl grow ↦
              let less : 3 * length w.buckets < 4 * (w.elts + 1) = ground (arith, grow) in
              let few : w.elts ≤ v.elts + 1 = omega (arith, s.elts, added-le (at v key)) in
              rw grow (
                resize_with-Agree (set3_with fuel) (set3_with (suc fuel)) (set3_with-SetTo fuel)
                  (2 * length w.buckets) w.elts (omega (arith, few, fits))
                  (λ u k y tu large fewer.
                    more_fuel fuel u k y tu (omega (arith, fewer, few, fits)) (
                      twice_le (length v.buckets) (length u.buckets) (4 * (u.elts + 2)) (2 ^ fuel)
                        (2 ^ suc fuel) (pow_double fuel) (omega (arith, enough, fewer, few))
                        (omega (arith, large, s.larger))))
                  w s.table (omega (arith, less, few, fits)) (omega arith))
          | inr keep ↦ rw keep refl
        ]

  -- With one unit of fuel more than doublings are needed, the recursion ends.
  result-ends :
      (fuel : ℕ) (v : Table V) (key : ℕ) (x : V)
      → IsTable v
      → v.elts + 1 ≤ 2 ^ 28
      → 4 * (v.elts + 2) ≤ 3 * (length v.buckets * 2 ^ fuel)
      → set3_result (suc fuel) v key x ≡ some (set3_with fuel v key x)
  unfolding set3_with set3_result
  result-ends zero v key x t fits enough =
      let w = (lookup v key (put x)).0 in
      let s = lookup-SetTo t key x in
      elim (Bool-cases
        (not w.flags.no_auto_grow && ltb (3 * length w.buckets) (4 * (w.elts + 1)))) [
          | inl grow ↦
              let less : 3 * length w.buckets < 4 * (w.elts + 1) = ground (arith, grow) in
              absurd (omega (arith, less, s.elts, s.larger, added-le (at v key), enough))
          | inr keep ↦ rw keep refl
        ]
  result-ends (suc fuel) v key x t fits enough =
      let w = (lookup v key (put x)).0 in
      let s = lookup-SetTo t key x in
      elim (Bool-cases
        (not w.flags.no_auto_grow && ltb (3 * length w.buckets) (4 * (w.elts + 1)))) [
          | inl grow ↦
              let less : 3 * length w.buckets < 4 * (w.elts + 1) = ground (arith, grow) in
              let few : w.elts ≤ v.elts + 1 = omega (arith, s.elts, added-le (at v key)) in
              rw grow (
                resize-ends (set3_result (suc fuel)) (set3_with fuel) (set3_with-SetTo fuel)
                  (2 * length w.buckets) w.elts (omega (arith, few, fits))
                  (λ u k y tu large fewer.
                    result-ends fuel u k y tu (omega (arith, fewer, few, fits)) (
                      twice_le (length v.buckets) (length u.buckets) (4 * (u.elts + 2)) (2 ^ fuel)
                        (2 ^ suc fuel) (pow_double fuel) (omega (arith, enough, fewer, few))
                        (omega (arith, large, s.larger))))
                  w s.table (omega (arith, less, few, fits)) (omega arith))
          | inr keep ↦ rw keep refl
        ]

  enough_fuel :
      (more : ℕ) (v : Table V) (key : ℕ) (x : V)
      → IsTable v
      → v.elts + 1 ≤ 2 ^ 28
      → set3_with set3_fuel v key x ≡ set3_with (more + set3_fuel) v key x
  enough_fuel zero v key x t fits = let e : 0 + set3_fuel ≡ set3_fuel = omega arith in rw e refl
  enough_fuel (suc more) v key x t fits =
      let e : suc more + set3_fuel ≡ suc (more + set3_fuel) = omega arith in
      let le : 2 ^ set3_fuel ≤ 2 ^ (more + set3_fuel) =
        pow-le-pow_right (omega arith) {i = set3_fuel} (omega arith) in
      rw e (
        enough_fuel more v key x t fits
        ∙ more_fuel (more + set3_fuel) v key x t fits (
            plenty (length v.buckets) (2 ^ (more + set3_fuel)) (4 * (v.elts + 2))
              (omega (arith, t.size, pow_pos t.log2_capacity)) (omega (arith, le, fits))))

  -- Setting a key in a table of fewer than 2 ^ 28 elements ends: with 33 units of fuel or more, one for
  -- each call within a call, the recursion has a result, and that is the table that `hash_set3` leaves.
  pub hash_set3-fuel :
      (more : ℕ) (v : Table V) (key : ℕ) (x : V)
      → IsTable v
      → v.elts + 1 ≤ 2 ^ 28
      → set3_result (suc (more + set3_fuel)) v key x ≡ some (hash_set3 v key x).0
  unfolding hash_set3
  hash_set3-fuel more v key x t fits =
      let some_buckets : (length v.buckets == 0) ≡ false =
        ground (arith, t.size, pow_pos t.log2_capacity) in
      let le : 2 ^ set3_fuel ≤ 2 ^ (more + set3_fuel) =
        pow-le-pow_right (omega arith) {i = set3_fuel} (omega arith) in
      rw some_buckets (
        result-ends (more + set3_fuel) v key x t fits (
          plenty (length v.buckets) (2 ^ (more + set3_fuel)) (4 * (v.elts + 2))
            (omega (arith, t.size, pow_pos t.log2_capacity)) (omega (arith, le, fits)))
        ∙ ap some (sym (enough_fuel more v key x t fits)))
