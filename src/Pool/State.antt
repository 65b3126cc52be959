-- ===== src/Pool/State.antt =====
-- The invariant of a pool, and what allocating and freeing an index do.
use uclib.Base.{
  ℕ, zero, suc, ◌+◌, ◌-◌, ◌%◌, ◌^◌, ◌≤◌, ◌<◌, ◌≡◌, refl, true, false, not, ◌&&◌, ◌||◌, [], ◌∷◌,
  ◌++◌, arith, ltb, ◌==◌, if◌then◌else◌, Bool-cases, inl, inr, length, get_or, length-append, take,
  take-all, get_or-append_below, get_or-set,
}
use uclib.Word.{from_bool}
use uclib.Bitmap.{get, ori}
use uclib.Bitmap.Bits.{get-immediate}
use uclib.Bitmap.Alu.{IsWords}
use uclib.Bitmap.Whole.{andnoti-IsWords, ori-IsWords}
use uclib.Pool.{
  Pool, pool_get_free_index, pool_put_index, pool_is_free_index, pool_set_elt, pool_elt, pool_elts,
  foreach_from, pool_foreach_index,
}
use uclib.Pool.Lists.{
  count, count-append, count-top, take-append_top, get_or-append_top, total, total-ext,
  length-total,
}

-- The free indices are below the length and stand once each in the stack; the length fits 32 bits.
pub record IsPool {ℓ} {A : Type ℓ} (p : Pool A) : Type 0 where
  pub inside : (i : ℕ) → get p.free_bitmap i ≡ true → i < length p.elts
  pub stack : (i : ℕ) → count i p.free_indices ≡ from_bool (get p.free_bitmap i)
  pub words : IsWords p.free_bitmap
  pub narrow : length p.elts < 2 ^ 32

module _ {ℓ} {A : Type ℓ} where
  -- The top of the stack is a free index.
  top-free :
      (p : Pool A)
      → IsPool p
      → 0 < length p.free_indices
      → get p.free_bitmap (get_or p.free_indices (length p.free_indices - 1) 0) ≡ true
  top-free p w h =
      let i = get_or p.free_indices (length p.free_indices - 1) 0 in
      ground (arith, count-top i p.free_indices h, w.stack i)

  -- The vector with one object more, where its length still fits 32 bits.
  one_more :
      (fresh : A) (p : Pool A)
      → length p.elts + 1 < 2 ^ 32
      → take ((length p.elts + 1) % 2 ^ 32) (p.elts ++ fresh ∷ []) ≡ p.elts ++ fresh ∷ []
  one_more fresh p room =
      let e : (length p.elts + 1) % 2 ^ 32 ≡ length p.elts + 1 = omega (arith, room) in
      rw e (
        take-all (length p.elts + 1) (p.elts ++ fresh ∷ [])
          (omega (arith, length-append p.elts (fresh ∷ []))))

  -- Allocation keeps the invariant, while a vector with one object more has a length of 32 bits.
  pub pool_get_free_index-IsPool :
      (fresh : A) (p : Pool A)
      → length p.elts + 1 < 2 ^ 32
      → IsPool p
      → IsPool (pool_get_free_index fresh p).0
  unfolding pool_get_free_index
  pool_get_free_index-IsPool fresh p room w =
      let i = get_or p.free_indices (length p.free_indices - 1) 0 in
      elim (Bool-cases (ltb 0 (length p.free_indices))) [
        | inl some_free ↦ rw some_free (record {
          inside = λ j h. w.inside j (ground (arith, (get-immediate p.free_bitmap i j).1));
          stack = λ j.
              let free = top-free p w (ground arith) in
              elim (Bool-cases (i == j)) [
                | inl same ↦
                    let e : i ≡ j = ground arith in
                    ground (
                      arith,
                      (get-immediate p.free_bitmap i j).1,
                      w.stack j,
                      count-top j p.free_indices (ground arith),
                      rw e at free,
                    )
                | inr other ↦ ground (
                  arith,
                  (get-immediate p.free_bitmap i j).1,
                  w.stack j,
                  count-top j p.free_indices (ground arith),
                )
              ];
          words = andnoti-IsWords p.free_bitmap i w.words;
          narrow = w.narrow;
        })
        | inr none_free ↦
            rw (none_free, one_more fresh p room)
              (record {
                inside = λ j h. omega (arith, w.inside j h, length-append p.elts (fresh ∷ []));
                stack = w.stack;
                words = w.words;
                narrow = omega (arith, room, length-append p.elts (fresh ∷ []));
              })
      ]

  -- Freeing an index in use keeps the invariant.
  pub pool_put_index-IsPool :
      (p : Pool A) (i : ℕ) → pool_is_free_index p i ≡ false → IsPool p → IsPool (pool_put_index p i)
  unfolding pool_put_index pool_is_free_index
  pool_put_index-IsPool p i used w =
      let used_bit : (i < length p.elts) × (get p.free_bitmap i ≡ false) = ground arith in
      let narrow : i % 2 ^ 32 ≡ i = omega (arith, w.narrow) in
      record {
        inside = λ j h. ground (arith, (get-immediate p.free_bitmap i j).0, w.inside j);
        stack = λ j.
            rw (narrow, count-append j p.free_indices i, (get-immediate p.free_bitmap i j).0)
              (elim (Bool-cases (i == j)) [
                | inl same ↦
                    let e : i ≡ j = ground arith in
                    let clear : get p.free_bitmap j ≡ false = rw e at used_bit.1 in
                    rw same (ground (arith, w.stack j))
                | inr other ↦ rw other (omega (arith, w.stack j))
              ]);
        words = ori-IsWords p.free_bitmap i w.words;
        narrow = w.narrow;
      }

  is_free :
      (p : Pool A) (j : ℕ)
      → pool_is_free_index p j ≡ (if ltb j (length p.elts) then get p.free_bitmap j else true)
  unfolding pool_is_free_index
  is_free p j = refl

  -- Allocation, while a vector with one object more has a length of 32 bits, returns an index that was
  -- free and is in use from then on; every other index stays as it is, and so do the objects of the
  -- pool.
  pub pool_get_free_index_lem :
      (fresh : A) (p : Pool A) (j : ℕ)
      → length p.elts + 1 < 2 ^ 32
      → IsPool p
      → let r = pool_get_free_index fresh p in
        (pool_is_free_index p r.1 ≡ true)
        × (pool_is_free_index r.0 j ≡ (not (r.1 == j) && pool_is_free_index p j))
        × (j < length p.elts → pool_elt fresh r.0 j ≡ pool_elt fresh p j)
  unfolding pool_get_free_index pool_is_free_index pool_elt
  pool_get_free_index_lem fresh p j room w =
      let i = get_or p.free_indices (length p.free_indices - 1) 0 in
      elim (Bool-cases (ltb 0 (length p.free_indices))) [
        | inl some_free ↦
            let free = top-free p w (ground arith) in
            rw some_free (
              ground (arith, free),
              ground (
                arith,
                is_free p j,
                w.inside i free,
                (get-immediate p.free_bitmap i j).1,
                λ (h : i ≡ j). rw h at free,
              ),
              λ h. refl,
            )
        | inr none_free ↦
            rw (none_free, one_more fresh p room)
              (
                ground (arith, length-append p.elts (fresh ∷ [])),
                ground (arith, is_free p j, w.inside j, length-append p.elts (fresh ∷ [])),
                λ h. get_or-append_below p.elts (fresh ∷ []) j fresh h,
              )
      ]

  -- Freeing an index makes it free and changes no other index and no object.
  pool_put_index_lem :
      (outside : A) (p : Pool A) (i j : ℕ)
      → pool_is_free_index p i ≡ false
      → (pool_is_free_index (pool_put_index p i) j ≡ (i == j || pool_is_free_index p j))
        × (pool_elt outside (pool_put_index p i) j ≡ pool_elt outside p j)
  unfolding pool_put_index pool_is_free_index pool_elt
  pool_put_index_lem outside p i j used =
      (ground (arith, (get-immediate p.free_bitmap i j).0), refl)

  -- The index that was freed last is allocated next, and then the same indices are free as before.
  pool_get_free_index-put_index :
      (fresh : A) (p : Pool A) (i j : ℕ)
      → pool_is_free_index p i ≡ false
      → IsPool p
      → let r = pool_get_free_index fresh (pool_put_index p i) in
        (r.1 ≡ i)
        × (pool_is_free_index r.0 j ≡ pool_is_free_index p j)
        × (r.0.free_indices ≡ p.free_indices)
        × (r.0.elts ≡ p.elts)
  unfolding pool_get_free_index pool_is_free_index pool_put_index
  pool_get_free_index-put_index fresh p i j used w =
      let inside : i < length p.elts = ground arith in
      let narrow : i % 2 ^ 32 ≡ i = omega (arith, w.narrow) in
      let l : length (p.free_indices ++ i ∷ []) ≡ suc (length p.free_indices) =
        omega (arith, length-append p.free_indices (i ∷ [])) in
      let e : suc (length p.free_indices) - 1 ≡ length p.free_indices = omega arith in
      let some_free : ltb 0 (suc (length p.free_indices)) ≡ true = ground arith in
      rw
        (
          narrow,
          l,
          e,
          some_free,
          get_or-append_top p.free_indices i,
          take-append_top p.free_indices i,
        )
        (
          refl,
          ground (
            arith,
            is_free p j,
            (get-immediate p.free_bitmap i j).0,
            (get-immediate (ori p.free_bitmap i) i j).1,
            λ (h : i ≡ j). rw h at used,
          ),
          refl,
          refl,
        )

  -- An object that pool_set_elt stored is read back at the index it returned, and every object in
  -- use before is still there.
  pool_elt-set_elt :
      (fresh : A) (p : Pool A) (e : A) (j : ℕ)
      → length p.elts + 1 < 2 ^ 32
      → IsPool p
      → let r = pool_set_elt fresh p e in
        (pool_elt fresh r.0 r.1 ≡ e)
        × (pool_is_free_index p j ≡ false → pool_elt fresh r.0 j ≡ pool_elt fresh p j)
  unfolding pool_set_elt pool_elt pool_is_free_index
  pool_elt-set_elt fresh p e j room w =
      let r = pool_get_free_index fresh p in
      let l = pool_get_free_index_lem fresh p r.1 room w in
      let k = pool_get_free_index_lem fresh p j room w in
      let inside : r.1 < length r.0.elts = ground (arith, is_free r.0 r.1, l.1) in
      (
        rw (get_or-set r.0.elts r.1 r.1 e fresh inside) (ground arith),
        λ used.
            let other : (r.1 == j) ≡ false = ground (arith, k.0, λ (h : r.1 ≡ j). rw h at k.0) in
            rw (get_or-set r.0.elts r.1 j e fresh inside, other)
              (k.2 (ground (arith, is_free p j))),
      )

  length-foreach_from :
      (p : Pool A) (n i : ℕ)
      → i + n ≤ length p.elts
      → length (foreach_from p n i) + total (λ (k : ℕ). from_bool (get p.free_bitmap k)) n i ≡ n
  unfolding foreach_from
  length-foreach_from p zero i h = refl
  length-foreach_from p (suc n) i h =
      ground (arith, is_free p i, length-foreach_from p n (i + 1) (omega arith))

  -- `pool_elts` is the number of indices in use.
  pool_elts-foreach_index : (p : Pool A) → IsPool p → pool_elts p ≡ length (pool_foreach_index p)
  unfolding pool_elts pool_foreach_index
  pool_elts-foreach_index p w =
      let n = length p.elts in
      let f = length-total n p.free_indices (λ k h. ground (arith, w.stack k, w.inside k)) in
      let g =
        total-ext (λ (k : ℕ). count k p.free_indices) (λ (k : ℕ). from_bool (get p.free_bitmap k)) n
          0 (λ k a b. w.stack k) in
      omega (arith, f, g, length-foreach_from p n 0 (omega arith), w.narrow)
