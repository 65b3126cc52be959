-- ===== src/Fifo/Push.antt =====
-- `clib_fifo_add1` and `clib_fifo_add` put their elements behind those of the ring.
use uclib.Base.{
  ℕ, ◌+◌, ◌-◌, ◌%◌, ◌^◌, ◌≤◌, ◌<◌, ◌≡◌, refl, sym, ◌∙◌, ap, inl, inr, true, Bool-cases, List, [],
  ◌∷◌, ◌++◌, arith, ltb, ◌==◌, if◌then◌else◌, length, get_or, set, length-append, length-set,
  get_or-append_below, get_or-append_behind, read_ext, get_or-set_self, get_or-set_ne,
}
use uclib.Fifo.{
  Fifo, fifo_elts, fifo_free_elts, wrap, fifo_foreach, fifo_validate, fifo_advance_tail, fifo_add1,
  fifo_add,
}
use uclib.Fifo.Ring.{
  IsFifo, fifo_free_elts_lem, tail_lem, fifo_elts_of, length-foreach, get_or-foreach,
}
use uclib.Fifo.Grow.{validate-IsGrown}
use uclib.Fifo.Copies.{
  n_over, over_le, apart, wrap_twice, copies, length-copies, get_or-copies_new, get_or-copies_old,
}

module _ {ℓ} {A : Type ℓ} (blank : A) where
  -- The ring `v` after `k` elements were written to `xs` and the tail moved on.
  abbrev moved : Fifo A → ℕ → List A → Fifo A
  moved v k xs = record {
    elts = xs;
    head_index = v.head_index;
    tail_index =
        if (fifo_free_elts v - k) == 0
        then (v.head_index + length v.elts) % 2 ^ 32
        else wrap (length v.elts) (v.tail_index + k) % 2 ^ 32;
  }

  moved-IsFifo :
      (v : Fifo A) (k : ℕ) (xs : List A)
      → IsFifo v
      → 0 < k
      → k + fifo_elts v ≤ length v.elts
      → length xs ≡ length v.elts
      → IsFifo (moved v k xs)
  unfolding wrap
  moved-IsFifo v k xs h pos room l =
      let free = fifo_free_elts_lem v h in
      let tail = tail_lem v h (omega (arith, pos)) in
      record {
        bound = omega (arith, l, h.bound);
        head = omega (arith, l, h.head);
        tail = elim (Bool-cases ((fifo_free_elts v - k) == 0)) [
          | inl full ↦ rw full (inr (omega (arith, l, h.head, h.bound)))
          | inr part ↦ rw part (inl (ground (arith, l, h.head, h.bound, free, tail)))
        ];
      }

  fifo_elts-moved :
      (v : Fifo A) (k : ℕ) (xs : List A)
      → IsFifo v
      → 0 < k
      → k + fifo_elts v ≤ length v.elts
      → length xs ≡ length v.elts
      → fifo_elts (moved v k xs) ≡ k + fifo_elts v
  unfolding wrap
  fifo_elts-moved v k xs h pos room l =
      let free = fifo_free_elts_lem v h in
      let tail = tail_lem v h (omega (arith, pos)) in
      elim (Bool-cases ((fifo_free_elts v - k) == 0)) [
        | inl full ↦ rw full (fifo_elts_of _ ∙ ground (arith, l, h.head, h.bound, free, room, full))
        | inr part ↦
            rw part (fifo_elts_of _ ∙ ground (arith, l, h.head, h.bound, free, tail, room, part))
      ]

  -- A write of `e` behind the elements of the ring.
  push_lem :
      (v : Fifo A) (xs e : List A)
      → IsFifo v
      → 0 < length e
      → length e + fifo_elts v ≤ length v.elts
      → length xs ≡ length v.elts
      → ((j : ℕ)
          → j < fifo_elts v
          → let p = wrap (length v.elts) (v.head_index + j) in
            get_or xs p blank ≡ get_or v.elts p blank)
      → ((j : ℕ)
          → j < length e
          → get_or xs (wrap (length v.elts) (v.head_index + fifo_elts v + j)) blank
            ≡ get_or e j blank)
      → IsFifo (moved v (length e) xs)
        × (fifo_foreach blank (moved v (length e) xs) ≡ fifo_foreach blank v ++ e)
  push_lem v xs e h pos room l old new =
      let r = moved v (length e) xs in
      let ri = moved-IsFifo v (length e) xs h pos room l in
      let n = fifo_elts-moved v (length e) xs h pos room l in
      let lf = length-foreach blank v in
      (
        ri,
        read_ext blank (fifo_foreach blank r) (fifo_foreach blank v ++ e)
            (omega (arith, length-foreach blank r, n, length-append (fifo_foreach blank v) e, lf))
            (λ j lt.
              let inside : j < fifo_elts r = omega (arith, length-foreach blank r) in
              let wrapped : get_or xs (wrap (length xs) (v.head_index + j)) blank
                  ≡ get_or xs (wrap (length v.elts) (v.head_index + j)) blank =
                ap (λ (t : ℕ). get_or xs (wrap t (v.head_index + j)) blank) l in
              get_or-foreach blank r j ri inside
              ∙ (wrapped ∙ elim (Bool-cases (ltb j (fifo_elts v))) [
                | inl before ↦
                    let less : j < fifo_elts v = ground (arith, before) in
                    old j less
                    ∙ sym (
                        get_or-append_below (fifo_foreach blank v) e j blank (omega (arith, lf))
                        ∙ get_or-foreach blank v j h less)
                | inr behind ↦
                    let ge : fifo_elts v ≤ j = ground (arith, behind) in
                    ap (λ (t : ℕ). get_or xs (wrap (length v.elts) t) blank) (omega (arith, ge))
                    ∙ (new (j - fifo_elts v) (omega (arith, ge, n, inside))
                        ∙ (ap (λ (t : ℕ). get_or e (j - t) blank) (sym lf)
                            ∙ sym (
                                get_or-append_behind (fifo_foreach blank v) e j blank
                                  (omega (arith, lf)))))
              ])),
      )

  -- One element more: the ring is one again, and the element is the last.
  pub foreach-add1 :
      (f : Fifo A) (e : A)
      → IsFifo f
      → fifo_elts f < 2 ^ 31
      → IsFifo (fifo_add1 blank f e)
        × (fifo_foreach blank (fifo_add1 blank f e) ≡ fifo_foreach blank f ++ e ∷ [])
  unfolding fifo_add1 fifo_advance_tail wrap
  foreach-add1 f e h fits =
      let v = fifo_validate blank f 1 in
      let g = validate-IsGrown blank f 1 h (omega (arith, fits)) in
      let tail = tail_lem v g.ring (omega (arith, g.room)) in
      let inside : v.tail_index < length v.elts = ground (arith, tail, g.room, g.ring.head) in
      let r =
        push_lem v (set v.elts v.tail_index e) (e ∷ []) g.ring (omega arith) g.room
          (length-set v.elts v.tail_index e)
          (λ j lt.
            get_or-set_ne v.elts v.tail_index _ e blank
              (λ same. ground (arith, tail, same, g.room, lt, g.ring.head)))
          (λ j lt.
            let p : wrap (length v.elts) (v.head_index + fifo_elts v + j) ≡ v.tail_index =
              ground (arith, tail, lt) in
            let z : j ≡ 0 = omega (arith, lt) in
            ap (λ (t : ℕ). get_or (set v.elts v.tail_index e) t blank) p
            ∙ (get_or-set_self v.elts v.tail_index e blank inside
                ∙ ap (λ (t : ℕ). get_or (e ∷ []) t blank) (sym z))) in
      (r.0, r.1 ∙ ap (λ (t : List A). t ++ e ∷ []) g.kept)

  tail_inside :
      (v : Fifo A)
      → IsFifo v
      → fifo_elts v < length v.elts
      → wrap (length v.elts) (v.head_index + fifo_elts v) < length v.elts
  unfolding wrap
  tail_inside v h less = ground (arith, h.head, less)

  -- Several elements more, in one or two copies.
  pub foreach-add :
      (f : Fifo A) (e : List A)
      → IsFifo f
      → 0 < length e
      → length e + fifo_elts f ≤ 2 ^ 31
      → IsFifo (fifo_add blank f e)
        × (fifo_foreach blank (fifo_add blank f e) ≡ fifo_foreach blank f ++ e)
  unfolding fifo_add fifo_advance_tail
  foreach-add f e h pos fits =
      let v = fifo_validate blank f (length e) in
      let g = validate-IsGrown blank f (length e) h fits in
      let tail = tail_lem v g.ring (omega (arith, g.room, pos)) in
      let inside : v.tail_index < length v.elts =
        omega (arith, tail, tail_inside v g.ring (omega (arith, g.room, pos))) in
      let n1 = n_over v.tail_index (length e) (length v.elts) in
      let le : length e ≤ length v.elts = omega (arith, g.room) in
      let some : ltb 0 (length e) ≡ true = ground (arith, pos) in
      let r =
        push_lem v (copies v.elts v.tail_index e n1) e g.ring pos g.room
          (length-copies v.elts e v.tail_index n1 inside le refl)
          (λ j lt.
            get_or-copies_old v.elts e v.tail_index n1 inside le refl blank _
              (over_le (length v.elts) v.head_index (fifo_elts v) (length e) v.tail_index
                g.ring.head g.room pos tail j lt)
              (apart (length v.elts) v.head_index (fifo_elts v) (length e) v.tail_index g.ring.head
                g.room pos tail j lt))
          (λ j lt.
            ap (λ (t : ℕ). get_or (copies v.elts v.tail_index e n1) t blank)
              (wrap_twice (length v.elts) v.head_index (fifo_elts v) (length e) v.tail_index
                g.ring.head g.room pos tail j lt)
            ∙ get_or-copies_new v.elts e v.tail_index n1 inside le refl blank j lt) in
      rw some (r.0, r.1 ∙ ap (λ (t : List A). t ++ e) g.kept)
