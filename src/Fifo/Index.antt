-- ===== src/Fifo/Index.antt =====
-- The index in the vector of an element of the queue, and moving the tail back.
use uclib.Base.{
  ℕ, ◌-◌, ◌≤◌, ◌<◌, ◌≡◌, sym, ◌∙◌, inl, inr, arith, get_or, take, length-take, get_or-take,
  read_ext,
}
use uclib.Fifo.{
  Fifo, fifo_elts, wrap, fifo_foreach, fifo_elt_index, fifo_index_for_elt_index, fifo_retract_tail,
}
use uclib.Fifo.Ring.{
  IsFifo, fifo_elts_le, fifo_free_elts_lem, fifo_elts_of, length-foreach, get_or-foreach,
}

module _ {ℓ} {A : Type ℓ} where
  -- Of a ring with its invariant, element `i` in use is the one that the loop over the ring sees at
  -- place `i`, and the place for its index is `i` again.
  pub elt_index_lem :
      (blank : A) (f : Fifo A) (i : ℕ)
      → IsFifo f
      → i < fifo_elts f
      → (get_or f.elts (fifo_elt_index f i) blank ≡ get_or (fifo_foreach blank f) i blank)
        × (fifo_index_for_elt_index f (fifo_elt_index f i) ≡ i)
  unfolding fifo_elt_index fifo_index_for_elt_index wrap
  elt_index_lem blank f i h lt =
      (sym (get_or-foreach blank f i h lt), ground (arith, h.head, fifo_elts_le f h, lt))

  retract_tail-IsFifo :
      (f : Fifo A) (k : ℕ)
      → IsFifo f
      → 0 < k
      → k ≤ fifo_elts f
      → IsFifo (fifo_retract_tail f k).0 × (fifo_elts (fifo_retract_tail f k).0 ≡ fifo_elts f - k)
  unfolding fifo_retract_tail wrap
  retract_tail-IsFifo f k h pos le =
      let free = fifo_free_elts_lem f h in
      let of = fifo_elts_of f in
      let most = fifo_elts_le f h in
      elim h.tail [
        | inl part ↦ (
          record {
            bound = h.bound;
            head = h.head;
            tail = inl (ground (arith, part, free, h.head, h.bound, of, most));
          },
          fifo_elts_of _ ∙ ground (arith, part, free, h.head, h.bound, of, most),
        )
        | inr full ↦ (
          record {
            bound = h.bound;
            head = h.head;
            tail = inl (ground (arith, full, free, h.head, h.bound, of, most));
          },
          fifo_elts_of _ ∙ ground (arith, full, free, h.head, h.bound, of, most),
        )
      ]

  -- Moving the tail back takes the last `k` elements away.
  pub foreach-retract_tail :
      (blank : A) (f : Fifo A) (k : ℕ)
      → IsFifo f
      → 0 < k
      → k ≤ fifo_elts f
      → fifo_foreach blank (fifo_retract_tail f k).0 ≡ take (fifo_elts f - k) (fifo_foreach blank f)
  unfolding fifo_retract_tail
  foreach-retract_tail blank f k h pos le =
      let g = (fifo_retract_tail f k).0 in
      let r = retract_tail-IsFifo f k h pos le in
      let lf = length-foreach blank f in
      let lg = length-foreach blank g in
      read_ext blank (fifo_foreach blank g) (take (fifo_elts f - k) (fifo_foreach blank f))
        (omega (
          arith,
          lg,
          r.1,
          lf,
          length-take (fifo_elts f - k) (fifo_foreach blank f) (omega (arith, lf)),
        ))
        (λ i lt.
          get_or-foreach blank g i r.0 (omega (arith, lg))
          ∙ (sym (get_or-foreach blank f i h (omega (arith, lg, r.1)))
              ∙ sym (
                  get_or-take (fifo_elts f - k) (fifo_foreach blank f) i blank
                    (omega (arith, lg, r.1)))))
