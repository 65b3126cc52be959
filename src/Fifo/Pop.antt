-- ===== src/Fifo/Pop.antt =====
-- `clib_fifo_advance_head` and `clib_fifo_sub1` take elements from the front.
use uclib.Base.{
  ℕ, ◌+◌, ◌-◌, ◌≤◌, ◌<◌, ◌≡◌, refl, sym, ◌∙◌, ap, inl, inr, Bool, true, Bool-cases, [], arith, leb,
  ltb, ◌==◌, ◌&&◌, if◌then◌else◌, length, length_zero, get_or, drop, length-drop, get_or-drop,
  read_ext, some, none,
}
use uclib.Fifo.{
  Fifo, fifo_elts, wrap, fifo_foreach, move_head, fifo_advance_head, element_taken, fifo_sub1,
}
use uclib.Fifo.Ring.{IsFifo, fifo_elts_le, fifo_elts_of, length-foreach, get_or-foreach}

module _ {ℓ} {A : Type ℓ} where
  -- The mark of a ring that is full, or NULL.
  abbrev pub is_full : Fifo A → Bool
  is_full f = f.tail_index == (f.head_index + length f.elts)

  pub move_head-IsFifo :
      (f : Fifo A) (n : ℕ) → IsFifo f → n ≤ fifo_elts f → IsFifo (move_head f n).0
  unfolding move_head wrap
  move_head-IsFifo f n h le = record {
    bound = h.bound;
    head = ground (arith, h.head, h.bound, fifo_elts_le f h);
    tail = elim h.tail [
      | inl part ↦ inl (ground (arith, part, h.head))
      | inr full ↦ inl (ground (arith, full, h.head))
    ];
  }

  -- What is left. A ring that is full and moves by nothing is left with no element.
  pub fifo_elts-move_head :
      (f : Fifo A) (n : ℕ)
      → IsFifo f
      → n ≤ fifo_elts f
      → fifo_elts (move_head f n).0 ≡ (if n == 0 && is_full f then 0 else fifo_elts f - n)
  unfolding move_head wrap
  fifo_elts-move_head f n h le =
      let of = fifo_elts_of f in
      elim h.tail [
        | inl part ↦ fifo_elts_of _ ∙ ground (arith, part, of, h.head, h.bound)
        | inr full ↦ fifo_elts_of _ ∙ ground (arith, full, of, h.head, h.bound)
      ]

  wrap_again :
      (f : Fifo A) (n i : ℕ)
      → IsFifo f
      → n + i < fifo_elts f
      → wrap (length f.elts) ((move_head f n).0.head_index + i)
        ≡ wrap (length f.elts) (f.head_index + (n + i))
  unfolding wrap move_head
  wrap_again f n i h lt = ground (arith, h.head, h.bound, fifo_elts_le f h, lt)

  -- What is left in a ring after its head has moved.
  pub foreach-move_head :
      (blank : A) (f : Fifo A) (n : ℕ)
      → IsFifo f
      → n ≤ fifo_elts f
      → fifo_foreach blank (move_head f n).0
        ≡ (if n == 0 && is_full f then [] else drop n (fifo_foreach blank f))
  unfolding move_head
  foreach-move_head blank f n h le =
      let r = (move_head f n).0 in
      let count = fifo_elts-move_head f n h le in
      let lf = length-foreach blank f in
      let lr = length-foreach blank r in
      elim (Bool-cases (n == 0 && is_full f)) [
        | inl nothing ↦
            rw nothing (length_zero (fifo_foreach blank r) (ground (arith, lr, count, nothing)))
        | inr left ↦
            let e : fifo_elts r ≡ fifo_elts f - n = ground (arith, count, left) in
            rw left (
              read_ext blank (fifo_foreach blank r) (drop n (fifo_foreach blank f))
                (omega (arith, lr, e, length-drop n (fifo_foreach blank f), lf))
                (λ i lt.
                  get_or-foreach blank r i (move_head-IsFifo f n h le) (omega (arith, lr))
                  ∙ (ap (λ (t : ℕ). get_or f.elts t blank)
                        (wrap_again f n i h (omega (arith, lr, e)))
                      ∙ (sym (get_or-foreach blank f (n + i) h (omega (arith, lr, e)))
                          ∙ sym (get_or-drop n (fifo_foreach blank f) i blank)))))
      ]

  -- In a ring with elements, the head can move by as many as are in use.
  advance_head_some :
      (f : Fifo A) (n : ℕ)
      → IsFifo f
      → 0 < length f.elts
      → n ≤ fifo_elts f
      → fifo_advance_head f n ≡ some (move_head f n)
  unfolding fifo_advance_head wrap
  advance_head_some f n h pos le =
      let inside : (leb n (fifo_elts f)
            && ltb
                (if leb (length f.elts) (f.head_index + n)
                  then f.head_index + n - length f.elts
                  else f.head_index + n)
                (length f.elts))
          ≡ true =
        ground (arith, le, pos, h.head, fifo_elts_le f h) in
      rw inside refl

  -- A ring with its invariant that is not NULL, and a head that moves by at most as many elements as
  -- are in use: no assertion fails, and the loop then sees the others, but nothing where a full ring
  -- moves by none.
  pub foreach-advance_head :
      (blank : A) (f : Fifo A) (n : ℕ)
      → IsFifo f
      → 0 < length f.elts
      → n ≤ fifo_elts f
      → (g : Fifo A) × (fifo_advance_head f n ≡ some (g, f.head_index))
        × (fifo_foreach blank g
            ≡ (if n == 0 && is_full f then [] else drop n (fifo_foreach blank f)))
  foreach-advance_head blank f n h pos le = (
    (move_head f n).0,
    advance_head_some f n h pos le ∙ unfold move_head in refl,
    foreach-move_head blank f n h le,
  )

  wrap_head : (f : Fifo A) → IsFifo f → f.head_index ≡ wrap (length f.elts) (f.head_index + 0)
  unfolding wrap
  wrap_head f h = ground (arith, h.head)

  -- The front of a ring that is not empty, and the assertion of an empty one.
  pub sub1_some :
      (blank : A) (f : Fifo A)
      → IsFifo f
      → 0 < fifo_elts f
      → fifo_sub1 blank f ≡ some ((move_head f 1).0, get_or (fifo_foreach blank f) 0 blank)
  unfolding fifo_sub1 element_taken
  sub1_some blank f h pos =
      let more : leb 1 (fifo_elts f) ≡ true = ground (arith, pos) in
      let front : get_or f.elts f.head_index blank ≡ get_or (fifo_foreach blank f) 0 blank =
        ap (λ (t : ℕ). get_or f.elts t blank) (wrap_head f h)
        ∙ sym (get_or-foreach blank f 0 h pos) in
      let head =
        advance_head_some f 1 h (omega (arith, pos, fifo_elts_le f h)) (omega (arith, pos)) in
      rw (more, head) (unfold move_head in ap (λ (x : A). some ((move_head f 1).0, x)) front)

  pub sub1_none : (blank : A) (f : Fifo A) → fifo_elts f ≡ 0 → fifo_sub1 blank f ≡ none
  unfolding fifo_sub1
  sub1_none blank f e = rw e refl
