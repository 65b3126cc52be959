-- ===== src/Fifo/Ring.antt =====
-- The invariant of a ring, and the elements that a loop over it sees.
use uclib.Base.{
  ℕ, zero, suc, ◌+◌, ◌-◌, ◌^◌, ◌≤◌, ◌<◌, ◌≡◌, refl, ◌∙◌, ap, ◌⊎◌, inl, inr, List, arith, ltb,
  if◌then◌else◌, length, get_or,
}
use uclib.Fifo.{Fifo, fifo_elts, fifo_free_elts, wrap, visit, fifo_foreach, null}

module _ {ℓ} {A : Type ℓ} where
  -- The head is an index of the ring, or 0; the tail is one too, or marks a ring that is full.
  pub record IsFifo (f : Fifo A) : Type 0 where
    pub bound : length f.elts ≤ 2 ^ 31
    pub head : f.head_index ≤ length f.elts - 1
    pub tail : (f.tail_index ≤ length f.elts - 1) ⊎ (f.tail_index ≡ f.head_index + length f.elts)

  pub null-IsFifo : IsFifo null
  null-IsFifo = record { bound = omega arith; head = omega arith; tail = inl (omega arith) }

  pub fifo_elts_of :
      (f : Fifo A)
      → fifo_elts f ≡ (
          if ltb f.tail_index f.head_index
          then f.tail_index + length f.elts - f.head_index
          else f.tail_index - f.head_index)
  unfolding fifo_elts
  fifo_elts_of f = refl

  pub fifo_elts_le : (f : Fifo A) → IsFifo f → fifo_elts f ≤ length f.elts
  unfolding fifo_elts
  fifo_elts_le f h = elim h.tail [
    | inl le ↦ ground (arith, h.head, le)
    | inr full ↦ ground (arith, h.head, full)
  ]

  pub fifo_free_elts_lem : (f : Fifo A) → IsFifo f → fifo_free_elts f ≡ length f.elts - fifo_elts f
  unfolding fifo_free_elts
  fifo_free_elts_lem f h = omega (arith, fifo_elts_le f h, h.bound)

  -- The tail of a ring that is not full is behind the elements.
  pub tail_lem :
      (f : Fifo A)
      → IsFifo f
      → fifo_elts f < length f.elts
      → f.tail_index ≡ wrap (length f.elts) (f.head_index + fifo_elts f)
  unfolding fifo_elts wrap
  tail_lem f h less = elim h.tail [
    | inl le ↦ ground (arith, h.head, le, less)
    | inr full ↦ ground (arith, h.head, full, less)
  ]

  module _ (blank : A) where
    pub length-visit : (xs : List A) (n i : ℕ) → length (visit blank xs i n) ≡ n
    unfolding visit
    length-visit xs zero i = refl
    length-visit xs (suc n) i = ap suc (length-visit xs n _)

    pub get_or-visit :
        (xs : List A) (n j i : ℕ)
        → i < length xs
        → n ≤ length xs
        → j < n
        → get_or (visit blank xs i n) j blank ≡ get_or xs (wrap (length xs) (i + j)) blank
    unfolding visit wrap
    get_or-visit xs zero j i p q r = absurd (omega arith)
    get_or-visit xs (suc n) zero i p q r = ap (λ (t : ℕ). get_or xs t blank) (ground arith)
    get_or-visit xs (suc n) (suc j) i p q r =
        get_or-visit xs n j _ (ground arith) (omega arith) (omega arith)
        ∙ ap (λ (t : ℕ). get_or xs t blank) (ground arith)

    pub length-foreach : (f : Fifo A) → length (fifo_foreach blank f) ≡ fifo_elts f
    unfolding fifo_foreach
    length-foreach f = length-visit f.elts (fifo_elts f) f.head_index

    pub get_or-foreach :
        (f : Fifo A) (j : ℕ)
        → IsFifo f
        → j < fifo_elts f
        → get_or (fifo_foreach blank f) j blank
          ≡ get_or f.elts (wrap (length f.elts) (f.head_index + j)) blank
    unfolding fifo_foreach
    get_or-foreach f j h lt =
        get_or-visit f.elts (fifo_elts f) j f.head_index (omega (arith, h.head, fifo_elts_le f h))
          (fifo_elts_le f h) lt
