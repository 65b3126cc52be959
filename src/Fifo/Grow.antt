-- ===== src/Fifo/Grow.antt =====
-- A larger ring: `_clib_fifo_resize` keeps the elements, and has room for the new ones.
use uclib.Base.{
  ℕ, ◌+◌, ◌-◌, ◌^◌, ◌≤◌, ◌<◌, ◌≡◌, refl, sym, ◌∙◌, ap, inl, inr, true, false, Bool-cases, List,
  arith, ltb, leb, length, get_or, take, drop, replicate, length-append, length-replicate,
  length-take, length-drop, get_or-append_below, get_or-append_behind, get_or-take, get_or-drop,
  read_ext,
}
use uclib.Word.MaxPow2.{max_pow2_ge, max_pow2_le}
use uclib.Fifo.{
  Fifo, fifo_elts, fifo_free_elts, wrap, copy_old, new_len, fifo_resize, fifo_foreach,
  fifo_validate,
}
use uclib.Fifo.Ring.{IsFifo, fifo_elts_le, fifo_free_elts_lem, length-foreach, get_or-foreach}

pub new_len_ge : (n : ℕ) → n < 2 ^ 63 → n ≤ new_len n
unfolding new_len
new_len_ge n h = ground (arith, max_pow2_ge n)

pub new_len_le : (n : ℕ) → n ≤ 2 ^ 31 → new_len n ≤ 2 ^ 31
unfolding new_len
new_len_le n h = ground (arith, max_pow2_le n)

wrap_inside : (l i : ℕ) → i < l → wrap l (0 + i) ≡ i
unfolding wrap
wrap_inside l i h = ground arith

module _ {ℓ} {A : Type ℓ} where
  length-copy_old : (f : Fifo A) → IsFifo f → length (copy_old f) ≡ fifo_elts f
  unfolding copy_old
  length-copy_old f h =
      let n = fifo_elts f in
      let xs = f.elts in
      let c = length xs - f.head_index in
      let le = fifo_elts_le f h in
      let head : f.head_index ≤ length xs = omega (arith, h.head) in
      elim (Bool-cases (ltb 0 n)) [
        | inl some ↦ elim (Bool-cases (leb (length xs) (f.head_index + n))) [
          | inl twice ↦
              let over : length xs ≤ f.head_index + n = ground arith in
              rw (some, twice)
                (omega (
                  arith,
                  le,
                  head,
                  over,
                  length-append (take c (drop f.head_index xs)) (take (n - c) xs),
                  length-take c (drop f.head_index xs) (omega (arith, length-drop f.head_index xs)),
                  length-take (n - c) xs (omega arith),
                ))
          | inr once ↦
              let under : f.head_index + n < length xs = ground arith in
              rw (some, once)
                (length-take n (drop f.head_index xs) (omega (arith, length-drop f.head_index xs)))
        ]
        | inr none ↦ rw none (ground arith)
      ]

  get_or-copy_old :
      (blank : A) (f : Fifo A) (j : ℕ)
      → IsFifo f
      → j < fifo_elts f
      → get_or (copy_old f) j blank ≡ get_or f.elts (wrap (length f.elts) (f.head_index + j)) blank
  unfolding copy_old wrap
  get_or-copy_old blank f j h lt =
      let n = fifo_elts f in
      let xs = f.elts in
      let c = length xs - f.head_index in
      let le = fifo_elts_le f h in
      let head : f.head_index ≤ length xs = omega (arith, h.head) in
      let some : ltb 0 n ≡ true = ground (arith, lt) in
      elim (Bool-cases (leb (length xs) (f.head_index + n))) [
        | inl twice ↦
            let over : length xs ≤ f.head_index + n = ground arith in
            let l : length (take c (drop f.head_index xs)) ≡ c =
              length-take c (drop f.head_index xs) (omega (arith, length-drop f.head_index xs)) in
            rw (some, twice)
              (elim (Bool-cases (leb (length xs) (f.head_index + j))) [
                | inl behind ↦
                    let ge : length xs ≤ f.head_index + j = ground arith in
                    rw behind (
                      get_or-append_behind (take c (drop f.head_index xs)) (take (n - c) xs) j blank
                        (omega (arith, l, ge))
                      ∙ (get_or-take (n - c) xs (j - length (take c (drop f.head_index xs))) blank
                            (omega (arith, l, ge, lt))
                          ∙ ap (λ (t : ℕ). get_or xs t blank) (omega (arith, l, ge, head))))
                | inr before ↦
                    let less : f.head_index + j < length xs = ground arith in
                    rw before (
                      get_or-append_below (take c (drop f.head_index xs)) (take (n - c) xs) j blank
                        (omega (arith, l, less))
                      ∙ (get_or-take c (drop f.head_index xs) j blank (omega (arith, less))
                          ∙ get_or-drop f.head_index xs j blank))
              ])
        | inr once ↦
            let inside : leb (length xs) (f.head_index + j) ≡ false = ground (arith, once, lt) in
            rw (some, once, inside)
              (get_or-take n (drop f.head_index xs) j blank lt
                ∙ get_or-drop f.head_index xs j blank)
      ]

  -- Elements from the start of the vector on.
  fifo_elts_start :
      (xs : List A) (t : ℕ)
      → let f : Fifo A = record { elts = xs; head_index = 0; tail_index = t } in fifo_elts f ≡ t
  unfolding fifo_elts
  fifo_elts_start xs t = ground arith

  module _ (blank : A) where
    pub fifo_elts-resize :
        (f : Fifo A) (n : ℕ)
        → IsFifo f
        → n + fifo_elts f ≤ 2 ^ 31
        → fifo_elts (fifo_resize blank f n) ≡ fifo_elts f
    unfolding fifo_resize
    fifo_elts-resize f n h fits =
        fifo_elts_start (fifo_resize blank f n).elts _ ∙ omega (arith, fits)

    pub length-resize :
        (f : Fifo A) (n : ℕ)
        → IsFifo f
        → n + fifo_elts f ≤ 2 ^ 31
        → length (fifo_resize blank f n).elts ≡ new_len (n + fifo_elts f)
    unfolding fifo_resize
    length-resize f n h fits = omega (
      arith,
      length-append (copy_old f) (replicate (new_len (n + fifo_elts f) - fifo_elts f) blank),
      length-copy_old f h,
      length-replicate (new_len (n + fifo_elts f) - fifo_elts f) blank,
      new_len_ge (n + fifo_elts f) (omega arith),
    )

    pub resize-IsFifo :
        (f : Fifo A) (n : ℕ) → IsFifo f → n + fifo_elts f ≤ 2 ^ 31 → IsFifo (fifo_resize blank f n)
    unfolding fifo_resize
    resize-IsFifo f n h fits =
        let le = new_len_ge (n + fifo_elts f) (omega arith) in
        let bound = new_len_le (n + fifo_elts f) fits in
        let l = length-resize f n h fits in
        record {
          bound = omega (arith, l, bound);
          head = omega arith;
          tail = elim (Bool-cases (ltb (fifo_elts f) (new_len (n + fifo_elts f)))) [
            | inl less ↦ inl (ground (arith, l, less))
            | inr full ↦ inr (ground (arith, l, le, full, bound))
          ];
        }

    pub foreach-resize :
        (f : Fifo A) (n : ℕ)
        → IsFifo f
        → n + fifo_elts f ≤ 2 ^ 31
        → fifo_foreach blank (fifo_resize blank f n) ≡ fifo_foreach blank f
    unfolding fifo_resize
    foreach-resize f n h fits =
        let r = fifo_resize blank f n in
        let ri = resize-IsFifo f n h fits in
        let le = new_len_ge (n + fifo_elts f) (omega arith) in
        let n_elts = fifo_elts-resize f n h fits in
        let l = length-resize f n h fits in
        read_ext blank (fifo_foreach blank r) (fifo_foreach blank f)
          (length-foreach blank r ∙ (n_elts ∙ sym (length-foreach blank f)))
          (λ i lt.
            let less : i < fifo_elts f = omega (arith, length-foreach blank r, n_elts) in
            get_or-foreach blank r i ri (omega (arith, n_elts))
            ∙ (ap (λ (t : ℕ). get_or r.elts t blank)
                  (wrap_inside (length r.elts) i (omega (arith, l, le)))
                ∙ (get_or-append_below (copy_old f) _ i blank (omega (arith, length-copy_old f h))
                    ∙ (get_or-copy_old blank f i h less ∙ sym (get_or-foreach blank f i h less)))))

    -- Room for `n` more elements.
    pub record IsGrown (f v : Fifo A) (n : ℕ) : Type ℓ where
      pub ring : IsFifo v
      pub same : fifo_elts v ≡ fifo_elts f
      pub room : n + fifo_elts v ≤ length v.elts
      pub kept : fifo_foreach blank v ≡ fifo_foreach blank f

    pub validate-IsGrown :
        (f : Fifo A) (n : ℕ)
        → IsFifo f
        → n + fifo_elts f ≤ 2 ^ 31
        → IsGrown f (fifo_validate blank f n) n
    unfolding fifo_validate
    validate-IsGrown f n h fits =
        let free = fifo_free_elts_lem f h in
        elim (Bool-cases (ltb (fifo_free_elts f) n)) [
          | inl less ↦
              let same = fifo_elts-resize f n h fits in
              rw less record {
                ring = resize-IsFifo f n h fits;
                same = same;
                room = omega (
                  arith,
                  same,
                  length-resize f n h fits,
                  new_len_ge (n + fifo_elts f) (omega arith),
                );
                kept = foreach-resize f n h fits;
              }
          | inr enough ↦ rw enough record {
            ring = h;
            same = refl;
            room = ground (arith, enough, free, fifo_elts_le f h);
            kept = refl;
          }
        ]
