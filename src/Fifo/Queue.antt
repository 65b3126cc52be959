-- ===== src/Fifo/Queue.antt =====
-- The promise of a fifo: a list to which elements are added at the end, and taken at the front.
use uclib.Base.{
  ℕ, ◌+◌, ◌-◌, ◌^◌, ◌≤◌, ◌<◌, ◌≡◌, refl, sym, ◌∙◌, ap, inl, inr, Bool-cases, List, [], ◌∷◌, ◌++◌,
  arith, ltb, length, length-append, length_zero, length-drop, get_or, drop, Option, some, none,
}
use uclib.Fifo.{
  Fifo, null, fifo_elts, fifo_foreach, visit, fifo_add1, fifo_add, fifo_sub1, move_head,
}
use uclib.Fifo.Ring.{IsFifo, null-IsFifo, length-foreach}
use uclib.Fifo.Push.{foreach-add1, foreach-add}
use uclib.Fifo.Pop.{move_head-IsFifo, foreach-move_head, sub1_some, sub1_none}

-- Calls of `clib_fifo_add1`, of `clib_fifo_add` with an element and more, of `clib_fifo_sub1`.
pub data Call {ℓ} (A : Type ℓ) : Type ℓ where
  add1 : A → Call A
  add : A → List A → Call A
  sub1 : Call A

infixl 5 ◌>>=◌
abbrev pub ◌>>=◌ {ℓ κ} : {A : Type ℓ} {B : Type κ} → Option A → (A → Option B) → Option B
none >>= f = none
some a >>= f = f a

module _ {ℓ} {A : Type ℓ} where
  -- The elements that the calls add.
  unfoldable pub n_added : List (Call A) → ℕ
  n_added [] = 0
  n_added (add1 e ∷ calls) = 1 + n_added calls
  n_added (add e es ∷ calls) = length (e ∷ es) + n_added calls
  n_added (sub1 ∷ calls) = n_added calls

  -- What the calls of `clib_fifo_sub1` return; `none` after one on an empty queue.
  unfoldable pub run : A → Fifo A → List (Call A) → Option (Fifo A × List A)
  run blank f [] = some (f, [])
  run blank f (add1 e ∷ calls) = run blank (fifo_add1 blank f e) calls
  run blank f (add e es ∷ calls) = run blank (fifo_add blank f (e ∷ es)) calls
  run blank f (sub1 ∷ calls) = do
    r ← fifo_sub1 blank f
    rest ← run blank r.0 calls
    some (rest.0, r.1 ∷ rest.1)

  unfoldable pub run_queue : List A → List (Call A) → Option (List A × List A)
  run_queue q [] = some (q, [])
  run_queue q (add1 e ∷ calls) = run_queue (q ++ e ∷ []) calls
  run_queue q (add e es ∷ calls) = run_queue (q ++ e ∷ es) calls
  run_queue [] (sub1 ∷ calls) = none
  run_queue (x ∷ q) (sub1 ∷ calls) = do rest ← run_queue q calls; some (rest.0, x ∷ rest.1)

  -- The elements of the queue in the place of the ring.
  unfoldable pub view : A → Option (Fifo A × List A) → Option (List A × List A)
  view blank none = none
  view blank (some (f, taken)) = some (fifo_foreach blank f, taken)

  front_lem : (d : A) (xs : List A) → 0 < length xs → xs ≡ get_or xs 0 d ∷ drop 1 xs
  front_lem d [] h = absurd (omega arith)
  front_lem d (x ∷ xs) h = refl

  view-taken :
      (blank x : A) (r : Option (Fifo A × List A))
      → view blank (r >>= λ rest. some (rest.0, x ∷ rest.1))
        ≡ (view blank r >>= λ rest. some (rest.0, x ∷ rest.1))
  unfolding view
  view-taken blank x none = refl
  view-taken blank x (some r) = refl

  run-run_queue :
      (blank : A) (calls : List (Call A)) (f : Fifo A)
      → IsFifo f
      → fifo_elts f + n_added calls ≤ 2 ^ 31
      → view blank (run blank f calls) ≡ run_queue (fifo_foreach blank f) calls
  unfolding run run_queue view n_added
  run-run_queue blank [] f h fits = refl
  run-run_queue blank (add1 e ∷ calls) f h fits =
      let g = fifo_add1 blank f e in
      let r = foreach-add1 blank f e h (omega arith) in
      let n : fifo_elts g ≡ fifo_elts f + 1 =
        sym (length-foreach blank g)
        ∙ (ap length r.1
            ∙ omega
                (arith, length-append (fifo_foreach blank f) (e ∷ []), length-foreach blank f)) in
      run-run_queue blank calls g r.0 (omega (arith, n))
      ∙ ap (λ (q : List A). run_queue q calls) r.1
  run-run_queue blank (add e es ∷ calls) f h fits =
      let g = fifo_add blank f (e ∷ es) in
      let r = foreach-add blank f (e ∷ es) h (omega arith) (omega arith) in
      let n : fifo_elts g ≡ fifo_elts f + length (e ∷ es) =
        sym (length-foreach blank g)
        ∙ (ap length r.1
            ∙ omega
                (arith, length-append (fifo_foreach blank f) (e ∷ es), length-foreach blank f)) in
      run-run_queue blank calls g r.0 (omega (arith, n))
      ∙ ap (λ (q : List A). run_queue q calls) r.1
  run-run_queue blank (sub1 ∷ calls) f h fits = elim (Bool-cases (ltb 0 (fifo_elts f))) [
    | inl more ↦
        let pos : 0 < fifo_elts f = ground (arith, more) in
        let g = (move_head f 1).0 in
        let x = get_or (fifo_foreach blank f) 0 blank in
        let kept : fifo_foreach blank g ≡ drop 1 (fifo_foreach blank f) =
          foreach-move_head blank f 1 h (omega arith) in
        let n : fifo_elts g ≡ fifo_elts f - 1 =
          sym (length-foreach blank g)
          ∙ (ap length kept
              ∙ omega (arith, length-drop 1 (fifo_foreach blank f), length-foreach blank f)) in
        let ih =
          run-run_queue blank calls g (move_head-IsFifo f 1 h (omega arith)) (omega (arith, n)) in
        rw (sub1_some blank f h pos) (
          view-taken blank x (run blank g calls)
          ∙ (ap (λ (r : Option (List A × List A)). r >>= λ rest. some (rest.0, x ∷ rest.1))
                (ih ∙ ap (λ (q : List A). run_queue q calls) kept)
              ∙ ap (λ (q : List A). run_queue q (sub1 ∷ calls))
                  (sym (
                    front_lem blank (fifo_foreach blank f)
                      (omega (arith, length-foreach blank f))))))
    | inr done ↦
        let zero_elts : fifo_elts f ≡ 0 = ground (arith, done) in
        rw
          (
            sub1_none blank f zero_elts,
            length_zero (fifo_foreach blank f) (omega (arith, length-foreach blank f)),
          )
          refl
  ]

  -- Calls of `clib_fifo_add1`, of `clib_fifo_add` with at least one element and of `clib_fifo_sub1`, on
  -- a fifo that is NULL at first, which add at most 2 ^ 31 elements in all, do what they do on an empty
  -- queue: they return the same elements and leave the same ones, and there is a failed assertion
  -- exactly where the queue has no element to return.
  pub run-queue :
      (blank : A) (calls : List (Call A))
      → n_added calls ≤ 2 ^ 31
      → view blank (run blank null calls) ≡ run_queue [] calls
  unfolding fifo_foreach fifo_elts visit
  run-queue blank calls fits = run-run_queue blank calls null null-IsFifo (omega arith)
