-- ===== src/Fifo/Tests.antt =====
-- Queues at concrete elements: a ring that wraps, one that grows, one that is full.
use uclib.Base.{ℕ, ◌≡◌, refl, inr, List, [], ◌∷◌, arith, get_or, range, some, none}
use uclib.Fifo.{
  Fifo, null, fifo_elts, fifo_free_elts, fifo_foreach, visit, wrap, copy_old, new_len, fifo_resize,
  fifo_validate, fifo_advance_tail, move_head, element_taken, fifo_advance_head, fifo_add1,
  fifo_add, fifo_sub1, fifo_elt_index, fifo_index_for_elt_index,
}
use uclib.Fifo.Ring.{IsFifo}
use uclib.Fifo.Pop.{foreach-advance_head}
use uclib.Fifo.Index.{elt_index_lem}
use uclib.Fifo.Queue.{Call, add1, add, sub1, n_added, run, run_queue, view, run-queue}

-- Thirty elements, three out, four more beyond the end of the vector, one more for each of two.
abbrev calls : List (Call ℕ)
calls =
    add 1 (range 2 29)
    ∷ sub1
    ∷ sub1
    ∷ sub1
    ∷ add 31 (32 ∷ 33 ∷ 34 ∷ [])
    ∷ add1 35
    ∷ sub1
    ∷ add1 36
    ∷ []

run_of_calls : view 0 (run 0 null calls) ≡ some (range 5 32, 1 ∷ 2 ∷ 3 ∷ 4 ∷ [])
unfolding run view fifo_elts fifo_free_elts fifo_foreach visit wrap copy_old new_len fifo_resize
    fifo_validate fifo_advance_tail fifo_advance_head move_head element_taken fifo_add1 fifo_add
    fifo_sub1
run_of_calls = refl

run-queue_example : view 0 (run 0 null calls) ≡ some (range 5 32, 1 ∷ 2 ∷ 3 ∷ 4 ∷ [])
unfolding run_queue n_added
run-queue_example = run-queue 0 calls (omega arith)

abbrev full : Fifo ℕ
full = record { elts = 7 ∷ 8 ∷ 9 ∷ []; head_index = 1; tail_index = 4 }

full-IsFifo : IsFifo full
full-IsFifo = record { bound = omega arith; head = omega arith; tail = inr refl }

null_head : fifo_advance_head (null {A = ℕ}) 0 ≡ none
unfolding fifo_advance_head fifo_elts wrap
null_head = refl

foreach-advance_head_example :
    (g : Fifo ℕ) × (fifo_advance_head full 0 ≡ some (g, 1)) × (fifo_foreach 0 g ≡ [])
unfolding fifo_elts
foreach-advance_head_example = foreach-advance_head 0 full 0 full-IsFifo (omega arith) (omega arith)

elt_index_lem_example :
    (get_or full.elts (fifo_elt_index full 2) 0 ≡ get_or (fifo_foreach 0 full) 2 0)
    × (fifo_index_for_elt_index full (fifo_elt_index full 2) ≡ 2)
unfolding fifo_elts
elt_index_lem_example = elt_index_lem 0 full 2 full-IsFifo (omega arith)
