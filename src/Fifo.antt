-- ===== src/Fifo.antt =====
-- First in, first out queues in a ring: uclib/fifo.h and uclib/fifo.c. The vector of the ring is
-- `elts`, and a NULL fifo is the one without elements. Indices are stored in 32 bits. `blank` is the
-- element that memset leaves in memory that is not used.
pub mod Ring
pub mod Grow
pub mod Copies
pub mod Push
pub mod Pop
pub mod Index
pub mod Queue
mod Tests
use uclib.Base.{
  ℕ, zero, suc, ◌+◌, ◌-◌, ◌*◌, ◌%◌, ◌^◌, ◌≤◌, ◌<◌, Bool, List, [], ◌∷◌, ◌++◌, Option, some, none,
  ltb, leb, ◌==◌, ◌&&◌, if◌then◌else◌, length, get_or, set, take, drop, replicate, memcpy,
}
use uclib.Word.{sub, max_pow2}

-- The vector and its clib_fifo_header_t. When every element is in use, the tail is the head plus the
-- length.
pub record Fifo {ℓ} (A : Type ℓ) : Type ℓ where
  pub elts : List A
  pub head_index : ℕ
  pub tail_index : ℕ

unfoldable pub new_len : ℕ → ℕ
new_len n = if ltb n 32 then 32 else max_pow2 n

-- An index that may have run once beyond the ring.
unfoldable pub wrap : ℕ → ℕ → ℕ
wrap l i = if leb l i then i - l else i

module _ {ℓ} {A : Type ℓ} where
  abbrev pub null : Fifo A
  null = record { elts = []; head_index = 0; tail_index = 0 }

  unfoldable pub fifo_elts : Fifo A → ℕ
  fifo_elts f =
      if ltb f.tail_index f.head_index
      then f.tail_index + length f.elts - f.head_index
      else f.tail_index - f.head_index

  unfoldable pub fifo_free_elts : Fifo A → ℕ
  fifo_free_elts f = sub (length f.elts) (fifo_elts f)

  unfoldable pub fifo_reset : Fifo A → Fifo A
  fifo_reset f = null

  unfoldable pub fifo_free : Fifo A → Fifo A
  fifo_free f = null

  -- The elements in use, copied to the start of the new vector.
  unfoldable pub copy_old : Fifo A → List A
  copy_old f =
      let n_old_elts = fifo_elts f in
      let n = length f.elts - f.head_index in
      if ltb 0 n_old_elts
      then (if leb (length f.elts) (f.head_index + n_old_elts)
          then take n (drop f.head_index f.elts) ++ take (n_old_elts - n) f.elts
          else take n_old_elts (drop f.head_index f.elts))
      else []

module _ {ℓ} {A : Type ℓ} (blank : A) where
  unfoldable pub fifo_resize : Fifo A → ℕ → Fifo A
  fifo_resize f n_elts =
      let n_new_elts = new_len (n_elts + fifo_elts f) in
      record {
        elts = copy_old f ++ replicate (n_new_elts - fifo_elts f) blank;
        head_index = 0;
        tail_index = fifo_elts f % 2 ^ 32;
      }

  unfoldable pub fifo_validate : Fifo A → ℕ → Fifo A
  fifo_validate f n_elts = if ltb (fifo_free_elts f) n_elts then fifo_resize f n_elts else f

  -- The tail moves on by `n_elts` elements; the fifo and the index of the first of them.
  unfoldable pub fifo_advance_tail : Fifo A → ℕ → Fifo A × ℕ
  fifo_advance_tail f n_elts =
      let v = fifo_validate f n_elts in
      let l = length v.elts in
      let tail =
        if (fifo_free_elts v - n_elts) == 0
        then (v.head_index + l) % 2 ^ 32
        else wrap l (v.tail_index + n_elts) % 2 ^ 32 in
      (
        record { elts = v.elts; head_index = v.head_index; tail_index = tail },
        if ltb 0 n_elts then v.tail_index else tail,
      )

  unfoldable pub fifo_add1 : Fifo A → A → Fifo A
  fifo_add1 f e =
      let r = fifo_advance_tail f 1 in
      record { elts = set r.0.elts r.1 e; head_index = r.0.head_index; tail_index = r.0.tail_index }

  -- Room for one element; its index.
  abbrev pub fifo_add2 : Fifo A → Fifo A × ℕ
  fifo_add2 f = fifo_advance_tail f 1

  unfoldable pub fifo_add : Fifo A → List A → Fifo A
  fifo_add f e =
      let r = fifo_advance_tail f (length e) in
      let l = length r.0.elts in
      let n1 = if ltb (r.1 + length e) l then 0 else r.1 + length e - l in
      let n0 = length e - n1 in
      let once = memcpy r.0.elts r.1 (take n0 e) in
      record {
        elts = if ltb 0 n1 then memcpy once 0 (take n1 (drop n0 e)) else once;
        head_index = r.0.head_index;
        tail_index = r.0.tail_index;
      }

module _ {ℓ} {A : Type ℓ} where
  -- The tail moves back by `n_elts` elements: `_clib_fifo_advance_tail` of a negative number.
  unfoldable pub fifo_retract_tail : Fifo A → ℕ → Fifo A × ℕ
  fifo_retract_tail f n_elts =
      let l = length f.elts in
      let tail =
        if (fifo_free_elts f + n_elts) == 0
        then (f.head_index + l) % 2 ^ 32
        else if ltb f.tail_index n_elts
        then (f.tail_index + l - n_elts) % 2 ^ 32
        else wrap l (f.tail_index - n_elts) % 2 ^ 32 in
      (record { elts = f.elts; head_index = f.head_index; tail_index = tail }, tail)

  -- The head moves on by `n_elts` elements; the fifo and the index of the first of them.
  unfoldable pub move_head : Fifo A → ℕ → Fifo A × ℕ
  move_head f n_elts =
      let l = length f.elts in
      (
        record {
          elts = f.elts;
          head_index = wrap l (f.head_index + n_elts) % 2 ^ 32;
          tail_index = if f.tail_index == (f.head_index + l) then f.head_index else f.tail_index;
        },
        f.head_index,
      )

  -- `none` where an assertion fails: there are so many elements, and the new head is in the ring,
  -- which a fifo without a ring does not have (its header is read through a null pointer).
  unfoldable pub fifo_advance_head : Fifo A → ℕ → Option (Fifo A × ℕ)
  fifo_advance_head f n_elts =
      if leb n_elts (fifo_elts f)
        && ltb (wrap (length f.elts) (f.head_index + n_elts)) (length f.elts)
      then some (move_head f n_elts)
      else none

  -- The element at the index that the head was at.
  unfoldable pub element_taken : A → List A → Option (Fifo A × ℕ) → Option (Fifo A × A)
  element_taken blank elts none = none
  element_taken blank elts (some (g, i)) = some (g, get_or elts i blank)

  -- `none` is the failure of an assertion, first of the one that there is an element.
  unfoldable pub fifo_sub1 : A → Fifo A → Option (Fifo A × A)
  fifo_sub1 blank f =
      let taken = element_taken blank f.elts (fifo_advance_head f 1) in
      if leb 1 (fifo_elts f) then taken else none

  -- The index of the element that is taken away.
  abbrev pub fifo_sub2 : Fifo A → Option (Fifo A × ℕ)
  fifo_sub2 f = if leb 1 (fifo_elts f) then fifo_advance_head f 1 else none

  -- The index in the vector of element `i`, and back.
  unfoldable pub fifo_elt_index : Fifo A → ℕ → ℕ
  fifo_elt_index f i = wrap (length f.elts) (f.head_index + i)

  unfoldable pub fifo_index_for_elt_index : Fifo A → ℕ → ℕ
  fifo_index_for_elt_index f ei =
      if ltb ei f.head_index then ei + length f.elts - f.head_index else ei - f.head_index

  -- The elements that the loop of `clib_fifo_foreach` visits from index `i` on, `n` of them.
  unfoldable pub visit : A → List A → ℕ → ℕ → List A
  visit blank elts i zero = []
  visit blank elts i (suc n) =
      let next = if leb (length elts) (i + 1) then 0 else i + 1 in
      get_or elts i blank ∷ visit blank elts next n

  unfoldable pub fifo_foreach : A → Fifo A → List A
  fifo_foreach blank f = visit blank f.elts f.head_index (fifo_elts f)
