-- ===== src/Pool.antt =====
-- Pools: uclib/pool.h. A pool is a vector of objects with two headers, the bitmap of the free
-- indices and the stack of the same indices. A NULL pool is the one whose parts are all empty.
-- `pool_alloc` only reserves memory and changes none of the three.
mod Lists
pub mod State
pub mod Foreach
pub mod Next
mod Tests
use uclib.Base.{
  ℕ, zero, suc, ◌+◌, ◌-◌, ◌*◌, ◌/◌, ◌%◌, ◌^◌, bit_xor, Bool, true, false, not, ◌&&◌, List, [], ◌∷◌,
  ◌++◌, ltb, ◌==◌, if◌then◌else◌, length, get_or, set, take, replicate, range,
}
use uclib.Word.{uword_bits, uword_max, add, sub, first_set, min_log2}
use uclib.Bitmap.{Bitmap, word_at, vec_validate, get, andnoti, ori}
use uclib.Bitmap.Search.{next_clear}

-- The vector, and pool_header_t.
pub record Pool {ℓ} (A : Type ℓ) : Type ℓ where
  pub elts : List A
  pub free_bitmap : Bitmap
  pub free_indices : List ℕ

module _ {ℓ} {A : Type ℓ} where
  -- pool_header_validate_index, on a pool that is not NULL.
  pub pool_header_validate_index : Pool A → ℕ → Pool A
  pool_header_validate_index p index = record {
    elts = p.elts;
    free_bitmap = vec_validate p.free_bitmap (index / uword_bits);
    free_indices = p.free_indices;
  }

  -- pool_validate_index: make the index valid; `fresh` is what a new object holds.
  pub pool_validate_index : A → Pool A → ℕ → Pool A
  unfolding pool_header_validate_index
  pool_validate_index fresh p i =
      pool_header_validate_index
        (record {
          elts = p.elts ++ replicate (i + 1 - length p.elts) fresh;
          free_bitmap = p.free_bitmap;
          free_indices = p.free_indices;
        })
        i

  -- The number of active objects.
  unfoldable pub pool_elts : Pool A → ℕ
  pool_elts p = sub (length p.elts) (length p.free_indices)

  -- The top of the stack of free indices, or a new object at the end of the vector, whose length is
  -- kept in 32 bits.
  pub pool_get_free_index : A → Pool A → Pool A × ℕ
  pool_get_free_index fresh p =
      let l = length p.free_indices in
      let i = get_or p.free_indices (l - 1) 0 in
      if ltb 0 l
      then (
        record {
          elts = p.elts;
          free_bitmap = andnoti p.free_bitmap i;
          free_indices = take (l - 1) p.free_indices;
        },
        i,
      )
      else (
        record {
          elts = take ((length p.elts + 1) % 2 ^ 32) (p.elts ++ fresh ∷ []);
          free_bitmap = p.free_bitmap;
          free_indices = p.free_indices;
        },
        length p.elts,
      )

  -- pool_set_elt: allocate an object and write it.
  pub pool_set_elt : A → Pool A → A → Pool A × ℕ
  unfolding pool_get_free_index
  pool_set_elt fresh p e =
      let (q, i) = pool_get_free_index fresh p in
      (
        record {
          elts = set q.elts i e;
          free_bitmap = q.free_bitmap;
          free_indices = q.free_indices;
        },
        i,
      )

  unfoldable pub pool_is_free_index : Pool A → ℕ → Bool
  pool_is_free_index p i = if ltb i (length p.elts) then get p.free_bitmap i else true

  -- pool_put_index; its assertion is a hypothesis of the theorems. An index is kept in 32 bits.
  pub pool_put_index : Pool A → ℕ → Pool A
  pool_put_index p i = record {
    elts = p.elts;
    free_bitmap = ori p.free_bitmap i;
    free_indices = p.free_indices ++ i % 2 ^ 32 ∷ [];
  }

  -- pool_elt, with the value of an index beyond the vector.
  unfoldable pub pool_elt : A → Pool A → ℕ → A
  pool_elt outside p i = get_or p.elts i outside

  pub pool_free : Pool A → Pool A
  pool_free p = record { elts = []; free_bitmap = []; free_indices = [] }

-- The inner loop of pool_foreach_region: the regions of word `i`, and `lo` behind them. A word has
-- at most 64 bits to take, and one more round ends the loop.
pub word_regions : ℕ → ℕ → ℕ → ℕ → ℕ → ℕ → List (ℕ × ℕ) × ℕ
word_regions zero len bl i m lo = ([], lo)
word_regions (suc fuel) len bl i m lo =
    let f = first_set m in
    let hi = if ltb i bl then i * uword_bits + min_log2 f else len in
    let rest = word_regions fuel len bl i (bit_xor m f) (hi + 1) in
    if not (m == 0) then (if ltb lo hi then ((lo, hi) ∷ rest.0, rest.1) else rest) else ([], lo)

-- The outer loop, with `n` rounds left.
pub regions : ℕ → ℕ → Bitmap → ℕ → ℕ → List (ℕ × ℕ)
regions zero len b i lo = []
regions (suc n) len b i lo =
    let m = if ltb i (length b) then word_at b i else 1 in
    let (here, next) = word_regions 65 len (length b) i m lo in here ++ regions n len b (i + 1) next

module _ {ℓ} {A : Type ℓ} where
  pub pool_foreach_region : Pool A → List (ℕ × ℕ)
  unfolding regions
  pool_foreach_region p = regions (length p.free_bitmap + 1) (length p.elts) p.free_bitmap 0 0

-- The indices that a loop over the regions visits.
pub visited : List (ℕ × ℕ) → List ℕ
visited [] = []
visited ((lo, hi) ∷ rs) = range lo (hi - lo) ++ visited rs

-- The loop of pool_foreach_index from `i` on, with `n` rounds left.
pub foreach_from {ℓ} : {A : Type ℓ} → Pool A → ℕ → ℕ → List ℕ
unfolding pool_is_free_index
foreach_from p zero i = []
foreach_from p (suc n) i =
    let rest = foreach_from p n (i + 1) in if not (pool_is_free_index p i) then i ∷ rest else rest

module _ {ℓ} {A : Type ℓ} where
  -- The indices that the body of pool_foreach sees, in order.
  pub pool_foreach : Pool A → List ℕ
  unfolding pool_foreach_region visited
  pool_foreach p = visited (pool_foreach_region p)

  pub pool_foreach_index : Pool A → List ℕ
  unfolding foreach_from
  pool_foreach_index p = foreach_from p (length p.elts) 0

  pub pool_next_index : Pool A → ℕ → ℕ
  pool_next_index p i =
      let rv = add i 1 in if ltb rv (length p.elts) then next_clear p.free_bitmap rv else uword_max
