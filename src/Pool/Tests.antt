-- ===== src/Pool/Tests.antt =====
-- Runs of the pool operations, and the theorems at small pools.
use uclib.Base.{
  ◌+◌, ℕ, ◌*◌, ◌%◌, ◌^◌, ◌≤◌, ◌<◌, ◌≡◌, ◌⊎◌, refl, ◌∙◌, true, false, not, ◌&&◌, [], ◌∷◌, arith,
  ◌==◌, length, replicate,
}
use uclib.Word.{uword_max, first_set, min_log2}
use uclib.Word.Bits.{test_bit-zero}
use uclib.Bitmap.{get, ori, vec_validate}
use uclib.Bitmap.Trim.{get-bit_at}
use uclib.Bitmap.Search.{next_clear}
use uclib.Pool.{
  Pool, pool_get_free_index, pool_put_index, pool_is_free_index, pool_elt, pool_foreach,
  pool_foreach_region, pool_foreach_index, pool_next_index, regions, word_regions,
}
use uclib.Pool.State.{
  IsPool, pool_get_free_index-IsPool, pool_put_index-IsPool, pool_get_free_index_lem,
}
use uclib.Pool.Foreach.{pool_foreach-pool_foreach_index}
use uclib.Pool.Next.{IsNextUsed, pool_next_index_lem}

-- Five objects in use, then 3 and 1 freed.
abbrev full : Pool ℕ
full = record { elts = 10 ∷ 20 ∷ 30 ∷ 40 ∷ 50 ∷ []; free_bitmap = []; free_indices = [] }

nothing_free : (i : ℕ) → get [] i ≡ false
nothing_free i = get-bit_at [] i ∙ test_bit-zero (i % 64)

full-IsPool : IsPool full
full-IsPool = record {
  inside = λ i h. ground (arith, nothing_free i);
  stack = λ i. rw (nothing_free i) refl;
  words = λ j. omega arith;
  narrow = omega arith;
}

abbrev without_three : Pool ℕ
without_three = pool_put_index full 3

abbrev five : Pool ℕ
five = pool_put_index without_three 1

used_three : pool_is_free_index full 3 ≡ false
unfolding pool_is_free_index get
used_three = refl

used_one : pool_is_free_index without_three 1 ≡ false
unfolding pool_is_free_index pool_put_index get ori vec_validate
used_one = refl

five-IsPool : IsPool five
five-IsPool =
    pool_put_index-IsPool without_three 1 used_one
      (pool_put_index-IsPool full 3 used_three full-IsPool)

five_room : length five.elts + 1 < 2 ^ 32
unfolding pool_put_index
five_room = omega arith

used_two : pool_is_free_index five 2 ≡ false
unfolding pool_is_free_index pool_put_index get ori vec_validate
used_two = refl

regions_of_five : pool_foreach_region five ≡ (0, 1) ∷ (2, 3) ∷ (4, 5) ∷ []
unfolding pool_foreach_region regions word_regions pool_put_index first_set min_log2 ori
    vec_validate
regions_of_five = refl

-- All free: the loop is handed a free index.
abbrev one_word : Pool ℕ
one_word = record {
  elts = replicate 66 0;
  free_bitmap = 0x8000_0000_0000_0000 ∷ [];
  free_indices = 63 ∷ [];
}

next_index_is_free :
    (pool_next_index one_word 62 ≡ 63)
    × (pool_is_free_index one_word 63 ≡ true)
    × (pool_is_free_index one_word 64 ≡ false)
unfolding pool_next_index pool_is_free_index next_clear get
next_index_is_free = (refl, refl, refl)

pool_get_free_index-IsPool_example : IsPool (pool_get_free_index 0 five).0
pool_get_free_index-IsPool_example = pool_get_free_index-IsPool 0 five five_room five-IsPool

pool_put_index-IsPool_example : IsPool (pool_put_index five 2)
pool_put_index-IsPool_example = pool_put_index-IsPool five 2 used_two five-IsPool

pool_get_free_index_lem_example :
    let r = pool_get_free_index 0 five in
    (pool_is_free_index five r.1 ≡ true)
    × (pool_is_free_index r.0 3 ≡ (not (r.1 == 3) && pool_is_free_index five 3))
    × (3 < length five.elts → pool_elt 0 r.0 3 ≡ pool_elt 0 five 3)
pool_get_free_index_lem_example = pool_get_free_index_lem 0 five 3 five_room five-IsPool

pool_foreach-pool_foreach_index_example : pool_foreach five ≡ pool_foreach_index five
pool_foreach-pool_foreach_index_example = pool_foreach-pool_foreach_index five five-IsPool

pool_next_index_lem_example :
    IsNextUsed five 0 (pool_next_index five 0)
    ⊎ (((j : ℕ) → 0 < j → pool_is_free_index five j ≡ true)
        × ((pool_next_index five 0 ≡ uword_max) ⊎ (length five.elts ≤ pool_next_index five 0)))
    ⊎ ((pool_next_index five 0 ≡ 1)
        × ((j : ℕ) → 0 < j → j < length five.free_bitmap * 64 → pool_is_free_index five j ≡ true)
        × (pool_is_free_index five 1 ≡ true))
pool_next_index_lem_example = pool_next_index_lem five 0 (omega arith) five-IsPool
