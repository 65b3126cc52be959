-- ===== src/Pool/Foreach.antt =====
-- The two iterations over a pool: pool_foreach, which goes by the words of the free bitmap, and
-- pool_foreach_index, which asks for every index.
mod Live
mod Round
use uclib.Base.{
  append-nil, ℕ, zero, suc, ◌+◌, ◌-◌, ◌*◌, ◌/◌, ◌%◌, ◌^◌, ◌≤◌, ◌<◌, bit_xor, ◌≡◌, ◌≢◌, refl, sym,
  ◌∙◌, ap, Bool, true, false, not, ◌&&◌, ◌||◌, List, [], ◌∷◌, ◌++◌, arith, ltb, leb, ◌==◌,
  if◌then◌else◌, Bool-cases, inl, inr, length, get_or, get_or-beyond, range, ==_ne, lt→ltb, le→ltb,
}
use uclib.Word.{uword_bits, uword_mod, first_set, min_log2, log2_first_set}
use uclib.Word.Bits.{test_bit, test_bit-zero, test_bit-beyond}
use uclib.Word.FirstSet.{log2_first_set_lem, first_set-pow, min_log2-pow, clear_first_set}
use uclib.Bitmap.{Bitmap, word_at, get}
use uclib.Bitmap.Trim.{bit_at, get-bit_at}
use uclib.Bitmap.Alu.{IsWords}
use uclib.Pool.{
  Pool, pool_is_free_index, word_regions, regions, visited, pool_foreach_region, pool_foreach,
  foreach_from, pool_foreach_index,
}
use uclib.Pool.State.{IsPool}
use uclib.Pool.Foreach.Live.{
  live, visited-append, Covers, Covers-append, Covers-region, Clear, Clear-nil,
}
use uclib.Pool.Foreach.Round.{Done, IsRound, all_remain, word_regions-Done}

-- The last round, beyond the words: a region up to the end of the vector.
word_regions_end :
    (f len bl lo : ℕ)
    → word_regions (suc (suc f)) len bl bl 1 lo
      ≡ (if ltb lo len then ((lo, len) ∷ [], len + 1) else ([], len + 1))
unfolding word_regions first_set
word_regions_end f len bl lo =
    rw (le→ltb bl bl (omega arith))
      (elim (Bool-cases (ltb lo len)) [ inl h ↦ rw h refl | inr h ↦ rw h refl ])

regions_end :
    (b : Bitmap) (len lo : ℕ)
    → visited (regions 1 len b (length b) lo) ≡ visited (if ltb lo len then (lo, len) ∷ [] else [])
unfolding regions
regions_end b len lo =
    rw (le→ltb (length b) (length b) (omega arith), word_regions_end 63 len (length b) lo)
      (elim (Bool-cases (ltb lo len)) [ inl h ↦ rw h refl | inr h ↦ rw h refl ])

last_region :
    (b : Bitmap) (len lo : ℕ)
    → lo ≤ len
    → Clear b lo (length b * 64)
    → Covers b lo len (visited (regions 1 len b (length b) lo))
unfolding visited Clear
last_region b len lo h clear =
    let c = Covers-region b lo len h (λ j p q. elim (Bool-cases (ltb j (length b * 64))) [
      | inl before ↦ clear j p (ground arith)
      | inr after ↦
          get-bit_at b j ∙ rw (get_or-beyond b (j / 64) 0 (ground arith)) (test_bit-zero (j % 64))
    ]) in
    rw (regions_end b len lo) (elim (Bool-cases (ltb lo len)) [
      | inl some ↦ rw (some, append-nil (range lo (len - lo))) c
      | inr none ↦ let e : len - lo ≡ 0 = ground arith in rw none (rw e at c)
    ])

regions-Covers :
    (b : Bitmap) (len n i lo : ℕ)
    → IsWords b
    → ((j : ℕ) → get b j ≡ true → j < len)
    → i + n ≡ length b
    → lo ≤ i * 64
    → lo ≤ len
    → Clear b lo (i * 64)
    → Covers b lo len (visited (regions (suc n) len b i lo))
unfolding regions Done
regions-Covers b len zero i lo w below e le h clear =
    let k : i ≡ length b = omega arith in rw k (last_region b len lo h (rw k at clear))
regions-Covers b len (suc n) i lo w below e le h clear =
    let inside : i < length b = omega arith in
    let start : i * 64 ≡ i * 64 + 0 = omega arith in
    let round : IsRound b i (word_at b i) lo 0 = record {
      inside = inside;
      fits = w i;
      rem = all_remain b i;
      below = omega arith;
      clear = rw start at clear;
    } in
    let d = word_regions-Done 65 len i (word_at b i) lo 0 b round (omega arith) (omega arith) in
    let r = word_regions 65 len (length b) i (word_at b i) lo in
    rw (lt→ltb i (length b) inside, visited-append r.0 (regions (suc n) len b (i + 1) r.1))
      (Covers-append b lo r.1 len _ _ d.0
        (regions-Covers b len n (i + 1) r.1 w below (omega arith) d.1 (d.3 len h below) d.2))

module _ {ℓ} {A : Type ℓ} where
  foreach_from-live :
      (p : Pool A) (n i : ℕ) → i + n ≤ length p.elts → foreach_from p n i ≡ live p.free_bitmap i n
  unfolding foreach_from live pool_is_free_index
  foreach_from-live p zero i h = refl
  foreach_from-live p (suc n) i h =
      rw (lt→ltb i (length p.elts) (omega arith), foreach_from-live p n (i + 1) (omega arith)) refl

  -- On a pool that satisfies its invariant, pool_foreach visits exactly the indices in use, in
  -- order: the same as pool_foreach_index, which asks for every index whether it is free.
  pub pool_foreach-pool_foreach_index :
      (p : Pool A) → IsPool p → pool_foreach p ≡ pool_foreach_index p
  unfolding pool_foreach pool_foreach_region pool_foreach_index Covers
  pool_foreach-pool_foreach_index p w =
      let len = length p.elts in
      let l = length p.free_bitmap in
      let e : l + 1 ≡ suc l = omega arith in
      let k : len - 0 ≡ len = omega arith in
      let c =
        regions-Covers p.free_bitmap len l 0 0 w.words w.inside (omega arith) (omega arith)
          (omega arith) (Clear-nil p.free_bitmap 0 0 (omega arith)) in
      rw e (rw k at c.1 ∙ sym (foreach_from-live p len 0 (omega arith)))
