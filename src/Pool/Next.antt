-- ===== src/Pool/Next.antt =====
-- pool_next_index, the step of an iteration that may free the object it is at.
use uclib.Base.{
  ℕ, ◌+◌, ◌*◌, ◌≤◌, ◌<◌, ◌≡◌, ◌⊎◌, refl, true, false, arith, ltb, Bool-cases, inl, inr, length,
  le→ltb,
}
use uclib.Word.{uword_max, add}
use uclib.Bitmap.{get}
use uclib.Bitmap.Search.{next_clear}
use uclib.Bitmap.Search.Results.{next_clear_lem}
use uclib.Pool.{Pool, pool_is_free_index, pool_next_index}
use uclib.Pool.State.{IsPool}

-- `r` is the lowest index in use above `i`.
pub IsNextUsed {ℓ} : {A : Type ℓ} → Pool A → ℕ → ℕ → Type 0
IsNextUsed p i r =
    (i < r)
    × (pool_is_free_index p r ≡ false)
    × ((j : ℕ) → i < j → j < r → pool_is_free_index p j ≡ true)

module _ {ℓ} {A : Type ℓ} where
  free_index :
      (p : Pool A) (j : ℕ)
      → (j < length p.elts → get p.free_bitmap j ≡ true)
      → pool_is_free_index p j ≡ true
  unfolding pool_is_free_index
  free_index p j h = ground (arith, h)

  -- For an index below ~0, pool_next_index returns the lowest index in use above `i`; or, when there is none, ~0 or an
  -- index beyond the vector; or, when all indices from `i + 1` to the last word of the free bitmap
  -- are free, `i + 1` itself, which is free, whatever indices behind them are in use.
  pub pool_next_index_lem :
      (p : Pool A) (i : ℕ)
      → i < uword_max
      → IsPool p
      → IsNextUsed p i (pool_next_index p i)
        ⊎ (((j : ℕ) → i < j → pool_is_free_index p j ≡ true)
            × ((pool_next_index p i ≡ uword_max) ⊎ (length p.elts ≤ pool_next_index p i)))
        ⊎ ((pool_next_index p i ≡ i + 1)
            × ((j : ℕ) → i < j → j < length p.free_bitmap * 64 → pool_is_free_index p j ≡ true)
            × (pool_is_free_index p (i + 1) ≡ true))
  unfolding pool_next_index pool_is_free_index IsNextUsed
  pool_next_index_lem p i below w =
      let next : add i 1 ≡ i + 1 = omega (arith, below) in
      rw next (elim (Bool-cases (ltb (i + 1) (length p.elts))) [
        | inr last ↦
            rw last (inr (inl (λ j h. rw (le→ltb j (length p.elts) (ground arith)) refl, inl refl)))
        | inl more ↦ rw more (elim (next_clear_lem p.free_bitmap (i + 1) w.words) [
          | inl next ↦ elim (Bool-cases (ltb (next_clear p.free_bitmap (i + 1)) (length p.elts))) [
            | inl inside ↦ inl (
              omega (arith, next.0),
              rw inside next.1,
              λ j a b. free_index p j (λ h. next.2 j (omega arith) b),
            )
            | inr outside ↦ inr (
                inl (
                  λ j a. free_index p j (λ h. next.2 j (omega arith) (ground arith)),
                  inr (ground arith),
                ))
          ]
          | inr none ↦
              inr (inr (none.0, λ j a b. free_index p j (λ h. none.2 j (omega arith) b), none.1))
        ])
      ])
