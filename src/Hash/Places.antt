-- ===== src/Hash/Places.antt =====
-- The vector of buckets of uclib/hash.c as one finite map: a key is searched for in its own bucket.
use uclib.Base.{
  ℕ, zero, suc, ◌+◌, ◌<◌, ◌≡◌, ◌≢◌, refl, sym, ◌∙◌, subst, inl, inr, true, Bool-cases, List, [],
  ◌∷◌, arith, ◌==◌, length, length-append, get_or, set, replicate, none,
}
use uclib.Hash.{Keys, key_equal, Pair, Bucket, empty, entries, bucket_pairs}
use uclib.Hash.Pairs.{IsDistinct, IsDistinct-append, find, find-append, or_else-none}
use uclib.Hash.Searches.{AllKeys}
use uclib.Hash.Buckets.{HasShape}

module _ {ℓ} {V : Type ℓ} where
  -- A bucket with distinct keys whose place is `i`.
  abbrev pub IsBucket : Keys → (ℕ → ℕ) → ℕ → Bucket V → Type ℓ
  IsBucket h place i b =
      IsDistinct h (entries b) × AllKeys (λ k. place k ≡ i) (entries b) × HasShape b

  -- The buckets from place `i` on.
  abbrev pub IsPlaced : Keys → (ℕ → ℕ) → ℕ → List (Bucket V) → Type ℓ
  IsPlaced h place i [] = Unit
  IsPlaced h place i (b ∷ bs) = IsBucket h place i b × IsPlaced h place (suc i) bs

  pub bucket_pairs-replicate : (n : ℕ) → bucket_pairs {V = V} (replicate n empty) ≡ []
  unfolding bucket_pairs entries
  bucket_pairs-replicate zero = refl
  bucket_pairs-replicate (suc n) = bucket_pairs-replicate n

pub IsPlaced-replicate {ℓ} :
    (V : Type ℓ) (h : Keys) (place : ℕ → ℕ) (i n : ℕ)
    → IsPlaced {V = V} h place i (replicate n empty)
unfolding entries
IsPlaced-replicate V h place i zero = tt
IsPlaced-replicate V h place i (suc n) = ((tt, tt, tt), IsPlaced-replicate V h place (suc i) n)

module _ {ℓ} {V : Type ℓ} where
  pub bucket_at :
      (h : Keys) (place : ℕ → ℕ) (i : ℕ) (bs : List (Bucket V)) (m : ℕ)
      → IsPlaced h place i bs
      → m < length bs
      → IsBucket h place (i + m) (get_or bs m empty)
  bucket_at h place i [] m p lt = absurd (omega arith)
  bucket_at h place i (b ∷ bs) zero p lt = let e : i + 0 ≡ i = omega arith in rw e p.0
  bucket_at h place i (b ∷ bs) (suc m) p lt =
      let e : i + suc m ≡ suc i + m = omega arith in
      rw e (bucket_at h place (suc i) bs m p.1 (omega arith))

  pub set-IsPlaced :
      (h : Keys) (place : ℕ → ℕ) (i : ℕ) (bs : List (Bucket V)) (m : ℕ) (b : Bucket V)
      → IsPlaced h place i bs
      → IsBucket h place (i + m) b
      → IsPlaced h place i (set bs m b)
  set-IsPlaced h place i [] m b p new = tt
  set-IsPlaced h place i (c ∷ bs) zero b p new =
      let e : i + 0 ≡ i = omega arith in (subst (λ (t : ℕ). IsBucket h place t b) e new, p.1)
  set-IsPlaced h place i (c ∷ bs) (suc m) b p new =
      let e : i + suc m ≡ suc i + m = omega arith in
      (p.0, set-IsPlaced h place (suc i) bs m b p.1 (subst (λ (t : ℕ). IsBucket h place t b) e new))

  pub length-bucket_pairs-set :
      (bs : List (Bucket V)) (m : ℕ) (b : Bucket V)
      → m < length bs
      → length (bucket_pairs (set bs m b)) + length (entries (get_or bs m empty))
        ≡ length (bucket_pairs bs) + length (entries b)
  unfolding bucket_pairs
  length-bucket_pairs-set [] m b lt = absurd (omega arith)
  length-bucket_pairs-set (c ∷ bs) zero b lt = omega (
    arith,
    length-append (entries b) (bucket_pairs bs),
    length-append (entries c) (bucket_pairs bs),
  )
  length-bucket_pairs-set (c ∷ bs) (suc m) b lt = omega (
    arith,
    length-append (entries c) (bucket_pairs bs),
    length-append (entries c) (bucket_pairs (set bs m b)),
    length-bucket_pairs-set bs m b (omega arith),
  )

  module _ (h : Keys) (place : ℕ → ℕ)
      (respects : (a b : ℕ) → key_equal h a b ≡ true → place a ≡ place b) where
    missing-AllKeys :
        (i j : ℕ) (ps : List (Pair V))
        → AllKeys (λ k. place k ≡ i) ps
        → place j ≢ i
        → find h ps j ≡ none
    unfolding find
    missing-AllKeys i j [] a other = refl
    missing-AllKeys i j (p ∷ ps) a other = elim (Bool-cases (key_equal h p.0 j)) [
      | inl e ↦ absurd (other (sym (respects p.0 j e) ∙ a.0))
      | inr e ↦ rw e (missing-AllKeys i j ps a.1 other)
    ]

    missing-IsPlaced :
        (i j : ℕ) (bs : List (Bucket V))
        → IsPlaced h place i bs
        → place j < i
        → find h (bucket_pairs bs) j ≡ none
    unfolding bucket_pairs find
    missing-IsPlaced i j [] p lt = refl
    missing-IsPlaced i j (b ∷ bs) p lt =
        find-append h (entries b) (bucket_pairs bs) j
        ∙ rw
            (
              missing-AllKeys i j (entries b) p.0.1 (λ e. omega (arith, e)),
              missing-IsPlaced (suc i) j bs p.1 (omega arith),
            )
            refl

    -- A key is found only in the bucket of its place.
    pub find-bucket :
        (i j : ℕ) (bs : List (Bucket V)) (m : ℕ)
        → IsPlaced h place i bs
        → place j ≡ i + m
        → find h (bucket_pairs bs) j ≡ find h (entries (get_or bs m empty)) j
    unfolding bucket_pairs entries
    find-bucket i j [] m p e = refl
    find-bucket i j (b ∷ bs) zero p e =
        find-append h (entries b) (bucket_pairs bs) j
        ∙ rw (missing-IsPlaced (suc i) j bs p.1 (omega (arith, e)))
            (or_else-none (find h (entries b) j))
    find-bucket i j (b ∷ bs) (suc m) p e =
        find-append h (entries b) (bucket_pairs bs) j
        ∙ rw (missing-AllKeys i j (entries b) p.0.1 (λ s. omega (arith, s, e)))
            (find-bucket (suc i) j bs m p.1 (omega (arith, e)))

    pub IsDistinct-bucket_pairs :
        (i : ℕ) (bs : List (Bucket V)) → IsPlaced h place i bs → IsDistinct h (bucket_pairs bs)
    unfolding bucket_pairs
    IsDistinct-bucket_pairs i [] p = tt
    IsDistinct-bucket_pairs i (b ∷ bs) p =
        IsDistinct-append h (entries b) (bucket_pairs bs) p.0.0
          (IsDistinct-bucket_pairs (suc i) bs p.1)
          (λ j. elim (Bool-cases (place j == i)) [
            | inl here ↦ inr (missing-IsPlaced (suc i) j bs p.1 (ground (arith, here)))
            | inr other ↦ inl (missing-AllKeys i j (entries b) p.0.1 (ground (arith, other)))
          ])
