-- ===== src/Hash/Next/Walk.antt =====
-- The pairs that calls of `hash_next` of uclib/hash.c return are those of hash_foreach_pair.
use uclib.Base.{ℕ, zero, suc, ◌≡◌, false, List, [], ◌∷◌, ◌++◌, get_or, drop, none, some}
use uclib.Hash.{Flags, Pair, Bucket, empty, direct, indirect, Table, entries, bucket_pairs}
use uclib.Hash.Next.{HashNext, start, is_start, Returned}

module _ {ℓ} {V : Type ℓ} where
  -- The pairs from pair `j` of bucket `i` on.
  remaining : List (Bucket V) → ℕ → ℕ → List (Pair V)
  remaining [] i j = []
  remaining (b ∷ bs) zero j = drop j (entries b) ++ bucket_pairs bs
  remaining (b ∷ bs) (suc i) j = remaining bs i j

  -- Within the pairs of a direct bucket there is no place.
  abbrev Within : Bucket V → ℕ → Type 0
  Within (direct p) j = j ≡ 0
  Within empty j = Unit
  Within (indirect ps) j = Unit

  -- A place behind the start from which the pairs `R` remain.
  abbrev IsAt : Table V → HashNext → List (Pair V) → Type ℓ
  IsAt v hn R =
      (remaining v.buckets hn.i hn.j ≡ R)
      × (is_start hn ≡ false)
      × Within (get_or v.buckets hn.i empty) hn.j

  -- A call at a place from which these pairs remain.
  abbrev Next : Table V → Flags → List (Pair V) → Returned V → Type ℓ
  Next v f [] r = (r.2 ≡ none) × (r.0 ≡ record v { flags = f }) × (r.1 ≡ start)
  Next v f (p ∷ R) r = (r.2 ≡ some p) × (r.0 ≡ v) × (r.1.f ≡ f) × IsAt v r.1 R
