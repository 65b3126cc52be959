-- ===== src/Hash/Next.antt =====
-- Iteration by calls of `hash_next` of uclib/hash.c, which keep the place in the table between them.
-- The index of a bucket or of a pair takes no wrap-around. `hash_next` is not for a NULL table.
pub mod Walk
use uclib.Base.{
  ℕ, zero, suc, ◌+◌, ◌-◌, Bool, true, false, not, ◌&&◌, List, [], ◌∷◌, leb, ◌==◌, if◌then◌else◌,
  length, get_or, Option, none, some,
}
use uclib.Hash.{Flags, Pair, Bucket, empty, direct, indirect, Table}

-- hash_next_t, after memset with 0.
pub record HashNext : Type 0 where
  pub i : ℕ
  pub j : ℕ
  pub f : Flags

abbrev pub no_flags : Flags
no_flags = record { no_auto_grow = false; no_auto_shrink = false; hash_next_in_progress = false }

abbrev pub all_flags : Flags
all_flags = record { no_auto_grow = true; no_auto_shrink = true; hash_next_in_progress = true }

abbrev pub start : HashNext
start = record { i = 0; j = 0; f = no_flags }

unfoldable pub is_start : HashNext → Bool
is_start hn = hn.i == 0 && hn.j == 0

-- The table, the place and the pair that a call leaves and returns.
abbrev pub Returned {ℓ} : Type ℓ → Type ℓ
Returned V = Table V × HashNext × Option (Pair V)

module _ {ℓ} {V : Type ℓ} where
  -- The pair at place `j` of a vector, or else the next bucket.
  unfoldable pub visit_pairs : Table V → HashNext → Returned V → List (Pair V) → ℕ → Returned V
  visit_pairs v hn rest [] j = rest
  visit_pairs v hn rest (p ∷ ps) zero = (v, record hn { j = hn.j + 1 }, some p)
  visit_pairs v hn rest (p ∷ ps) (suc j) = visit_pairs v hn rest ps j

  -- A bucket; `rest` is what the loop returns from the next one on.
  unfoldable pub visit_bucket : Table V → HashNext → Returned V → Bucket V → Returned V
  visit_bucket v hn rest empty = rest
  visit_bucket v hn rest (direct p) = (v, record hn { i = hn.i + 1 }, some p)
  visit_bucket v hn rest (indirect ps) = visit_pairs v hn rest ps hn.j

  -- The loop; each round but the last goes to the next bucket.
  unfoldable pub next_loop : ℕ → Table V → HashNext → Returned V
  next_loop zero v hn = (v, hn, none)
  next_loop (suc fuel) v hn =
      let w = if is_start hn then record v { flags = all_flags } else v in
      let m = if is_start hn then record hn { f = v.flags } else hn in
      let rest = next_loop fuel w (record m { i = hn.i + 1; j = 0 }) in
      let here = visit_bucket w m rest (get_or v.buckets hn.i empty) in
      if not (is_start hn) && leb (length v.buckets) hn.i
      then (record v { flags = hn.f }, start, none)
      else here

  unfoldable pub hash_next : Table V → HashNext → Returned V
  hash_next v hn = next_loop (length v.buckets + 2) v hn

  -- What a call returns, before what the later calls do.
  unfoldable pub walked :
      Option (Pair V)
      → Table V × HashNext
      → List (Pair V) × Table V × HashNext
      → List (Pair V) × Table V × HashNext
  walked none s rest = ([], s.0, s.1)
  walked (some p) s rest = (p ∷ rest.0, rest.1, rest.2)

  -- What the calls return until one returns 0, for at most `n` of them, and what they leave.
  unfoldable pub walk : ℕ → Table V → HashNext → List (Pair V) × Table V × HashNext
  walk zero v hn = ([], v, hn)
  walk (suc n) v hn =
      let r = hash_next v hn in let rest = walk n r.0 r.1 in walked r.2 (r.0, r.1) rest
