-- ===== src/Word/Tests.antt =====
-- The theorems on single words at small words.
use uclib.Base.{◌≡◌, refl}
use uclib.Word.{first_set, log2_first_set, min_log2, pow2_mask}

forty : (first_set 40 ≡ 8) × (log2_first_set 40 ≡ 3) × (min_log2 40 ≡ 5) × (pow2_mask 5 ≡ 31)
unfolding first_set log2_first_set min_log2 pow2_mask
forty = (refl, refl, refl, refl)
