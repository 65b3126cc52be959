-- ===== src/Bitmap/Tests.antt =====
-- Runs of the bitmap operations on small maps, and the theorems at such maps.
use uclib.Base.{
  ℕ, zero, suc, ◌+◌, ◌≤◌, ◌<◌, ◌≡◌, ◌⊎◌, refl, true, false, not, xor, ◌&&◌, ◌||◌, [], ◌∷◌, arith,
  ltb, leb, ◌==◌, if◌then◌else◌, some, none,
}
use uclib.Word.{uword_max, min_log2}
use uclib.Word
use uclib.Word.Bits.{test_bit}
use uclib.Bitmap.{
  alu, Bitmap, get, set_bit, and_map, andnot_map, or_map, xor_map, remove_trailing_zeros,
  vec_validate, get_multiple, set_multiple,
}
use uclib.Bitmap.Trim.{IsTrimmed}
use uclib.Bitmap.Bits.{get-set_bit}
use uclib.Bitmap.Alu.{IsWords, get-alu}
use uclib.Bitmap.Whole.{set_bit-IsTrimmed}
use uclib.Bitmap.Foreach.{foreach, foreach_words, word_foreach, set_bits, foreach-set_bits}
use uclib.Bitmap.Search.{first_set, next_set, next_clear}
use uclib.Bitmap.Search.Results.{IsNext, next_set_lem, next_clear_lem}
use uclib.Bitmap.Field.{get_multiple_lem}
use uclib.Bitmap.Field.Write.{get-set_multiple}

-- Bits 0, 2 and 65.
abbrev sample : Bitmap
sample = 5 ∷ 2 ∷ []

-- Bits 60 to 127.
abbrev full_end : Bitmap
full_end = 0xf000_0000_0000_0000 ∷ 0xffff_ffff_ffff_ffff ∷ []

sample-IsWords : IsWords sample
sample-IsWords zero = omega arith
sample-IsWords (suc zero) = omega arith
sample-IsWords (suc (suc j)) = omega arith

full_end-IsWords : IsWords full_end
full_end-IsWords zero = omega arith
full_end-IsWords (suc zero) = omega arith
full_end-IsWords (suc (suc j)) = omega arith

sample-IsTrimmed : IsTrimmed sample
sample-IsTrimmed = λ h e. absurd (omega arith)

full_end-IsTrimmed : IsTrimmed full_end
full_end-IsTrimmed = λ h e. absurd (omega arith)

grow_and_trim :
    (set_bit [] 65 1 ≡ 0 ∷ 2 ∷ [])
    × (set_bit sample 65 0 ≡ 5 ∷ [])
    × (set_bit sample 500 0 ≡ sample)
unfolding set_bit remove_trailing_zeros vec_validate
grow_and_trim = (refl, refl, refl)

two_words :
    (get_multiple sample 63 5 ≡ 4) × (set_multiple [] 62 7 4 ≡ 0xc000_0000_0000_0000 ∷ 1 ∷ [])
unfolding get_multiple set_multiple vec_validate
two_words = (refl, refl)

-- The search for a clear bit in a map that is set from bit 60 on returns bit 60 itself.
next_clear_is_set : (next_clear full_end 60 ≡ 60) × (get full_end 60 ≡ true)
unfolding next_clear get
next_clear_is_set = (refl, refl)

get-set_bit_example : get (set_bit sample 65 0) 2 ≡ (if 65 == 2 then false else get sample 2)
get-set_bit_example = get-set_bit sample 65 0 2

get-alu_example :
    ((m : Bitmap) × (and_map sample full_end ≡ some m)
      × (get m 65 ≡ (get sample 65 && get full_end 65))
      × IsTrimmed m)
    × ((m : Bitmap) × (andnot_map sample full_end ≡ some m)
        × (get m 65 ≡ (get sample 65 && not (get full_end 65)))
        × IsTrimmed m)
    × ((m : Bitmap) × (or_map sample full_end ≡ some m)
        × (get m 65 ≡ (get sample 65 || get full_end 65)))
    × ((m : Bitmap) × (xor_map sample full_end ≡ some m)
        × (get m 65 ≡ xor (get sample 65) (get full_end 65))
        × IsTrimmed m)
get-alu_example = get-alu sample full_end 65 full_end-IsWords (omega arith)

null_maps : and_map [] [] ≡ none
unfolding and_map alu
null_maps = refl

set_bit-IsTrimmed_example : IsWords (set_bit sample 65 0) × IsTrimmed (set_bit sample 65 0)
set_bit-IsTrimmed_example = set_bit-IsTrimmed sample 65 0 (sample-IsWords, sample-IsTrimmed)

next_set_lem_example :
    (IsNext true sample 3 (next_set sample 3)
      ⊎ ((next_set sample 3 ≡ uword_max) × ((j : ℕ) → 3 ≤ j → get sample j ≡ false)))
    × (IsNext true sample 0 (first_set sample)
        ⊎ ((first_set sample ≡ uword_max) × ((j : ℕ) → 0 ≤ j → get sample j ≡ false)))
next_set_lem_example = next_set_lem sample 3 sample-IsWords

next_clear_lem_example :
    IsNext false full_end 60 (next_clear full_end 60)
    ⊎ ((next_clear full_end 60 ≡ 60)
        × (get full_end 60 ≡ true)
        × ((j : ℕ) → 60 ≤ j → j < 128 → get full_end j ≡ true))
next_clear_lem_example = next_clear_lem full_end 60 full_end-IsWords

get_multiple_lem_example : test_bit (get_multiple sample 63 5) 2 ≡ (ltb 2 5 && get sample (63 + 2))
get_multiple_lem_example = get_multiple_lem sample 63 5 2 sample-IsWords (omega arith) (omega arith)

get-set_multiple_example :
    get (set_multiple sample 62 7 4) 64
    ≡ (if leb 62 64 && ltb 64 66 then test_bit 7 2 else get sample 64)
get-set_multiple_example = get-set_multiple sample 62 7 4 64 (omega arith)

bits_of_sample : foreach sample ≡ 0 ∷ 2 ∷ 65 ∷ []
unfolding foreach foreach_words word_foreach Word.first_set min_log2
bits_of_sample = refl

foreach-set_bits_example : foreach sample ≡ set_bits sample 0 128
foreach-set_bits_example = foreach-set_bits sample sample-IsWords
