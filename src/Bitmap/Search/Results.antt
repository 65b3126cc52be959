-- ===== src/Bitmap/Search/Results.antt =====
-- The results of the four searches, stated by the bits of the map.
use uclib.Base.{
  ℕ, ◌+◌, ◌*◌, ◌/◌, ◌%◌, ◌^◌, ◌≤◌, ◌<◌, ◌≡◌, ◌⊎◌, refl, sym, ◌∙◌, ap, Bool, true, false, not,
  Option, none, some, arith, ltb, Bool-cases, inl, inr, length, get_or-beyond,
}
use uclib.Word.{uword_max, bit_not}
use uclib.Word.Bits.{test_bit, test_bit-zero, test_bit-not}
use uclib.Bitmap.{Bitmap, word_at, get}
use uclib.Bitmap.Trim.{get-bit_at}
use uclib.Bitmap.Alu.{IsWords}
use uclib.Bitmap.Search.{
  plain, scan, or_else, next_from, first_set, first_clear, next_set, next_clear,
}
use uclib.Bitmap.Search.Found.{look_at, Found, scan-Found, next_from-Found}

-- The complement of a word has the complement of its bits.
look_at-bit_not : (ai : Bitmap) (j : ℕ) → IsWords ai → look_at bit_not ai j ≡ not (get ai j)
look_at-bit_not ai j w =
    test_bit-not 64 (word_at ai (j / 64)) (j % 64) (w (j / 64)) (omega arith)
    ∙ ap not (sym (get-bit_at ai j))

bit_not-lt : (ai : Bitmap) (j : ℕ) → bit_not (word_at ai j) < 2 ^ 64
bit_not-lt ai j = omega arith

get-beyond : (ai : Bitmap) (j : ℕ) → length ai * 64 ≤ j → get ai j ≡ false
get-beyond ai j h =
    get-bit_at ai j
    ∙ ap (λ (t : ℕ). test_bit t (j % 64)) (get_or-beyond ai (j / 64) 0 (omega arith))
    ∙ test_bit-zero (j % 64)

-- `r` is the lowest bit from `lo` on that is set, or clear.
abbrev pub IsNext : Bool → Bitmap → ℕ → ℕ → Type 0
IsNext b ai lo r = (lo ≤ r) × (get ai r ≡ b) × ((j : ℕ) → lo ≤ j → j < r → get ai j ≡ not b)

not_eq : (a b : Bool) → not a ≡ b → a ≡ not b
not_eq a b h = ground arith

set_result :
    (ai : Bitmap) (lo : ℕ) (o : Option ℕ)
    → Found plain ai lo (length ai * 64) o
    → IsNext true ai lo (or_else o uword_max)
      ⊎ ((or_else o uword_max ≡ uword_max) × ((j : ℕ) → lo ≤ j → get ai j ≡ false))
set_result ai lo (some r) h = inl (h.0, get-bit_at ai r ∙ h.2, λ j p q. get-bit_at ai j ∙ h.3 j p q)
set_result ai lo none h = inr (
  refl,
  λ j p. elim (Bool-cases (ltb j (length ai * 64))) [
    | inl inside ↦ get-bit_at ai j ∙ h j p (ground arith)
    | inr beyond ↦ get-beyond ai j (ground arith)
  ],
)

-- `next_set` returns the lowest set bit from `i` on, or ~0 when no bit from `i` on is set; and
-- `first_set` the same from bit 0.
pub next_set_lem :
    (ai : Bitmap) (i : ℕ)
    → IsWords ai
    → (IsNext true ai i (next_set ai i)
        ⊎ ((next_set ai i ≡ uword_max) × ((j : ℕ) → i ≤ j → get ai j ≡ false)))
      × (IsNext true ai 0 (first_set ai)
          ⊎ ((first_set ai ≡ uword_max) × ((j : ℕ) → 0 ≤ j → get ai j ≡ false)))
unfolding next_set first_set
next_set_lem ai i w = (
  set_result ai i (next_from plain ai i) (next_from-Found plain ai w i),
  set_result ai 0 (scan plain ai (length ai) 0) (
      let e : 0 + length ai ≡ length ai = omega arith in
      rw e at (scan-Found plain ai w (length ai) 0)),
)

clear_result :
    (ai : Bitmap) (lo r : ℕ)
    → IsWords ai
    → Found bit_not ai lo (length ai * 64) (some r)
    → IsNext false ai lo r
clear_result ai lo r w h = (
  h.0,
  not_eq (get ai r) true (sym (look_at-bit_not ai r w) ∙ h.2),
  λ j p q. not_eq (get ai j) false (sym (look_at-bit_not ai j w) ∙ h.3 j p q),
)

all_set :
    (ai : Bitmap) (lo : ℕ)
    → IsWords ai
    → Found bit_not ai lo (length ai * 64) none
    → (j : ℕ) → lo ≤ j
    → j < length ai * 64
    → get ai j ≡ true
all_set ai lo w h j p q = not_eq (get ai j) false (sym (look_at-bit_not ai j w) ∙ h j p q)

first_clear_result :
    (ai : Bitmap) (o : Option ℕ)
    → IsWords ai
    → Found bit_not ai 0 (length ai * 64) o
    → IsNext false ai 0 (or_else o (length ai * 64))
first_clear_result ai (some r) w h = clear_result ai 0 r w h
first_clear_result ai none w h =
    (omega arith, get-beyond ai (length ai * 64) (omega arith), all_set ai 0 w h)

-- `first_clear` returns the lowest clear bit.
first_clear_lem : (ai : Bitmap) → IsWords ai → IsNext false ai 0 (first_clear ai)
unfolding first_clear
first_clear_lem ai w = first_clear_result ai _ w (
    let e : 0 + length ai ≡ length ai = omega arith in
    rw e at (scan-Found bit_not ai (bit_not-lt ai) (length ai) 0))

clear_cases :
    (ai : Bitmap) (i : ℕ) (o : Option ℕ)
    → IsWords ai
    → Found bit_not ai i (length ai * 64) o
    → IsNext false ai i (or_else o i)
      ⊎ ((or_else o i ≡ i)
          × (get ai i ≡ true)
          × ((j : ℕ) → i ≤ j → j < length ai * 64 → get ai j ≡ true))
clear_cases ai i (some r) w h = inl (clear_result ai i r w h)
clear_cases ai i none w h = elim (Bool-cases (ltb i (length ai * 64))) [
  | inl inside ↦ inr (refl, all_set ai i w h i (omega arith) (ground arith), all_set ai i w h)
  | inr beyond ↦ inl (omega arith, get-beyond ai i (ground arith), λ j p q. absurd (omega arith))
]

-- `next_clear` returns the lowest clear bit from `i` on, unless every bit of the vector from `i` on
-- is set: then it returns `i` itself, which is a set bit.
pub next_clear_lem :
    (ai : Bitmap) (i : ℕ)
    → IsWords ai
    → IsNext false ai i (next_clear ai i)
      ⊎ ((next_clear ai i ≡ i)
          × (get ai i ≡ true)
          × ((j : ℕ) → i ≤ j → j < length ai * 64 → get ai j ≡ true))
unfolding next_clear
next_clear_lem ai i w =
    clear_cases ai i (next_from bit_not ai i) w (next_from-Found bit_not ai (bit_not-lt ai) i)
