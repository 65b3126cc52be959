-- ===== src/Bitmap/Search.antt =====
-- The searches of uclib/bitmap.h for the first, or the next, bit that is set or clear.
mod Found
pub mod Results
use uclib.Base.{
  ℕ, zero, suc, ◌+◌, ◌-◌, ◌*◌, ◌/◌, ◌%◌, ◌^◌, ◌≤◌, ◌<◌, ◌≡◌, ◌≢◌, ◌⊎◌, refl, sym, ◌∙◌, ap, Bool,
  true, false, not, ◌&&◌, Option, none, some, arith, ltb, ◌==◌, if◌then◌else◌, Bool-cases,
  Option-cases, inl, inr, length, get_or, get_or-beyond,
}
use uclib.Word.{uword_bits, uword_max, shl, shr, bit_not, log2_first_set}
use uclib.Word.Bits.{
  test_bit, test_bit-zero, test_bit-not, test_bit-mod, test_bit-shl, test_bit-shr, pow_pos,
}
use uclib.Word.FirstSet.{log2_first_set_lem}
use uclib.Bitmap.{Bitmap, word_at, get}
use uclib.Bitmap.Trim.{bit_at, get-bit_at}
use uclib.Bitmap.Alu.{IsWords}

-- What the code tests of a word: itself for a set bit, its complement for a clear one.
abbrev pub Look : Type 0
Look = ℕ → ℕ

abbrev pub plain : Look
plain x = x

-- The loop over the words from `i` on, with `n` words left: the first bit found.
pub scan : Look → Bitmap → ℕ → ℕ → Option ℕ
scan look ai zero i = none
scan look ai (suc n) i =
    let x = look (word_at ai i) in
    if not (x == 0) then some (i * uword_bits + log2_first_set x) else scan look ai n (i + 1)

abbrev pub or_else : Option ℕ → ℕ → ℕ
or_else none d = d
or_else (some r) d = r

unfoldable pub first_set : Bitmap → ℕ
unfolding scan
first_set ai = or_else (scan plain ai (length ai) 0) uword_max

unfoldable pub first_clear : Bitmap → ℕ
unfolding scan
first_clear ai = or_else (scan bit_not ai (length ai) 0) (length ai * uword_bits)

-- The search from bit `i`: first what is left of its word, then the words behind it.
pub next_from : Look → Bitmap → ℕ → Option ℕ
next_from look ai i =
    let i0 = i / uword_bits in
    let i1 = i % uword_bits in
    let t = shl (shr (look (word_at ai i0)) i1) i1 in
    if ltb i0 (length ai)
    then (if not (t == 0)
        then some (log2_first_set t + i0 * uword_bits)
        else scan look ai (length ai - (i0 + 1)) (i0 + 1))
    else none

unfoldable pub next_set : Bitmap → ℕ → ℕ
unfolding next_from scan
next_set ai i = or_else (next_from plain ai i) uword_max

unfoldable pub next_clear : Bitmap → ℕ → ℕ
unfolding next_from scan
next_clear ai i = or_else (next_from bit_not ai i) i
