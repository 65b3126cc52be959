-- ===== src/Zvec/Signed.antt =====
-- The conversion between signed and unsigned values.
use uclib.Base.{ℕ, ◌+◌, ◌-◌, ◌*◌, ◌%◌, ◌^◌, ◌<◌, ◌≡◌, arith, leb, if◌then◌else◌}
use uclib.Word.{uword_mod}
use uclib.Word.Bits.{bit_and-one}
use uclib.Zvec.{zvec_signed_to_unsigned, zvec_unsigned_to_signed}

-- What a signed word is sent to: 0, 1, 2, ... to the even numbers, -1, -2, ... to the odd ones.
zvec_signed_to_unsigned_lem :
    (s : ℕ)
    → s < uword_mod
    → zvec_signed_to_unsigned s ≡ (if leb (2 ^ 63) s then 2 * (uword_mod - s) - 1 else 2 * s)
unfolding zvec_signed_to_unsigned
zvec_signed_to_unsigned_lem s h = ground arith

-- The way back gives a word that is not negative its value again, and a negative one the value
-- plus one.
pub unsigned_to_signed-signed_to_unsigned :
    (s : ℕ)
    → s < uword_mod
    → zvec_unsigned_to_signed (zvec_signed_to_unsigned s)
      ≡ (if leb (2 ^ 63) s then (s + 1) % uword_mod else s)
unfolding zvec_unsigned_to_signed
unsigned_to_signed-signed_to_unsigned s h =
    ground (arith, zvec_signed_to_unsigned_lem s h, bit_and-one (zvec_signed_to_unsigned s))
