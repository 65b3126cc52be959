-- ===== src/Websocket/Header.antt =====
-- The numbers in the header of a frame of uclib/websocket.c.
use uclib.Base.{
  ℕ, zero, suc, ◌+◌, ◌*◌, ◌/◌, ◌%◌, ◌<◌, bit_and, bit_or, bit_xor, ◌≡◌, refl, ap, ap₂, List, [],
  ◌∷◌, ◌++◌, arith, ltb, ◌==◌, length, get_or,
}
use uclib.Word.Bits.{test_bit-mask, test_bit-xor, same_bits, bit_and_mask, bit_or_beside}
use uclib.ByteOrder.{big_bytes, big_number}
use uclib.Websocket.{payload_number, unmask}

-- The flag is bit 7 of a byte.
pub flag_lem : (x : ℕ) → x < 256 → (bit_and x 128 == 0) ≡ ltb x 128
flag_lem x h = ground (arith, test_bit-mask x 7)

pub masked_length : (l : ℕ) → l < 128 → bit_or 128 l ≡ 128 + l
masked_length l h = bit_or_beside 7 1 l h

pub low_seven : (x : ℕ) → bit_and x 0x7f ≡ x % 128
low_seven x = bit_and_mask 7 x

pub low_four : (x : ℕ) → bit_and x 0xf ≡ x % 16
low_four x = bit_and_mask 4 x

abbrev pub Bytes : List ℕ → Type 0
Bytes [] = Unit
Bytes (x ∷ xs) = (x < 256) × Bytes xs

big_bytes-Bytes-append : (xs : List ℕ) (x : ℕ) → Bytes xs → x < 256 → Bytes (xs ++ x ∷ [])
big_bytes-Bytes-append [] x b h = (h, tt)
big_bytes-Bytes-append (y ∷ xs) x b h = (b.0, big_bytes-Bytes-append xs x b.1 h)

pub Bytes-big_bytes : (w x : ℕ) → Bytes (big_bytes w x)
unfolding big_bytes
Bytes-big_bytes zero x = tt
Bytes-big_bytes (suc w) x =
    big_bytes-Bytes-append (big_bytes w (x / 256)) (x % 256) (Bytes-big_bytes w (x / 256))
      (omega arith)

pub payload_number-big_number :
    (acc : ℕ) (xs : List ℕ) → Bytes xs → payload_number acc xs ≡ big_number acc xs
unfolding payload_number big_number
payload_number-big_number acc [] b = refl
payload_number-big_number acc (x ∷ xs) b =
    rw (bit_or_beside 8 acc x b.0) (payload_number-big_number (acc * 256 + x) xs b.1)

xor_twice : (x m : ℕ) → bit_xor (bit_xor x m) m ≡ x
xor_twice x m =
    same_bits _ x (λ i. ground (arith, test_bit-xor (bit_xor x m) m i, test_bit-xor x m i))

-- The mask taken away twice changes nothing.
pub unmask_twice : (mask xs : List ℕ) (i : ℕ) → unmask mask (unmask mask xs i) i ≡ xs
unfolding unmask
unmask_twice mask [] i = refl
unmask_twice mask (x ∷ xs) i =
    ap₂ ◌∷◌ (xor_twice x (get_or mask (i % 4) 0)) (unmask_twice mask xs (i + 1))

pub length-unmask : (mask xs : List ℕ) (i : ℕ) → length (unmask mask xs i) ≡ length xs
unfolding unmask
length-unmask mask [] i = refl
length-unmask mask (x ∷ xs) i = ap suc (length-unmask mask xs (i + 1))
