-- ===== src/ByteOrder.antt =====
-- Words as bytes in the order of the network, the most significant byte first: `clib_host_to_big_*`
-- and `clib_big_to_host_mem_*` of uclib/byte_order.h on a little-endian machine.
use native.Mathlib.Nat.{pow-suc}
use uclib.Base.{
  ℕ, zero, suc, ◌+◌, ◌*◌, ◌/◌, ◌%◌, ◌^◌, ◌<◌, ◌≡◌, refl, ◌∙◌, ap₂, List, [], ◌∷◌, ◌++◌, arith,
  length, length-append, replicate, take, drop,
}

-- `w` bytes; what is above them is lost.
unfoldable pub big_bytes : ℕ → ℕ → List ℕ
big_bytes zero x = []
big_bytes (suc w) x = big_bytes w (x / 256) ++ (x % 256 ∷ [])

-- The number that bytes stand for, behind a number of higher bytes.
unfoldable pub big_number : ℕ → List ℕ → ℕ
big_number acc [] = acc
big_number acc (x ∷ xs) = big_number (acc * 256 + x) xs

-- The first `n` words of `w` bytes of a block.
unfoldable pub load_words : ℕ → ℕ → List ℕ → List ℕ
load_words w zero d = []
load_words w (suc n) d = big_number 0 (take w d) ∷ load_words w n (drop w d)

pub length-big_bytes : (w x : ℕ) → length (big_bytes w x) ≡ w
unfolding big_bytes
length-big_bytes zero x = refl
length-big_bytes (suc w) x =
    omega
      (arith, length-append (big_bytes w (x / 256)) (x % 256 ∷ []), length-big_bytes w (x / 256))

big_number-append :
    (acc : ℕ) (xs ys : List ℕ) → big_number acc (xs ++ ys) ≡ big_number (big_number acc xs) ys
unfolding big_number
big_number-append acc [] ys = refl
big_number-append acc (x ∷ xs) ys = big_number-append (acc * 256 + x) xs ys

-- A number that fits comes back from its bytes.
pub big_number-big_bytes : (w x : ℕ) → x < 256 ^ w → big_number 0 (big_bytes w x) ≡ x
unfolding big_number big_bytes
big_number-big_bytes zero x h = omega arith
big_number-big_bytes (suc w) x h =
    big_number-append 0 (big_bytes w (x / 256)) (x % 256 ∷ [])
    ∙ omega (arith, big_number-big_bytes w (x / 256) (omega (arith, pow-suc 256 w)))

-- The field of sixteen bytes for eight times a word: above the word that is left, one byte.
pub big_bytes_field :
    (x : ℕ)
    → x < 2 ^ 64
    → big_bytes 16 (8 * x) ≡ replicate 7 0 ++ (x / 2 ^ 61 % 256 ∷ big_bytes 8 (x * 2 ^ 3 % 2 ^ 64))
unfolding big_bytes
big_bytes_field x h = ap₂ ◌∷◌ (omega arith) (
    ap₂ ◌∷◌ (omega arith) (
      ap₂ ◌∷◌ (omega arith) (
        ap₂ ◌∷◌ (omega arith) (
          ap₂ ◌∷◌ (omega arith) (
            ap₂ ◌∷◌ (omega arith) (
              ap₂ ◌∷◌ (omega arith) (
                ap₂ ◌∷◌ (omega arith) (
                  ap₂ ◌∷◌ (omega arith) (
                    ap₂ ◌∷◌ (omega arith) (
                      ap₂ ◌∷◌ (omega arith) (
                        ap₂ ◌∷◌ (omega arith) (
                          ap₂ ◌∷◌ (omega arith) (
                            ap₂ ◌∷◌ (omega arith)
                              (ap₂ ◌∷◌ (omega arith) (ap₂ ◌∷◌ (omega arith) refl)))))))))))))))
