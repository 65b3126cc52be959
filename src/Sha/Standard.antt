-- ===== src/Sha/Standard.antt =====
-- The Secure Hash Standard, FIPS 180-4: its constants from the roots of primes, its functions, its
-- schedules and its padding, without the code of uclib/crypto.c.
use uclib.Base.{
  ℕ, zero, suc, ◌+◌, ◌-◌, ◌*◌, ◌/◌, ◌%◌, ◌^◌, bit_and, bit_or, bit_xor, Bool, true, false, List, [],
  ◌∷◌, ◌++◌, ltb, leb, ◌==◌, if◌then◌else◌, length, get_or, set, take, drop, replicate, map,
}
use uclib.ByteOrder.{big_bytes, load_words}
use uclib.Sha.Sha2.{Vars}

-- Some number from 2 to `d` divides `n`.
unfoldable pub has_divisor : ℕ → ℕ → Bool
has_divisor zero n = false
has_divisor (suc zero) n = false
has_divisor (suc (suc d)) n =
    let rest = has_divisor (suc d) n in if n % (d + 2) == 0 then true else rest

-- The primes among `n`, `n + 1`, ..., of which there are `fuel`.
unfoldable pub primes_from : ℕ → ℕ → List ℕ
primes_from zero n = []
primes_from (suc fuel) n =
    let rest = primes_from fuel (n + 1) in if has_divisor (n - 1) n then rest else n ∷ rest

-- The largest number of so many bits behind `acc` whose power is not beyond `n`.
unfoldable pub root_from : ℕ → ℕ → ℕ → ℕ → ℕ
root_from k n zero acc = acc
root_from k n (suc bits) acc =
    root_from k n bits (if leb ((acc + 2 ^ bits) ^ k) n then acc + 2 ^ bits else acc)

-- The first `w` bits of the fractional part of the `k`-th root of a number below 2 ^ (4 * k).
unfoldable pub root_fraction : ℕ → ℕ → ℕ → ℕ
root_fraction k w p = root_from k (p * 2 ^ (k * w)) (w + 4) 0 % 2 ^ w

-- The first 80 primes.
unfoldable pub primes : List ℕ
unfolding primes_from has_divisor
primes = primes_from 408 2

unfoldable pub root_fractions : ℕ → ℕ → List ℕ → List ℕ
unfolding root_fraction root_from
root_fractions k w [] = []
root_fractions k w (p ∷ ps) = root_fraction k w p ∷ root_fractions k w ps

-- What the standard says of one hash: the bytes of a block, of the field for the length and of a word,
-- the compression, the initial hash value and the words of the digest.
pub record Standard : Type 0 where
  pub n_block : ℕ
  pub n_field : ℕ
  pub n_word : ℕ
  pub compress : List ℕ → List ℕ → List ℕ
  pub initial : List ℕ
  pub n_words : ℕ

-- Section 5.1: a set bit, the least number of zeros, the length in bits.
unfoldable pub standard_pad : Standard → List ℕ → List ℕ
standard_pad h msg =
    let used = (length msg + 1 + h.n_field) % h.n_block in
    msg
    ++ (0x80
        ∷ (replicate ((h.n_block - used) % h.n_block) 0 ++ big_bytes h.n_field (8 * length msg)))

unfoldable pub hash_blocks : Standard → ℕ → List ℕ → List ℕ → List ℕ
hash_blocks h zero value m = value
hash_blocks h (suc n) value m =
    hash_blocks h n (h.compress value (take h.n_block m)) (drop h.n_block m)

unfoldable pub words_to_bytes : ℕ → List ℕ → List ℕ
words_to_bytes w [] = []
words_to_bytes w (x ∷ xs) = big_bytes w x ++ words_to_bytes w xs

-- Section 6.
unfoldable pub standard_digest : Standard → List ℕ → List ℕ
standard_digest h msg =
    let m = standard_pad h msg in
    words_to_bytes h.n_word (take h.n_words (hash_blocks h (length m / h.n_block) h.initial m))

-- Section 3.2, on words of `w` bits.
abbrev pub rotr : ℕ → ℕ → ℕ → ℕ
rotr w n x = bit_or (x / 2 ^ n) (x * 2 ^ (w - n) % 2 ^ w)

-- The numbers in the functions of section 4.1: rotations, but a shift is last of the small sigmas. A
-- number is first taken as a word.
pub record Amounts : Type 0 where
  pub n_bits : ℕ
  pub as_word : ℕ → ℕ
  pub sum0 : ℕ × ℕ × ℕ
  pub sum1 : ℕ × ℕ × ℕ
  pub sigma0 : ℕ × ℕ × ℕ
  pub sigma1 : ℕ × ℕ × ℕ

module _ (amounts : Amounts) where
  open amounts use {n_bits, as_word, sum0, sum1, sigma0, sigma1}

  abbrev sum : ℕ × ℕ × ℕ → ℕ → ℕ
  sum n x =
      let y = as_word x in
      bit_xor (bit_xor (rotr n_bits n.0 y) (rotr n_bits n.1 y)) (rotr n_bits n.2 y)

  abbrev sigma : ℕ × ℕ × ℕ → ℕ → ℕ
  sigma n x =
      let y = as_word x in bit_xor (bit_xor (rotr n_bits n.0 y) (rotr n_bits n.1 y)) (y / 2 ^ n.2)

  -- Section 6.2.2, step 1: the words from `t` on, `n` of them, behind those before.
  unfoldable pub message_schedule : ℕ → ℕ → List ℕ → List ℕ
  message_schedule zero t w = w
  message_schedule (suc n) t w =
      let at = λ (i : ℕ). get_or w i 0 in
      message_schedule n (t + 1) (
        w
        ++ (sigma sigma1 (at (t - 2)) + at (t - 7) + sigma sigma0 (at (t - 15)) + at (t - 16))
            % 2 ^ n_bits
          ∷ [])

  -- Step 3: a round for each constant.
  unfoldable pub working_rounds : List ℕ → ℕ → List ℕ → Vars → Vars
  working_rounds [] t w v = v
  working_rounds (k ∷ ks) t w v =
      let choice = bit_xor v.g (bit_and v.e (bit_xor v.f v.g)) in
      let majority = bit_or (bit_and v.a v.b) (bit_and v.c (bit_or v.a v.b)) in
      let temp1 = (v.h + sum sum1 v.e + choice + k + get_or w t 0) % 2 ^ n_bits in
      let temp2 = (sum sum0 v.a + majority) % 2 ^ n_bits in
      working_rounds ks (t + 1) w record {
        a = (temp1 + temp2) % 2 ^ n_bits;
        b = v.a;
        c = v.b;
        d = v.c;
        e = (v.d + temp1) % 2 ^ n_bits;
        f = v.e;
        g = v.f;
        h = v.g;
      }

  -- Steps 2 and 4 around them; `ks` are the constants.
  unfoldable pub compress_block : List ℕ → List ℕ → List ℕ → List ℕ
  compress_block ks value block =
      let at = λ (i : ℕ). get_or value i 0 in
      let w = message_schedule (length ks - 16) 16 (load_words (n_bits / 8) 16 block) in
      let v =
        working_rounds ks 0 w record {
          a = at 0;
          b = at 1;
          c = at 2;
          d = at 3;
          e = at 4;
          f = at 5;
          g = at 6;
          h = at 7;
        } in
      (at 0 + v.a) % 2 ^ n_bits
      ∷ (at 1 + v.b) % 2 ^ n_bits
      ∷ (at 2 + v.c) % 2 ^ n_bits
      ∷ (at 3 + v.d) % 2 ^ n_bits
      ∷ (at 4 + v.e) % 2 ^ n_bits
      ∷ (at 5 + v.f) % 2 ^ n_bits
      ∷ (at 6 + v.g) % 2 ^ n_bits
      ∷ (at 7 + v.h) % 2 ^ n_bits
      ∷ []

abbrev pub amounts256 : Amounts
amounts256 = record {
  n_bits = 32;
  as_word = λ x. bit_and x (2 ^ 32 - 1);
  sum0 = (2, 13, 22);
  sum1 = (6, 11, 25);
  sigma0 = (7, 18, 3);
  sigma1 = (17, 19, 10);
}

abbrev pub amounts512 : Amounts
amounts512 = record {
  n_bits = 64;
  as_word = λ x. x;
  sum0 = (28, 34, 39);
  sum1 = (14, 18, 41);
  sigma0 = (1, 8, 7);
  sigma1 = (19, 61, 6);
}

-- SHA-224 and SHA-256: roots of the first primes; the initial value of SHA-224 is the second half of
-- the 64 bits of SHA-384.
unfoldable pub initial256 : Bool → List ℕ
unfolding root_fractions primes
initial256 is_short =
    if is_short
    then map (λ x. x % 2 ^ 32) (root_fractions 2 64 (take 8 (drop 8 primes)))
    else root_fractions 2 32 (take 8 primes)

unfoldable pub initial512 : Bool → List ℕ
unfolding root_fractions primes
initial512 is_short = root_fractions 2 64 (take 8 (if is_short then drop 8 primes else primes))

unfoldable pub standard256 : Bool → Standard
unfolding root_fractions primes initial256
standard256 is_short = record {
  n_block = 64;
  n_field = 8;
  n_word = 4;
  compress = compress_block amounts256 (root_fractions 3 32 (take 64 primes));
  initial = initial256 is_short;
  n_words = if is_short then 224 / 32 else 256 / 32;
}

unfoldable pub standard512 : Bool → Standard
unfolding root_fractions primes initial512
standard512 is_short = record {
  n_block = 128;
  n_field = 16;
  n_word = 8;
  compress = compress_block amounts512 (root_fractions 3 64 primes);
  initial = initial512 is_short;
  n_words = if is_short then 384 / 64 else 512 / 64;
}

-- SHA-1: the functions and constants of round `t`.
unfoldable pub function1 : ℕ → ℕ → ℕ → ℕ → ℕ
function1 t x y z =
    if ltb t 20
    then bit_xor z (bit_and x (bit_xor y z))
    else if ltb t 40
    then bit_xor (bit_xor x y) z
    else if ltb t 60
    then bit_or (bit_and x y) (bit_and z (bit_or x y))
    else bit_xor (bit_xor x y) z

-- The square root of 2, 3, 5 or 10, times 2 ^ 30.
unfoldable pub constant1 : ℕ → ℕ
unfolding root_from
constant1 t =
    let p = if ltb t 20 then 2 else if ltb t 40 then 3 else if ltb t 60 then 5 else 10 in
    root_from 2 (p * 2 ^ 60) 32 0

abbrev pub rotl : ℕ → ℕ → ℕ
rotl n x = bit_or (x * 2 ^ n % 2 ^ 32) (bit_and x (2 ^ 32 - 1) / 2 ^ (32 - n))

-- Section 6.1.3: the last sixteen words of the schedule in a ring. `n` rounds from `t` on.
unfoldable pub ring_rounds : ℕ → ℕ → List ℕ → ℕ × ℕ × ℕ × ℕ × ℕ → ℕ × ℕ × ℕ × ℕ × ℕ
unfolding function1 constant1
ring_rounds zero t w v = v
ring_rounds (suc n) t w (a, b, c, d, e) =
    let at = λ (i : ℕ). get_or w (i % 16) 0 in
    let next =
      rotl 1 (bit_xor (bit_xor (bit_xor (at (t + 13)) (at (t + 8))) (at (t + 2))) (at t)) in
    let w' = if ltb t 16 then w else set w (t % 16) next in
    let temp = (rotl 5 a + function1 t b c d + e + constant1 t + get_or w' (t % 16) 0) % 2 ^ 32 in
    ring_rounds n (t + 1) w' (temp, a, rotl 30 b, c, d)

unfoldable pub compress1 : List ℕ → List ℕ → List ℕ
unfolding ring_rounds
compress1 value block =
    let at = λ (i : ℕ). get_or value i 0 in
    let v = ring_rounds 80 0 (load_words 4 16 block) (at 0, at 1, at 2, at 3, at 4) in
    (at 0 + v.0) % 2 ^ 32
    ∷ (at 1 + v.1) % 2 ^ 32
    ∷ (at 2 + v.2) % 2 ^ 32
    ∷ (at 3 + v.3) % 2 ^ 32
    ∷ (at 4 + v.4) % 2 ^ 32
    ∷ []

unfoldable pub standard1 : Standard
standard1 = record {
  n_block = 64;
  n_field = 8;
  n_word = 4;
  compress = compress1;
  initial = 0x67452301 ∷ 0xEFCDAB89 ∷ 0x98BADCFE ∷ 0x10325476 ∷ 0xC3D2E1F0 ∷ [];
  n_words = 160 / 32;
}
