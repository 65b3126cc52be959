-- ===== src/Sha/Sha256.antt =====
-- SHA-256 and SHA-224: `sha256_update_block`, `sha256_sha224_init`, `sha256_update`,
-- `sha256_finalize` and what calls them.
use uclib.Base.{
  ℕ, ◌+◌, ◌*◌, ◌%◌, ◌^◌, ◌<◌, bit_and, ◌≡◌, ◌≤◌, zero, suc, refl, ap, sym, ◌∙◌, ◌-◌, take, drop,
  replicate, length-append, get_or-append_below, Bool, true, false, List, [], ◌∷◌, ◌++◌, arith,
  length, get_or, ltb, if◌then◌else◌,
}
use uclib.Sha.{Bytes, Sha, Algorithm, update, finalize}
use uclib.ByteOrder.{big_bytes, load_words, length-big_bytes}
use uclib.Sha.Digest.{pad, n_zeros, IsAlgorithm}
use uclib.Sha.Standard.{
  primes_from, has_divisor, primes, root_from, root_fraction, root_fractions, standard_pad,
  standard_digest, amounts256, message_schedule, working_rounds, compress_block, initial256,
  standard256,
}
use uclib.Sha.Agree.{digest-standard}
use uclib.Sha.Stream.{concat, updates, stream-digest}
use uclib.Sha.Sha2.{
  Family, Vars, shift_right, rotate_right, xor3, round, majority, choose, next_word, load_vars,
  add_vars,
}

-- SHR masks the 32 bits of its argument.
abbrev shr : ℕ → ℕ → ℕ
shr x n = shift_right (bit_and x 0xFFFFFFFF) n

abbrev rotr : ℕ → ℕ → ℕ
rotr x n = rotate_right 32 (bit_and x 0xFFFFFFFF) n

abbrev pub sha256_family : Family
sha256_family = record {
  n_bits = 32;
  s0 = λ x. xor3 (rotr x 7) (rotr x 18) (shr x 3);
  s1 = λ x. xor3 (rotr x 17) (rotr x 19) (shr x 10);
  s2 = λ x. xor3 (rotr x 2) (rotr x 13) (rotr x 22);
  s3 = λ x. xor3 (rotr x 6) (rotr x 11) (rotr x 25);
}

-- The constants of the 64 rounds.
abbrev pub sha256_k : List ℕ
sha256_k =
    0x428A2F98 ∷ 0x71374491 ∷ 0xB5C0FBCF ∷ 0xE9B5DBA5 ∷ 0x3956C25B ∷ 0x59F111F1 ∷ 0x923F82A4
    ∷ 0xAB1C5ED5 ∷ 0xD807AA98 ∷ 0x12835B01 ∷ 0x243185BE ∷ 0x550C7DC3 ∷ 0x72BE5D74 ∷ 0x80DEB1FE
    ∷ 0x9BDC06A7 ∷ 0xC19BF174 ∷ 0xE49B69C1 ∷ 0xEFBE4786 ∷ 0x0FC19DC6 ∷ 0x240CA1CC ∷ 0x2DE92C6F
    ∷ 0x4A7484AA ∷ 0x5CB0A9DC ∷ 0x76F988DA ∷ 0x983E5152 ∷ 0xA831C66D ∷ 0xB00327C8 ∷ 0xBF597FC7
    ∷ 0xC6E00BF3 ∷ 0xD5A79147 ∷ 0x06CA6351 ∷ 0x14292967 ∷ 0x27B70A85 ∷ 0x2E1B2138 ∷ 0x4D2C6DFC
    ∷ 0x53380D13 ∷ 0x650A7354 ∷ 0x766A0ABB ∷ 0x81C2C92E ∷ 0x92722C85 ∷ 0xA2BFE8A1 ∷ 0xA81A664B
    ∷ 0xC24B8B70 ∷ 0xC76C51A3 ∷ 0xD192E819 ∷ 0xD6990624 ∷ 0xF40E3585 ∷ 0x106AA070 ∷ 0x19A4C116
    ∷ 0x1E376C08 ∷ 0x2748774C ∷ 0x34B0BCB5 ∷ 0x391C0CB3 ∷ 0x4ED8AA4A ∷ 0x5B9CCA4F ∷ 0x682E6FF3
    ∷ 0x748F82EE ∷ 0x78A5636F ∷ 0x84C87814 ∷ 0x8CC70208 ∷ 0x90BEFFFA ∷ 0xA4506CEB ∷ 0xBEF9A3F7
    ∷ 0xC67178F2 ∷ []

-- Rounds t, t + 1, ...; from round 16 on, a round first adds its word to the schedule.
rounds : List ℕ → ℕ → List ℕ → Vars → Vars
unfolding round next_word
rounds [] t w v = v
rounds (k ∷ ks) t w v =
    let w' = if ltb t 16 then w else w ++ (next_word sha256_family w t ∷ []) in
    rounds ks (t + 1) w' (round sha256_family v (get_or w' t 0) k)

unfoldable pub sha256_update_block : List ℕ → Bytes → List ℕ
unfolding rounds load_words load_vars add_vars
sha256_update_block state block =
    add_vars sha256_family state
      (rounds sha256_k 0 (load_words 4 16 block) (load_vars sha256_family state))

unfoldable pub sha256_length_bytes : ℕ → Bytes
unfolding big_bytes
sha256_length_bytes n = big_bytes 8 (n * 2 ^ 3 % 2 ^ 64)

abbrev pub sha256_algorithm : Algorithm
sha256_algorithm = record {
  n_block = 64;
  update_block = sha256_update_block;
  n_room = 56;
  length_bytes = sha256_length_bytes;
  n_length = 8;
  word_bytes = big_bytes 4;
}

abbrev pub sha256_sha224_init_state : Bool → List ℕ
sha256_sha224_init_state is_sha224 =
    if is_sha224
    then 0xC1059ED8 ∷ 0x367CD507 ∷ 0x3070DD17 ∷ 0xF70E5939 ∷ 0xFFC00B31 ∷ 0x68581511 ∷ 0x64F98FA7
      ∷ 0xBEFA4FA4 ∷ []
    else 0x6A09E667 ∷ 0xBB67AE85 ∷ 0x3C6EF372 ∷ 0xA54FF53A ∷ 0x510E527F ∷ 0x9B05688C ∷ 0x1F83D9AB
      ∷ 0x5BE0CD19 ∷ []

unfoldable pub sha256_sha224_init : Sha → Bool → Sha
sha256_sha224_init s is_sha224 = record {
  n_bytes_processed = 0;
  partial_block_buffer = s.partial_block_buffer;
  state = sha256_sha224_init_state is_sha224;
  is_short = is_sha224;
}

abbrev pub sha256_init : Sha → Sha
sha256_init s = sha256_sha224_init s false

abbrev pub sha224_init : Sha → Sha
sha224_init s = sha256_sha224_init s true

abbrev pub sha256_update : Sha → Bytes → Sha
sha256_update s d = update sha256_algorithm s d

-- The words of the result.
abbrev pub sha256_n_words : Bool → ℕ
sha256_n_words is_sha224 = if is_sha224 then 7 else 8

abbrev pub sha256_finalize : Sha → Sha × Bytes
sha256_finalize s = finalize sha256_algorithm sha256_n_words s

abbrev pub sha224_update : Sha → Bytes → Sha
sha224_update s d = sha256_update s d

abbrev pub sha224_finalize : Sha → Sha × Bytes
sha224_finalize s = sha256_finalize s

-- `s` is the state on the stack, not initialised.
unfoldable pub sha256 : Sha → Bytes → Bytes
unfolding sha256_sha224_init
sha256 s d = (sha256_finalize (sha256_update (sha256_init s) d)).1

unfoldable pub sha224 : Sha → Bytes → Bytes
unfolding sha256_sha224_init
sha224 s d = (sha224_finalize (sha224_update (sha224_init s) d)).1

sha256_laws : IsAlgorithm sha256_algorithm (2 ^ 61)
unfolding sha256_length_bytes
sha256_laws = record {
  room = omega arith;
  fits = omega arith;
  wraps = λ x. omega arith;
  counted = omega arith;
  lengths = λ x. length-big_bytes 8 (x * 2 ^ 3 % 2 ^ 64);
  field = λ x h. ap (big_bytes 8) (omega arith);
}

padded256 :
    (is_short : Bool) (msg : List ℕ)
    → pad sha256_algorithm msg ≡ standard_pad (standard256 is_short) msg
unfolding pad n_zeros standard_pad standard256
padded256 is_short msg =
    ap (λ (n : ℕ). msg ++ (0x80 ∷ (replicate n 0 ++ big_bytes 8 (8 * length msg)))) (omega arith)

words256 : (is_short : Bool) → sha256_n_words is_short ≡ (standard256 is_short).n_words
unfolding standard256
words256 false = refl
words256 true = refl

get_or-schedule :
    (n t j : ℕ) (w : List ℕ)
    → j < length w
    → get_or (message_schedule amounts256 n t w) j 0 ≡ get_or w j 0
unfolding message_schedule
get_or-schedule zero t j w h = refl
get_or-schedule (suc n) t j w h =
    get_or-schedule n (t + 1) j (w ++ _ ∷ [])
      (omega (arith, length-append w (0 ∷ []), h, length-append w (_ ∷ [])))
    ∙ get_or-append_below w (_ ∷ []) j 0 h

-- A round first adds its word to the schedule; the standard adds all words before the rounds.
rounds-late :
    (ks : List ℕ) (t : ℕ) (w : List ℕ) (v : Vars)
    → 16 ≤ t
    → length w ≡ t
    → rounds ks t w v
      ≡ working_rounds amounts256 ks t (message_schedule amounts256 (length ks) t w) v
unfolding rounds round choose majority next_word working_rounds message_schedule
rounds-late [] t w v late l = refl
rounds-late (k ∷ ks) t w v late l =
    let new = next_word sha256_family w t in
    let adds : ltb t 16 ≡ false = ground (arith, late) in
    let more : length (w ++ new ∷ []) ≡ t + 1 = omega (arith, length-append w (new ∷ []), l) in
    rw (adds, get_or-schedule (length ks) (t + 1) t (w ++ new ∷ []) (omega (arith, more)))
      (rounds-late ks (t + 1) (w ++ new ∷ []) _ (omega (arith, late)) more)

rounds-early :
    (n : ℕ) (ks : List ℕ) (t : ℕ) (w : List ℕ) (v : Vars)
    → t + n ≡ 16
    → length w ≡ 16
    → rounds ks t w v
      ≡ working_rounds amounts256 ks t (message_schedule amounts256 (length ks - n) 16 w) v
unfolding rounds round choose majority working_rounds
rounds-early zero ks t w v e l =
    let here : t ≡ 16 = omega (arith, e) in
    let all : length ks - 0 ≡ length ks = omega arith in
    rw (here, all) (rounds-late ks 16 w v (omega arith) l)
rounds-early (suc n) [] t w v e l = refl
rounds-early (suc n) (k ∷ ks) t w v e l =
    let keeps : ltb t 16 ≡ true = ground (arith, e) in
    let left : suc (length ks) - suc n ≡ length ks - n = omega arith in
    rw (keeps, left, get_or-schedule (length ks - n) 16 t w (omega (arith, e, l)))
      (rounds-early n ks (t + 1) w _ (omega (arith, e)) l)

constants256 : sha256_k ≡ root_fractions 3 32 (take 64 primes)
unfolding root_fractions root_fraction root_from primes primes_from has_divisor
constants256 = refl

initial_states256 : (is_short : Bool) → sha256_sha224_init_state is_short ≡ initial256 is_short
unfolding initial256 root_fractions root_fraction root_from primes primes_from has_divisor
initial_states256 false = refl
initial_states256 true = refl

length-load_words : (w n : ℕ) (d : List ℕ) → length (load_words w n d) ≡ n
unfolding load_words
length-load_words w zero d = refl
length-load_words w (suc n) d = ap suc (length-load_words w n (drop w d))

update_block-standard256 :
    (is_short : Bool) (value block : List ℕ)
    → sha256_update_block value block ≡ (standard256 is_short).compress value block
unfolding sha256_update_block standard256 compress_block load_vars add_vars
update_block-standard256 is_short value block = rw (sym constants256) (
    ap (add_vars sha256_family value) (
      rounds-early 16 sha256_k 0 (load_words 4 16 block) (load_vars sha256_family value) refl
        (length-load_words 4 16 block)))

-- On a state whose buffer has 64 bytes: however a message of less than 2 ^ 61 bytes is cut into the
-- data of calls of `sha256_update`, `sha256_finalize` returns the digest of the standard, that of
-- SHA-256 after `sha256_init` and of SHA-224 after `sha224_init`. The standard's padding, schedule,
-- rounds, initial values and number of words are definitions of their own; its constants are computed
-- from the roots of the primes.
pub sha256-digest :
    (s : Sha) (is_sha224 : Bool) (ds : List Bytes)
    → length s.partial_block_buffer ≡ 64
    → length (concat ds) < 2 ^ 61
    → (sha256_finalize (updates sha256_algorithm (sha256_sha224_init s is_sha224) ds)).1
      ≡ standard_digest (standard256 is_sha224) (concat ds)
unfolding sha256_sha224_init
sha256-digest s is_sha224 ds l h =
    stream-digest sha256_algorithm (sha256_sha224_init_state is_sha224) (2 ^ 61) sha256_laws
      sha256_n_words (sha256_sha224_init s is_sha224) ds refl refl l h
    ∙ digest-standard sha256_algorithm (standard256 is_sha224) (unfold standard256 in refl)
        (update_block-standard256 is_sha224) (λ x. unfold standard256 in refl) (padded256 is_sha224)
        (sha256_sha224_init_state is_sha224) (sha256_n_words is_sha224) (concat ds)
        (initial_states256 is_sha224 ∙ unfold standard256 in refl) (words256 is_sha224)
