-- ===== src/Sha/Sha512.antt =====
-- SHA-512 and SHA-384: `sha512_update_block`, `sha512_sha384_init`, `sha512_update`,
-- `sha512_finalize` and what calls them.
use uclib.Base.{
  ℕ, zero, suc, ◌+◌, ◌*◌, ◌/◌, ◌%◌, ◌^◌, ◌<◌, ◌≡◌, refl, ap, sym, ◌∙◌, replicate, Bool, true, false,
  List, [], ◌∷◌, ◌++◌, arith, length, get_or, if◌then◌else◌,
}
use uclib.Sha.{Bytes, Sha, Algorithm, update, finalize}
use uclib.ByteOrder.{big_bytes, load_words, length-big_bytes, big_bytes_field}
use uclib.Sha.Digest.{pad, n_zeros, IsAlgorithm}
use uclib.Sha.Standard.{
  primes_from, has_divisor, primes, root_from, root_fraction, root_fractions, standard_pad,
  standard_digest, amounts512, message_schedule, working_rounds, compress_block, initial512,
  standard512,
}
use uclib.Sha.Agree.{digest-standard}
use uclib.Sha.Stream.{concat, updates, stream-digest}
use uclib.Sha.Sha2.{
  Family, Vars, shift_right, rotate_right, xor3, round, majority, choose, next_word, load_vars,
  add_vars,
}

abbrev shr : ℕ → ℕ → ℕ
shr x n = shift_right x n

abbrev rotr : ℕ → ℕ → ℕ
rotr x n = rotate_right 64 x n

abbrev pub sha512_family : Family
sha512_family = record {
  n_bits = 64;
  s0 = λ x. xor3 (rotr x 1) (rotr x 8) (shr x 7);
  s1 = λ x. xor3 (rotr x 19) (rotr x 61) (shr x 6);
  s2 = λ x. xor3 (rotr x 28) (rotr x 34) (rotr x 39);
  s3 = λ x. xor3 (rotr x 14) (rotr x 18) (rotr x 41);
}

-- K
abbrev pub sha512_k : List ℕ
sha512_k =
    0x428A2F98D728AE22 ∷ 0x7137449123EF65CD ∷ 0xB5C0FBCFEC4D3B2F ∷ 0xE9B5DBA58189DBBC
    ∷ 0x3956C25BF348B538 ∷ 0x59F111F1B605D019 ∷ 0x923F82A4AF194F9B ∷ 0xAB1C5ED5DA6D8118
    ∷ 0xD807AA98A3030242 ∷ 0x12835B0145706FBE ∷ 0x243185BE4EE4B28C ∷ 0x550C7DC3D5FFB4E2
    ∷ 0x72BE5D74F27B896F ∷ 0x80DEB1FE3B1696B1 ∷ 0x9BDC06A725C71235 ∷ 0xC19BF174CF692694
    ∷ 0xE49B69C19EF14AD2 ∷ 0xEFBE4786384F25E3 ∷ 0x0FC19DC68B8CD5B5 ∷ 0x240CA1CC77AC9C65
    ∷ 0x2DE92C6F592B0275 ∷ 0x4A7484AA6EA6E483 ∷ 0x5CB0A9DCBD41FBD4 ∷ 0x76F988DA831153B5
    ∷ 0x983E5152EE66DFAB ∷ 0xA831C66D2DB43210 ∷ 0xB00327C898FB213F ∷ 0xBF597FC7BEEF0EE4
    ∷ 0xC6E00BF33DA88FC2 ∷ 0xD5A79147930AA725 ∷ 0x06CA6351E003826F ∷ 0x142929670A0E6E70
    ∷ 0x27B70A8546D22FFC ∷ 0x2E1B21385C26C926 ∷ 0x4D2C6DFC5AC42AED ∷ 0x53380D139D95B3DF
    ∷ 0x650A73548BAF63DE ∷ 0x766A0ABB3C77B2A8 ∷ 0x81C2C92E47EDAEE6 ∷ 0x92722C851482353B
    ∷ 0xA2BFE8A14CF10364 ∷ 0xA81A664BBC423001 ∷ 0xC24B8B70D0F89791 ∷ 0xC76C51A30654BE30
    ∷ 0xD192E819D6EF5218 ∷ 0xD69906245565A910 ∷ 0xF40E35855771202A ∷ 0x106AA07032BBD1B8
    ∷ 0x19A4C116B8D2D0C8 ∷ 0x1E376C085141AB53 ∷ 0x2748774CDF8EEB99 ∷ 0x34B0BCB5E19B48A8
    ∷ 0x391C0CB3C5C95A63 ∷ 0x4ED8AA4AE3418ACB ∷ 0x5B9CCA4F7763E373 ∷ 0x682E6FF3D6B2B8A3
    ∷ 0x748F82EE5DEFB2FC ∷ 0x78A5636F43172F60 ∷ 0x84C87814A1F0AB72 ∷ 0x8CC702081A6439EC
    ∷ 0x90BEFFFA23631E28 ∷ 0xA4506CEBDE82BDE9 ∷ 0xBEF9A3F7B2C67915 ∷ 0xC67178F2E372532B
    ∷ 0xCA273ECEEA26619C ∷ 0xD186B8C721C0C207 ∷ 0xEADA7DD6CDE0EB1E ∷ 0xF57D4F7FEE6ED178
    ∷ 0x06F067AA72176FBA ∷ 0x0A637DC5A2C898A6 ∷ 0x113F9804BEF90DAE ∷ 0x1B710B35131C471B
    ∷ 0x28DB77F523047D84 ∷ 0x32CAAB7B40C72493 ∷ 0x3C9EBE0A15C9BEBC ∷ 0x431D67C49C100D4C
    ∷ 0x4CC5D4BECB3E42B6 ∷ 0x597F299CFC657E2A ∷ 0x5FCB6FAB3AD6FAEC ∷ 0x6C44198C4A475817 ∷ []

-- The loop that extends the schedule to the words `i`, `i` + 1, ..., `n` of them.
extend : ℕ → ℕ → List ℕ → List ℕ
unfolding next_word
extend zero i w = w
extend (suc n) i w = extend n (i + 1) (w ++ (next_word sha512_family w i ∷ []))

-- The loop over the rounds, eight of which stand in the source for their names.
rounds : List ℕ → ℕ → List ℕ → Vars → Vars
unfolding round
rounds [] i w v = v
rounds (k ∷ ks) i w v = rounds ks (i + 1) w (round sha512_family v (get_or w i 0) k)

unfoldable pub sha512_update_block : List ℕ → Bytes → List ℕ
unfolding rounds extend load_words load_vars add_vars
sha512_update_block state block =
    let w = extend 64 16 (load_words 8 16 block) in
    add_vars sha512_family state (rounds sha512_k 0 w (load_vars sha512_family state))

unfoldable pub sha512_length_bytes : ℕ → Bytes
unfolding big_bytes
sha512_length_bytes n = (n / 2 ^ 61 % 256) ∷ big_bytes 8 (n * 2 ^ 3 % 2 ^ 64)

abbrev pub sha512_algorithm : Algorithm
sha512_algorithm = record {
  n_block = 128;
  update_block = sha512_update_block;
  n_room = 112;
  length_bytes = sha512_length_bytes;
  n_length = 9;
  word_bytes = big_bytes 8;
}

abbrev pub sha512_sha384_init_state : Bool → List ℕ
sha512_sha384_init_state is_sha384 =
    if is_sha384
    then 0xCBBB9D5DC1059ED8 ∷ 0x629A292A367CD507 ∷ 0x9159015A3070DD17 ∷ 0x152FECD8F70E5939
      ∷ 0x67332667FFC00B31 ∷ 0x8EB44A8768581511 ∷ 0xDB0C2E0D64F98FA7 ∷ 0x47B5481DBEFA4FA4 ∷ []
    else 0x6A09E667F3BCC908 ∷ 0xBB67AE8584CAA73B ∷ 0x3C6EF372FE94F82B ∷ 0xA54FF53A5F1D36F1
      ∷ 0x510E527FADE682D1 ∷ 0x9B05688C2B3E6C1F ∷ 0x1F83D9ABFB41BD6B ∷ 0x5BE0CD19137E2179 ∷ []

unfoldable pub sha512_sha384_init : Sha → Bool → Sha
sha512_sha384_init s is_sha384 = record {
  n_bytes_processed = 0;
  partial_block_buffer = s.partial_block_buffer;
  state = sha512_sha384_init_state is_sha384;
  is_short = is_sha384;
}

abbrev pub sha512_init : Sha → Sha
sha512_init s = sha512_sha384_init s false

abbrev pub sha384_init : Sha → Sha
sha384_init s = sha512_sha384_init s true

abbrev pub sha512_update : Sha → Bytes → Sha
sha512_update s d = update sha512_algorithm s d

-- The words of the result.
abbrev pub sha512_n_words : Bool → ℕ
sha512_n_words is_sha384 = if is_sha384 then 6 else 8

abbrev pub sha512_finalize : Sha → Sha × Bytes
sha512_finalize s = finalize sha512_algorithm sha512_n_words s

abbrev pub sha384_update : Sha → Bytes → Sha
sha384_update s d = sha512_update s d

abbrev pub sha384_finalize : Sha → Sha × Bytes
sha384_finalize s = sha512_finalize s

-- `s` is the state on the stack, not initialised.
unfoldable pub sha512 : Sha → Bytes → Bytes
unfolding sha512_sha384_init
sha512 s d = (sha512_finalize (sha512_update (sha512_init s) d)).1

unfoldable pub sha384 : Sha → Bytes → Bytes
unfolding sha512_sha384_init
sha384 s d = (sha384_finalize (sha384_update (sha384_init s) d)).1

sha512_laws : IsAlgorithm sha512_algorithm (2 ^ 64)
unfolding sha512_length_bytes
sha512_laws = record {
  room = omega arith;
  fits = omega arith;
  wraps = λ x. omega arith;
  counted = omega arith;
  lengths = λ x. ap suc (length-big_bytes 8 (x * 2 ^ 3 % 2 ^ 64));
  field = λ x h. big_bytes_field x h;
}

padded512 :
    (is_short : Bool) (msg : List ℕ)
    → pad sha512_algorithm msg ≡ standard_pad (standard512 is_short) msg
unfolding pad n_zeros standard_pad standard512
padded512 is_short msg =
    ap (λ (n : ℕ). msg ++ (0x80 ∷ (replicate n 0 ++ big_bytes 16 (8 * length msg)))) (omega arith)

words512 : (is_short : Bool) → sha512_n_words is_short ≡ (standard512 is_short).n_words
unfolding standard512
words512 false = refl
words512 true = refl

extend-schedule : (n t : ℕ) (w : List ℕ) → extend n t w ≡ message_schedule amounts512 n t w
unfolding extend message_schedule next_word
extend-schedule zero t w = refl
extend-schedule (suc n) t w = extend-schedule n (t + 1) _

rounds-working :
    (ks : List ℕ) (t : ℕ) (w : List ℕ) (v : Vars)
    → rounds ks t w v ≡ working_rounds amounts512 ks t w v
unfolding rounds round choose majority working_rounds
rounds-working [] t w v = refl
rounds-working (k ∷ ks) t w v = rounds-working ks (t + 1) w _

constants512 : sha512_k ≡ root_fractions 3 64 primes
unfolding root_fractions root_fraction root_from primes primes_from has_divisor
constants512 = refl

initial_states512 : (is_short : Bool) → sha512_sha384_init_state is_short ≡ initial512 is_short
unfolding initial512 root_fractions root_fraction root_from primes primes_from has_divisor
initial_states512 false = refl
initial_states512 true = refl

update_block-standard512 :
    (is_short : Bool) (value block : List ℕ)
    → sha512_update_block value block ≡ (standard512 is_short).compress value block
unfolding sha512_update_block standard512 compress_block load_vars add_vars
update_block-standard512 is_short value block = rw (sym constants512) (
    ap
      (λ (w : List ℕ).
        add_vars sha512_family value (rounds sha512_k 0 w (load_vars sha512_family value)))
      (extend-schedule 64 16 (load_words 8 16 block))
    ∙ ap (add_vars sha512_family value)
        (rounds-working sha512_k 0 _ (load_vars sha512_family value)))

-- On a state whose buffer has 128 bytes: however a message of less than 2 ^ 64 bytes is cut into
-- the data of calls of `sha512_update`, `sha512_finalize` returns the digest of the standard, that of
-- SHA-512 after `sha512_init` and of SHA-384 after `sha384_init`. The standard's padding, schedule,
-- rounds, initial values and number of words are definitions of their own; its constants are computed
-- from the roots of the primes.
pub sha512-digest :
    (s : Sha) (is_sha384 : Bool) (ds : List Bytes)
    → length s.partial_block_buffer ≡ 128
    → length (concat ds) < 2 ^ 64
    → (sha512_finalize (updates sha512_algorithm (sha512_sha384_init s is_sha384) ds)).1
      ≡ standard_digest (standard512 is_sha384) (concat ds)
unfolding sha512_sha384_init
sha512-digest s is_sha384 ds l h =
    stream-digest sha512_algorithm (sha512_sha384_init_state is_sha384) (2 ^ 64) sha512_laws
      sha512_n_words (sha512_sha384_init s is_sha384) ds refl refl l h
    ∙ digest-standard sha512_algorithm (standard512 is_sha384) (unfold standard512 in refl)
        (update_block-standard512 is_sha384) (λ x. unfold standard512 in refl) (padded512 is_sha384)
        (sha512_sha384_init_state is_sha384) (sha512_n_words is_sha384) (concat ds)
        (initial_states512 is_sha384 ∙ unfold standard512 in refl) (words512 is_sha384)
