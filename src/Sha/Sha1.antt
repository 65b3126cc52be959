-- ===== src/Sha/Sha1.antt =====
-- SHA-1: `sha1_update_block`, `sha1_init`, `sha1_update`, `sha1_finalize` and `sha1`.
use uclib.Base.{
  ℕ, zero, suc, ◌+◌, ◌-◌, ◌*◌, ◌/◌, ◌%◌, ◌^◌, ◌<◌, bit_and, bit_or, bit_xor, ◌≡◌, refl, ap, ap₂,
  ◌∙◌, ◌≤◌, ◌++◌, Bool-cases, inl, inr, false, replicate, List, [], ◌∷◌, arith, length, get_or, set,
  ltb, if◌then◌else◌,
}
use uclib.Sha.{Bytes, Sha, Algorithm, update, finalize}
use uclib.ByteOrder.{big_bytes, load_words, length-big_bytes}
use uclib.Sha.Digest.{pad, n_zeros, IsAlgorithm}
use uclib.Sha.Standard.{
  root_from, standard_pad, standard_digest, rotl, function1, constant1, ring_rounds, compress1,
  standard1,
}
use uclib.Sha.Agree.{digest-standard}
use uclib.Sha.Stream.{concat, updates, stream-digest}

-- The macro S of a 32-bit word.
unfoldable pub rotate_left : ℕ → ℕ → ℕ
rotate_left x n = bit_or (x * 2 ^ n % 2 ^ 32) (bit_and x 0xFFFFFFFF / 2 ^ (32 - n))

-- The macro R: the next word of the message's schedule, in place of the oldest of the sixteen.
schedule : List ℕ → ℕ → List ℕ
unfolding rotate_left
schedule w t =
    let at = λ (i : ℕ). get_or w (i % 16) 0 in
    let temp = bit_xor (bit_xor (bit_xor (at (t - 3)) (at (t - 8))) (at (t - 14))) (at t) in
    set w (t % 16) (rotate_left temp 1)

-- The variables in the order in which the next P takes them.
pub record Vars : Type 0 where
  pub a : ℕ
  pub b : ℕ
  pub c : ℕ
  pub d : ℕ
  pub e : ℕ

-- The macro P with the names of its next use.
round : (ℕ → ℕ → ℕ → ℕ) → ℕ → Vars → ℕ → Vars
unfolding rotate_left
round f k v x = record {
  a = (v.e + (rotate_left v.a 5 + f v.b v.c v.d + k + x)) % 2 ^ 32;
  b = v.a;
  c = rotate_left v.b 30;
  d = v.c;
  e = v.d;
}

-- The macros F and K of round `t`.
choose : ℕ → ℕ → ℕ → ℕ
choose x y z = bit_xor z (bit_and x (bit_xor y z))

parity : ℕ → ℕ → ℕ → ℕ
parity x y z = bit_xor (bit_xor x y) z

majority : ℕ → ℕ → ℕ → ℕ
majority x y z = bit_or (bit_and x y) (bit_and z (bit_or x y))

round_at : ℕ → Vars → ℕ → Vars
unfolding round choose parity majority
round_at t v x =
    if ltb t 20
    then round choose 0x5A827999 v x
    else if ltb t 40
    then round parity 0x6ED9EBA1 v x
    else if ltb t 60
    then round majority 0x8F1BBCDC v x
    else round parity 0xCA62C1D6 v x

-- Rounds t, t + 1, ..., `n` of them, on the last sixteen words of the schedule.
rounds : ℕ → ℕ → List ℕ → Vars → Vars
unfolding schedule round_at
rounds zero t w v = v
rounds (suc n) t w v =
    let w' = if ltb t 16 then w else schedule w t in
    rounds n (t + 1) w' (round_at t v (get_or w' (t % 16) 0))

unfoldable pub sha1_update_block : List ℕ → Bytes → List ℕ
unfolding rounds load_words
sha1_update_block state block =
    let at = λ (i : ℕ). get_or state i 0 in
    let v =
      rounds 80 0 (load_words 4 16 block)
        record { a = at 0; b = at 1; c = at 2; d = at 3; e = at 4 } in
    (at 0 + v.a) % 2 ^ 32
    ∷ (at 1 + v.b) % 2 ^ 32
    ∷ (at 2 + v.c) % 2 ^ 32
    ∷ (at 3 + v.d) % 2 ^ 32
    ∷ (at 4 + v.e) % 2 ^ 32
    ∷ []

unfoldable pub sha1_length_bytes : ℕ → Bytes
unfolding big_bytes
sha1_length_bytes n = big_bytes 8 (n * 2 ^ 3 % 2 ^ 64)

abbrev pub sha1_algorithm : Algorithm
sha1_algorithm = record {
  n_block = 64;
  update_block = sha1_update_block;
  n_room = 56;
  length_bytes = sha1_length_bytes;
  n_length = 8;
  word_bytes = big_bytes 4;
}

abbrev pub sha1_init_state : List ℕ
sha1_init_state = 0x67452301 ∷ 0xEFCDAB89 ∷ 0x98BADCFE ∷ 0x10325476 ∷ 0xC3D2E1F0 ∷ []

unfoldable pub sha1_init : Sha → Sha
sha1_init s = record {
  n_bytes_processed = 0;
  partial_block_buffer = s.partial_block_buffer;
  state = sha1_init_state;
  is_short = s.is_short;
}

abbrev pub sha1_update : Sha → Bytes → Sha
sha1_update s d = update sha1_algorithm s d

abbrev pub sha1_finalize : Sha → Sha × Bytes
sha1_finalize s = finalize sha1_algorithm (λ _. 5) s

-- `s` is the state on the stack, not initialised.
unfoldable pub sha1 : Sha → Bytes → Bytes
unfolding sha1_init
sha1 s d = (sha1_finalize (sha1_update (sha1_init s) d)).1

sha1_laws : IsAlgorithm sha1_algorithm (2 ^ 61)
unfolding sha1_length_bytes
sha1_laws = record {
  room = omega arith;
  fits = omega arith;
  wraps = λ x. omega arith;
  counted = omega arith;
  lengths = λ x. length-big_bytes 8 (x * 2 ^ 3 % 2 ^ 64);
  field = λ x h. ap (big_bytes 8) (omega arith);
}

padded1 : (msg : List ℕ) → pad sha1_algorithm msg ≡ standard_pad standard1 msg
unfolding pad n_zeros standard_pad standard1
padded1 msg =
    ap (λ (n : ℕ). msg ++ (0x80 ∷ (replicate n 0 ++ big_bytes 8 (8 * length msg)))) (omega arith)

-- The variables as the standard has them.
abbrev working : Vars → ℕ × ℕ × ℕ × ℕ × ℕ
working v = (v.a, v.b, v.c, v.d, v.e)

ring_places :
    (t : ℕ)
    → (ltb t 16 ≡ false)
    → ((t - 3) % 16 ≡ (t + 13) % 16)
      × ((t - 8) % 16 ≡ (t + 8) % 16)
      × ((t - 14) % 16 ≡ (t + 2) % 16)
ring_places t late =
    let h : 16 ≤ t = ground (arith, late) in (omega (arith, h), omega (arith, h), omega (arith, h))

schedule-ring :
    (w : List ℕ) (t : ℕ)
    → (if ltb t 16 then w else schedule w t) ≡ (
        let at = λ (i : ℕ). get_or w (i % 16) 0 in
        if ltb t 16
        then w
        else set w
            (t % 16)
            (rotl 1 (bit_xor (bit_xor (bit_xor (at (t + 13)) (at (t + 8))) (at (t + 2))) (at t))))
unfolding schedule rotate_left
schedule-ring w t = elim (Bool-cases (ltb t 16)) [
  | inl early ↦ rw early refl
  | inr late ↦ let p = ring_places t late in rw (late, p.0, p.1, p.2) refl
]

constants1 :
    (root_from 2 (2 * 2 ^ 60) 32 0 ≡ 0x5A827999)
    × (root_from 2 (3 * 2 ^ 60) 32 0 ≡ 0x6ED9EBA1)
    × (root_from 2 (5 * 2 ^ 60) 32 0 ≡ 0x8F1BBCDC)
    × (root_from 2 (10 * 2 ^ 60) 32 0 ≡ 0xCA62C1D6)
unfolding root_from
constants1 = (refl, refl, refl, refl)

same_sum : (e r f k x : ℕ) → (e + (r + f + k + x)) % 2 ^ 32 ≡ (r + f + e + k + x) % 2 ^ 32
same_sum e r f k x = ap (λ (n : ℕ). n % 2 ^ 32) (omega arith)

round_at-standard :
    (t : ℕ) (v : Vars) (x : ℕ)
    → working (round_at t v x) ≡ (
      (rotl 5 v.a + function1 t v.b v.c v.d + v.e + constant1 t + x) % 2 ^ 32,
      v.a,
      rotl 30 v.b,
      v.c,
      v.d,
    )
unfolding round_at round choose parity majority rotate_left function1 constant1
round_at-standard t v x =
    let with_first : ℕ → ℕ × ℕ × ℕ × ℕ × ℕ = λ y. (y, v.a, rotl 30 v.b, v.c, v.d) in
    elim (Bool-cases (ltb t 20)) [
      | inl one ↦ rw (one, constants1.0) (ap with_first (same_sum v.e _ _ _ x))
      | inr more ↦ elim (Bool-cases (ltb t 40)) [
        | inl two ↦ rw (more, two, constants1.1) (ap with_first (same_sum v.e _ _ _ x))
        | inr more2 ↦ elim (Bool-cases (ltb t 60)) [
          | inl three ↦ rw (more, more2, three, constants1.2) (ap with_first (same_sum v.e _ _ _ x))
          | inr last ↦ rw (more, more2, last, constants1.3) (ap with_first (same_sum v.e _ _ _ x))
        ]
      ]
    ]

rounds-ring :
    (n t : ℕ) (w : List ℕ) (v : Vars) → working (rounds n t w v) ≡ ring_rounds n t w (working v)
unfolding rounds ring_rounds
rounds-ring zero t w v = refl
rounds-ring (suc n) t w v =
    rounds-ring n (t + 1) _ _
    ∙ ap₂ (ring_rounds n (t + 1)) (schedule-ring w t) (
        round_at-standard t v _
        ∙ ap
            (λ (w' : List ℕ). (
              (rotl 5 v.a + function1 t v.b v.c v.d + v.e + constant1 t + get_or w' (t % 16) 0)
                  % 2 ^ 32,
              v.a,
              rotl 30 v.b,
              v.c,
              v.d,
            ))
            (schedule-ring w t))

update_block-standard1 :
    (value block : List ℕ) → sha1_update_block value block ≡ standard1.compress value block
unfolding sha1_update_block standard1 compress1
update_block-standard1 value block =
    let at = λ (i : ℕ). get_or value i 0 in
    ap
      (λ (v : ℕ × ℕ × ℕ × ℕ × ℕ).
        (at 0 + v.0) % 2 ^ 32
        ∷ (at 1 + v.1) % 2 ^ 32
        ∷ (at 2 + v.2) % 2 ^ 32
        ∷ (at 3 + v.3) % 2 ^ 32
        ∷ (at 4 + v.4) % 2 ^ 32
        ∷ [])
      (rounds-ring 80 0 (load_words 4 16 block)
        record { a = at 0; b = at 1; c = at 2; d = at 3; e = at 4 })

-- On a state whose buffer has 64 bytes: however a message of less than 2 ^ 61 bytes is cut into the
-- data of calls of `sha1_update` on a state that `sha1_init` has set up, `sha1_finalize` returns
-- the SHA-1 digest of the standard, whose padding, rounds, initial value and number of words are
-- definitions of their own, and whose constants are computed from roots.
pub sha1-digest :
    (s : Sha) (ds : List Bytes)
    → length s.partial_block_buffer ≡ 64
    → length (concat ds) < 2 ^ 61
    → (sha1_finalize (updates sha1_algorithm (sha1_init s) ds)).1
      ≡ standard_digest standard1 (concat ds)
unfolding sha1_init
sha1-digest s ds l h =
    stream-digest sha1_algorithm sha1_init_state (2 ^ 61) sha1_laws (λ _. 5) (sha1_init s) ds refl
      refl l h
    ∙ digest-standard sha1_algorithm standard1 (unfold standard1 in refl) update_block-standard1
        (λ x. unfold standard1 in refl) padded1 sha1_init_state 5 (concat ds)
        (unfold standard1 in refl) (unfold standard1 in refl)
