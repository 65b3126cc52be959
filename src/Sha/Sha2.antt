-- ===== src/Sha/Sha2.antt =====
-- What the compressions of SHA-256 and SHA-512 share: the macros of the same text in
-- `sha256_update_block` and `sha512_update_block`, on words of 32 and 64 bits.
use uclib.Base.{ℕ, ◌+◌, ◌-◌, ◌*◌, ◌/◌, ◌%◌, ◌^◌, bit_and, bit_or, bit_xor, List, [], ◌∷◌, get_or}

-- The bits of a word, and the macros S0, S1, S2 and S3.
pub record Family : Type 0 where
  pub n_bits : ℕ
  pub s0 : ℕ → ℕ
  pub s1 : ℕ → ℕ
  pub s2 : ℕ → ℕ
  pub s3 : ℕ → ℕ

-- The macros SHR and ROTR.
abbrev pub shift_right : ℕ → ℕ → ℕ
shift_right x n = x / 2 ^ n

abbrev pub rotate_right : ℕ → ℕ → ℕ → ℕ
rotate_right n_bits x n = bit_or (shift_right x n) (x * 2 ^ (n_bits - n) % 2 ^ n_bits)

abbrev pub xor3 : ℕ → ℕ → ℕ → ℕ
xor3 x y z = bit_xor (bit_xor x y) z

-- The macros F0 and F1.
unfoldable pub majority : ℕ → ℕ → ℕ → ℕ
majority x y z = bit_or (bit_and x y) (bit_and z (bit_or x y))

unfoldable pub choose : ℕ → ℕ → ℕ → ℕ
choose x y z = bit_xor z (bit_and x (bit_xor y z))

-- The variables in the order in which the next P takes them.
pub record Vars : Type 0 where
  pub a : ℕ
  pub b : ℕ
  pub c : ℕ
  pub d : ℕ
  pub e : ℕ
  pub f : ℕ
  pub g : ℕ
  pub h : ℕ

module _ (family : Family) where
  open family use {n_bits, s0, s1, s2, s3}

  -- The macro P with the names of its next use.
  unfoldable pub round : Vars → ℕ → ℕ → Vars
  unfolding majority choose
  round v x k =
      let temp1 = (v.h + s3 v.e + choose v.e v.f v.g + k + x) % 2 ^ n_bits in
      let temp2 = (s2 v.a + majority v.a v.b v.c) % 2 ^ n_bits in
      record {
        a = (temp1 + temp2) % 2 ^ n_bits;
        b = v.a;
        c = v.b;
        d = v.c;
        e = (v.d + temp1) % 2 ^ n_bits;
        f = v.e;
        g = v.f;
        h = v.g;
      }

  -- The macro R, for the word behind those of the schedule.
  unfoldable pub next_word : List ℕ → ℕ → ℕ
  next_word w t =
      let at = λ (i : ℕ). get_or w i 0 in
      (s1 (at (t - 2)) + at (t - 7) + s0 (at (t - 15)) + at (t - 16)) % 2 ^ n_bits

  -- The state of eight words, and the variables after the rounds.
  unfoldable pub load_vars : List ℕ → Vars
  load_vars state =
      let at = λ (i : ℕ). get_or state i 0 in
      record { a = at 0; b = at 1; c = at 2; d = at 3; e = at 4; f = at 5; g = at 6; h = at 7 }

  unfoldable pub add_vars : List ℕ → Vars → List ℕ
  add_vars state v =
      let at = λ (i : ℕ) (x : ℕ). (get_or state i 0 + x) % 2 ^ n_bits in
      at 0 v.a ∷ at 1 v.b ∷ at 2 v.c ∷ at 3 v.d ∷ at 4 v.e ∷ at 5 v.f ∷ at 6 v.g ∷ at 7 v.h ∷ []
