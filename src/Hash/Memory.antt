-- ===== src/Hash/Memory.antt =====
-- The sums of keys in memory, and the functions on keys that uclib/hash.c has built in. A memory is
-- its bytes by their addresses, on a little-endian machine; `strlen`, `strcmp` and `memcmp` are
-- parameters.
pub mod Bytes
pub mod Functions
use uclib.Base.{
  ℕ, zero, suc, ◌+◌, ◌-◌, ◌*◌, ◌/◌, ◌%◌, ◌≤◌, ◌<◌, bit_and, ◌≡◌, ◌↔◌, Bool, true, not, ◌&&◌, leb,
  ◌==◌, if◌then◌else◌,
}
use uclib.Word.{add, sub, shl}
use uclib.Hash.{Mix, mix64, golden, hash_uword, Keys}

-- The little-endian number of `w` bytes.
unfoldable pub load : ℕ → (ℕ → ℕ) → ℕ → ℕ
load zero p q = 0
load (suc w) p q = p q + 256 * load w p (q + 1)

-- masks_little_endian
unfoldable pub masks_little_endian : ℕ → ℕ
masks_little_endian n = if n == 0 then 0 else sub (shl 1 (8 * n)) 1

unfoldable pub zap64 : ℕ → ℕ → ℕ
zap64 x n = bit_and x (masks_little_endian n)

-- The loop over blocks of three words: what is left, at which offset, and the variables.
pub record Blocks : Type 0 where
  pub q : ℕ
  pub n : ℕ
  pub mix : Mix

unfoldable pub block : (ℕ → ℕ) → Blocks → Blocks
block p s = record {
  q = s.q + 24;
  n = s.n - 24;
  mix = mix64 (record {
    a = add s.mix.a (load 8 p s.q);
    b = add s.mix.b (load 8 p (s.q + 8));
    c = add s.mix.c (load 8 p (s.q + 16));
  });
}

unfoldable pub blocks : ℕ → (ℕ → ℕ) → Blocks → Blocks
blocks zero p s = s
blocks (suc fuel) p s = let rest = blocks fuel p (block p s) in if leb 24 s.n then rest else s

-- The switch on the words that are left.
unfoldable pub last_words : (ℕ → ℕ) → Blocks → Mix
last_words p s =
    let word = λ (i : ℕ). load 8 p (s.q + 8 * i) in
    let part = λ (i : ℕ). zap64 (load 8 p (s.q + 8 * i)) (s.n % 8) in
    let m = s.mix in
    if s.n / 8 == 2
    then record {
      a = add m.a (word 0);
      b = add m.b (word 1);
      c = if s.n % 8 == 0 then m.c else add m.c (shl (part 2) 8);
    }
    else if s.n / 8 == 1
    then record {
      a = add m.a (word 0);
      b = if s.n % 8 == 0 then m.b else add m.b (part 1);
      c = m.c;
    }
    else record { a = if s.n % 8 == 0 then m.a else add m.a (part 0); b = m.b; c = m.c }

-- `c += n_bytes`
unfoldable pub add_length : ℕ → Blocks → Blocks
add_length n_bytes s = record s {
  mix = record { a = s.mix.a; b = s.mix.b; c = add s.mix.c n_bytes };
}

-- hash_memory64. A block takes 24 bytes, so that there are at most as many as bytes.
unfoldable pub hash_memory : (ℕ → ℕ) → ℕ → ℕ → ℕ
hash_memory p n_bytes state =
    let init : Blocks = record {
      q = 0;
      n = n_bytes;
      mix = record { a = golden; b = golden; c = state };
    } in
    (mix64 (last_words p (add_length n_bytes (blocks n_bytes p init)))).c

-- What the C library promises of the comparisons that return 0.
pub record CLibrary (memory : ℕ → ℕ) : Type 0 where
  pub strlen : ℕ → ℕ
  pub strcmp_zero : ℕ → ℕ → Bool
  pub memcmp_zero : ℕ → ℕ → ℕ → Bool
  pub strcmp_lem :
      (a b : ℕ)
      → (strcmp_zero a b ≡ true)
        ↔ ((strlen a ≡ strlen b) × ((i : ℕ) → i < strlen a → memory (a + i) ≡ memory (b + i)))
  pub memcmp_lem :
      (a b n : ℕ) → (memcmp_zero a b n ≡ true) ↔ ((i : ℕ) → i < n → memory (a + i) ≡ memory (b + i))

module _ (memory : ℕ → ℕ) where
  -- KEY_FUNC_POINTER_UWORD and KEY_FUNC_POINTER_U32
  unfoldable pub key_func_pointer_uword : Keys
  key_func_pointer_uword = record {
    key_sum = λ key. hash_uword (load 8 memory key);
    key_equal1 = λ key1 key2. load 8 memory key1 == load 8 memory key2;
  }

  unfoldable pub key_func_pointer_u32 : Keys
  key_func_pointer_u32 = record {
    key_sum = λ key. hash_uword (load 4 memory key);
    key_equal1 = λ key1 key2. load 4 memory key1 == load 4 memory key2;
  }

  -- KEY_FUNC_STRING: string_key_sum and string_key_equal
  unfoldable pub key_func_string : CLibrary memory → Keys
  key_func_string c = record {
    key_sum = λ key. hash_memory (λ i. memory (key + i)) (c.strlen key) 0;
    key_equal1 = λ key1 key2. not (key1 == 0) && (not (key2 == 0) && c.strcmp_zero key1 key2);
  }

  -- mem_key_sum and mem_key_equal, for keys of `user` bytes.
  unfoldable pub mem_key : CLibrary memory → ℕ → Keys
  mem_key c user = record {
    key_sum = λ key. hash_memory (λ i. memory (key + i)) user 0;
    key_equal1 = λ key1 key2. not (key1 == 0) && (not (key2 == 0) && c.memcmp_zero key1 key2 user);
  }
