-- ===== src/Sha.antt =====
-- The hashes: uclib/crypto.c. SHA-1, SHA-224/256 and SHA-384/512 buffer and pad their message in
-- the same way; `sha*_update` and `sha*_finalize` are one function of the size of a block, the
-- compression of a block and the layout of the last block. Bytes are numbers below 256.
pub mod Blocks
pub mod Digest
pub mod Update
pub mod Ending
pub mod Finalize
pub mod Stream
pub mod Sha2
pub mod Standard
pub mod Agree
pub mod Sha1
pub mod Sha256
pub mod Sha512
mod Tests
use uclib.Base.{
  ℕ, zero, suc, ◌+◌, ◌-◌, ◌*◌, ◌%◌, ◌^◌, ◌≤◌, ◌<◌, ◌≡◌, min, Bool, true, false, ◌&&◌, List, [], ◌∷◌,
  ◌++◌, ltb, leb, ◌==◌, if◌then◌else◌, length, set, take, drop, replicate, memcpy, map,
}

abbrev pub Bytes : Type 0
Bytes = List ℕ

-- sha1_state_t, sha256_state_t and sha512_state_t; `is_short` is is_sha224 or is_sha384.
pub record Sha : Type 0 where
  pub n_bytes_processed : ℕ
  pub partial_block_buffer : Bytes
  pub state : List ℕ
  pub is_short : Bool

-- What tells the hashes apart: bytes per block, sha*_update_block, the first length of a partial
-- block that needs one more block, the bytes written for the length of the message, and those of a
-- word of the state.
pub record Algorithm : Type 0 where
  pub n_block : ℕ
  pub update_block : List ℕ → Bytes → List ℕ
  pub n_room : ℕ
  pub length_bytes : ℕ → Bytes
  pub n_length : ℕ
  pub word_bytes : ℕ → Bytes

module _ (a : Algorithm) where
  open a use {n_block, update_block, n_room, length_bytes, n_length, word_bytes}

  -- The loop over whole blocks: the state, and what is left.
  unfoldable pub update_blocks : ℕ → List ℕ → Bytes → List ℕ × Bytes
  update_blocks zero state d = (state, d)
  update_blocks (suc fuel) state d =
      let rest = update_blocks fuel (update_block state (take n_block d)) (drop n_block d) in
      if leb n_block (length d) then rest else (state, d)

  unfoldable pub update : Sha → Bytes → Sha
  update s d =
      let n_partial = s.n_bytes_processed % n_block in
      let n_copy = if ltb 0 n_partial then min (n_block - n_partial) (length d) else 0 in
      let buffer =
        if ltb 0 n_partial
        then memcpy s.partial_block_buffer n_partial (take n_copy d)
        else s.partial_block_buffer in
      let state =
        if ltb 0 n_partial && (n_partial + n_copy) == n_block
        then update_block s.state buffer
        else s.state in
      let r = update_blocks (length d) state (drop n_copy d) in
      record {
        n_bytes_processed = (s.n_bytes_processed + length d) % 2 ^ 64;
        partial_block_buffer = memcpy buffer 0 r.1;
        state = r.0;
        is_short = s.is_short;
      }

  -- The last one or two blocks.
  unfoldable pub last_block : Sha → Bytes
  last_block s =
      let n_left = s.n_bytes_processed % n_block in
      let n_last_block = if ltb n_left n_room then n_block else 2 * n_block in
      let zeros = replicate (2 * n_block) 0 in
      let copied = memcpy zeros 0 (take n_left s.partial_block_buffer) in
      let ended = set copied n_left 0x80 in
      memcpy ended (n_last_block - n_length) (length_bytes s.n_bytes_processed)

  unfoldable pub last_state : Sha → List ℕ
  unfolding last_block
  last_state s =
      let b = last_block s in
      let first = update_block s.state (take n_block b) in
      if ltb (s.n_bytes_processed % n_block) n_room
      then first
      else update_block first (take n_block (drop n_block b))

  -- The words of the state that are the result.
  unfoldable pub result_bytes : List ℕ → Bytes
  result_bytes [] = []
  result_bytes (x ∷ xs) = word_bytes x ++ result_bytes xs

  -- The state that the caller is left with, and the result: `n_words` words of the state.
  unfoldable pub finalize : (Bool → ℕ) → Sha → Sha × Bytes
  unfolding last_state result_bytes
  finalize n_words s =
      let n_left = s.n_bytes_processed % n_block in
      let state = last_state s in
      (
        record {
          n_bytes_processed = s.n_bytes_processed;
          partial_block_buffer = memcpy s.partial_block_buffer 0 (replicate n_left 0);
          state = state;
          is_short = s.is_short;
        },
        result_bytes (take (n_words s.is_short) state),
      )
