-- ===== src/Sha/Digest.antt =====
-- What the hashes of uclib/crypto.c compute, by the layout of their blocks: the padded message,
-- compressed block by block.
use uclib.Base.{
  ℕ, ◌+◌, ◌-◌, ◌*◌, ◌/◌, ◌%◌, ◌^◌, ◌≤◌, ◌<◌, ◌≡◌, List, ◌∷◌, ◌++◌, length, replicate, take,
}
use uclib.Sha.{Bytes, Sha, Algorithm, result_bytes}
use uclib.ByteOrder.{big_bytes}
use uclib.Sha.Blocks.{fold_blocks}

module _ (a : Algorithm) where
  open a use {n_block, n_room, n_length, length_bytes}

  -- The least number of zeros after which the length of the message ends a block.
  unfoldable pub n_zeros : ℕ → ℕ
  n_zeros len = (n_room + n_block - (len + 1) % n_block) % n_block

  unfoldable pub pad : Bytes → Bytes
  pad msg =
      msg
      ++ (0x80
          ∷ (replicate (n_zeros (length msg)) 0 ++ big_bytes (n_block - n_room) (8 * length msg)))

  -- The result of `n_words` words.
  unfoldable pub digest : List ℕ → ℕ → Bytes → Bytes
  digest init n_words msg =
      let m = pad msg in result_bytes a (take n_words (fold_blocks a (length m / n_block) init m))

  -- Lengths are counted in 64 bits, the layout of the last block has room for the length, and the
  -- bytes that the code writes are the length in bits for a message shorter than `n_max`.
  pub record IsAlgorithm (n_max : ℕ) : Type 0 where
    pub room : n_room < n_block
    pub fits : n_room + n_length ≤ n_block
    pub wraps : (x : ℕ) → x % 2 ^ 64 % n_block ≡ x % n_block
    pub counted : n_max ≤ 2 ^ 64
    pub lengths : (x : ℕ) → length (length_bytes x) ≡ n_length
    pub field :
        (x : ℕ)
        → x < n_max
        → big_bytes (n_block - n_room) (8 * x)
          ≡ replicate (n_block - n_room - n_length) 0 ++ length_bytes x

module _ (a : Algorithm) (init : List ℕ) where
  open a use {n_block, update_block}

  -- `s` has taken in `msg`: its whole blocks are in the state, and the rest is in the buffer.
  pub record Absorbed (s : Sha) (msg : Bytes) : Type 0 where
    pub q : ℕ
    pub body : Bytes
    pub tail : Bytes
    pub split : msg ≡ body ++ tail
    pub whole : length body ≡ q * n_block
    pub short : length tail < n_block
    pub folded : s.state ≡ fold_blocks a q init body
    pub sized : length s.partial_block_buffer ≡ n_block
    pub buffered : take (length tail) s.partial_block_buffer ≡ tail
    pub counted : s.n_bytes_processed ≡ length msg % 2 ^ 64
