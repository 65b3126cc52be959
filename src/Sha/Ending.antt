-- ===== src/Sha/Ending.antt =====
-- The last blocks of a message: what `finalize` writes behind the bytes in the buffer is what the
-- standard's padding puts there.
use native.Mathlib.Nat.{mod-eq_of_lt}
use uclib.Base.{
  ℕ, zero, suc, ◌+◌, ◌-◌, ◌*◌, ◌%◌, ◌≤◌, ◌<◌, ◌≡◌, refl, sym, ◌∙◌, ap, ap₂, false, [], ◌∷◌, ◌++◌,
  append_assoc, arith, ltb, if◌then◌else◌, Bool-cases, inl, inr, length, length-append,
  length-replicate, replicate, set, take, drop, take-append_at, drop-replicate, memcpy,
  memcpy_start,
}
use uclib.Sha.{Bytes, Sha, Algorithm, last_block}
use uclib.Sha.Blocks.{mod-blocks}
use uclib.Sha.Digest.{n_zeros, pad, IsAlgorithm}

-- A write behind the first list of a concatenation.
set-append : (xs ys : Bytes) (v : ℕ) → set (xs ++ ys) (length xs) v ≡ xs ++ set ys 0 v
set-append [] ys v = refl
set-append (x ∷ xs) ys v = ap (λ (t : Bytes). x ∷ t) (set-append xs ys v)

take-replicate : (n m x : ℕ) → n ≤ m → take n (replicate m x) ≡ replicate n x
take-replicate zero m x h = refl
take-replicate (suc n) zero x h = absurd (omega arith)
take-replicate (suc n) (suc m) x h = ap (λ (t : Bytes). x ∷ t) (take-replicate n m x (omega arith))

append-replicate : (n m x : ℕ) → replicate n x ++ replicate m x ≡ replicate (n + m) x
append-replicate zero m x = let e : 0 + m ≡ m = omega arith in rw e refl
append-replicate (suc n) m x =
    let e : suc n + m ≡ suc (n + m) = omega arith in
    rw e (ap (λ (t : Bytes). x ∷ t) (append-replicate n m x))

set-replicate : (m v : ℕ) → 0 < m → set (replicate m 0) 0 v ≡ v ∷ replicate (m - 1) 0
set-replicate zero v h = absurd (omega arith)
set-replicate (suc m) v h = let e : suc m - 1 ≡ m = omega arith in rw e refl

-- `n_zeros` of whole blocks and `r` bytes.
zeros_between :
    (q r b room : ℕ)
    → r < b
    → room < b
    → (room + b - (q * b + r + 1) % b) % b ≡ (if ltb r room then b else 2 * b) - (b - room) - r - 1
zeros_between q r b room h k = elim (Bool-cases (ltb (r + 1) b)) [
  | inl inside ↦
      let e : (q * b + r + 1) % b ≡ r + 1 =
        ap (λ (t : ℕ). t % b) (omega arith) ∙ mod-blocks q (r + 1) b (ground arith) in
      elim (Bool-cases (ltb r room)) [
        | inl one ↦
            let less : r < room = ground arith in
            let sum : room + b - (r + 1) ≡ 1 * b + (room - r - 1) = omega arith in
            rw (e, one, sum) (mod-blocks 1 (room - r - 1) b (omega arith) ∙ omega arith)
        | inr two ↦
            let le : room ≤ r = ground arith in
            rw (e, two) (mod-eq_of_lt (omega arith) ∙ omega arith)
      ]
  | inr end ↦
      let e : (q * b + r + 1) % b ≡ 0 =
        ap (λ (t : ℕ). t % b) (ground arith) ∙ mod-blocks (q + 1) 0 b (omega arith) in
      let two : ltb r room ≡ false = ground arith in
      let last : r + 1 ≡ b = ground arith in
      let sum : room + b - 0 ≡ 1 * b + room = omega arith in
      rw (e, two, sum) (mod-blocks 1 room b k ∙ omega arith)
]

module _ (a : Algorithm) where
  open a use {n_block, n_room, n_length, length_bytes, update_block}

  -- The bytes behind the whole blocks of a message of `x` bytes, `tail` the rest of it, up to `n`.
  abbrev pub ending : ℕ → Bytes → ℕ → Bytes
  ending n tail x =
      tail ++ (0x80 ∷ (replicate (n - n_length - length tail - 1) 0 ++ length_bytes x))

  zeros_with :
      (tail : Bytes) (m : ℕ)
      → length tail < m
      → set (memcpy (replicate m 0) 0 tail) (length tail) 0x80
        ≡ tail ++ (0x80 ∷ replicate (m - length tail - 1) 0)
  zeros_with tail m h =
      rw
        (
          memcpy_start (replicate m 0) tail,
          drop-replicate {A = ℕ} (length tail) m 0,
          set-append tail (replicate (m - length tail) 0) 0x80,
        )
        (ap (λ (t : Bytes). tail ++ t) (set-replicate (m - length tail) 0x80 (omega arith)))

  written :
      (n m x : ℕ) (tail : Bytes)
      → length (length_bytes x) ≡ n_length
      → length tail + 1 + n_length ≤ n
      → n ≤ m
      → let ended = tail ++ (0x80 ∷ replicate (m - length tail - 1) 0) in
        memcpy ended (n - n_length) (length_bytes x) ≡ ending n tail x ++ drop n ended
  written n m x tail l h le =
      let k = n - n_length in
      let ended = tail ++ (0x80 ∷ replicate (m - length tail - 1) 0) in
      let zeros : Bytes = replicate (k - length tail - 1) 0 in
      let front = tail ++ (0x80 ∷ zeros) in
      let e : k - length tail - 1 + (m - k) ≡ m - length tail - 1 = omega arith in
      let all : zeros ++ replicate (m - k) 0 ≡ replicate (m - length tail - 1) 0 =
        append-replicate (k - length tail - 1) (m - k) 0 ∙ ap (λ (i : ℕ). replicate i 0) e in
      let split : ended ≡ front ++ replicate (m - k) 0 =
        ap (λ (t : Bytes). tail ++ (0x80 ∷ t)) (sym all)
        ∙ sym (append_assoc tail (0x80 ∷ zeros) (replicate (m - k) 0)) in
      let lf : length front ≡ k = omega (
        arith,
        length-append tail (0x80 ∷ zeros),
        length-replicate {A = ℕ} (k - length tail - 1) 0,
      ) in
      let taken : take k ended ≡ front =
        ap (take k) split ∙ take-append_at k front (replicate (m - k) 0) lf in
      let to : k + length (length_bytes x) ≡ n = omega (arith, l) in
      ap (λ (t : Bytes). t ++ (length_bytes x ++ drop (k + length (length_bytes x)) ended)) taken
      ∙ (sym (append_assoc front (length_bytes x) _)
          ∙ ap₂ (λ (t r : Bytes). t ++ r) (append_assoc tail (0x80 ∷ zeros) (length_bytes x))
              (ap (λ (i : ℕ). drop i ended) to))

  pub length-ending :
      (n x : ℕ) (tail : Bytes)
      → length (length_bytes x) ≡ n_length
      → length tail + 1 + n_length ≤ n
      → length (ending n tail x) ≡ n
  length-ending n x tail l h =
      let zeros : Bytes = replicate (n - n_length - length tail - 1) 0 in
      omega (
        arith,
        length-append tail (0x80 ∷ (zeros ++ length_bytes x)),
        length-append zeros (length_bytes x),
        length-replicate {A = ℕ} (n - n_length - length tail - 1) 0,
      )

  -- The length of the last blocks, for a rest of `n_left` bytes.
  abbrev pub n_last : ℕ → ℕ
  n_last n_left = if ltb n_left n_room then n_block else 2 * n_block

  pub n_last-room :
      {n_max : ℕ}
      → IsAlgorithm a n_max
      → (n_left : ℕ) → n_left < n_block
      → n_left + 1 + n_length ≤ n_last n_left
  n_last-room laws n_left h = ground (arith, laws.room, laws.fits)

  n_last_le : (n_left : ℕ) → n_last n_left ≤ 2 * n_block
  n_last_le n_left = ground arith

  pub last_block_lem :
      {n_max : ℕ}
      → IsAlgorithm a n_max
      → (s : Sha) (tail : Bytes) → s.n_bytes_processed % n_block ≡ length tail
      → length tail < n_block
      → take (length tail) s.partial_block_buffer ≡ tail
      → let n = n_last (length tail) in
        last_block a s
        ≡ ending n tail s.n_bytes_processed
          ++ drop n (tail ++ (0x80 ∷ replicate (2 * n_block - length tail - 1) 0))
  unfolding last_block
  last_block_lem laws s tail p h b =
      rw (p, b, zeros_with tail (2 * n_block) (omega arith))
        (written (n_last (length tail)) (2 * n_block) s.n_bytes_processed tail (laws.lengths _)
          (n_last-room laws (length tail) h) (n_last_le (length tail)))

  -- The padded message, cut behind the whole blocks of the message.
  pub pad-ending :
      {n_max : ℕ}
      → IsAlgorithm a n_max
      → (body tail : Bytes) (q : ℕ) → length body ≡ q * n_block
      → length tail < n_block
      → length (body ++ tail) < n_max
      → pad a (body ++ tail) ≡ body ++ ending (n_last (length tail)) tail (length (body ++ tail))
  unfolding pad n_zeros
  pad-ending laws body tail q w h lt =
      let x = length (body ++ tail) in
      let n = n_last (length tail) in
      let z = n - (n_block - n_room) - length tail - 1 in
      let l : x ≡ q * n_block + length tail = omega (arith, length-append body tail, w) in
      let zeros : n_zeros a x ≡ z =
        ap (λ (t : ℕ). (n_room + n_block - (t + 1) % n_block) % n_block) l
        ∙ zeros_between q (length tail) n_block n_room h laws.room in
      let sum : z + (n_block - n_room - n_length) ≡ n - n_length - length tail - 1 =
        ground (arith, laws.room, laws.fits) in
      let joined : replicate z 0 ++ (replicate (n_block - n_room - n_length) 0 ++ length_bytes x)
          ≡ replicate (n - n_length - length tail - 1) 0 ++ length_bytes x =
        sym (
          append_assoc (replicate z 0) (replicate (n_block - n_room - n_length) 0) (length_bytes x))
        ∙ ap (λ (t : Bytes). t ++ length_bytes x)
            (append-replicate z (n_block - n_room - n_length) 0
              ∙ ap (λ (i : ℕ). replicate i 0) sum) in
      rw (zeros, laws.field x lt, joined) (append_assoc body tail _)
