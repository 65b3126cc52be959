-- ===== src/Sha/Update.antt =====
-- `update` takes in its data, wherever the data cuts the message into blocks.
use uclib.Base.{
  length_zero, ℕ, ◌+◌, ◌-◌, ◌*◌, ◌%◌, ◌^◌, ◌≤◌, ◌<◌, min, ◌≡◌, refl, sym, ◌∙◌, ap, Bool, true,
  false, List, [], ◌++◌, append_assoc, append-nil, arith, ltb, leb, ◌==◌, Bool-cases, inl, inr,
  length, length-append, take, drop, take-append_at, take-append-drop, length-take, length-drop,
  take-all, drop-all, memcpy, memcpy_start, length-memcpy, take-memcpy, memcpy_to_end,
}
use uclib.Sha.{Bytes, Sha, Algorithm, update_blocks, update}
use uclib.Sha.Blocks.{
  fold_blocks, fold_blocks-append, update_blocks-IsFolded, update_blocks-nil, fold_blocks-snoc,
  mod-blocks,
}
use uclib.Sha.Digest.{IsAlgorithm, Absorbed}

module _ (a : Algorithm) (init : List ℕ) where
  open a use {n_block, update_block}

  -- The loop over whole blocks and the copy of what is left, when `msg` ends with a block.
  loop-Absorbed :
      (f q : ℕ) (msg d buffer state : List ℕ) (n : ℕ) (short : Bool)
      → 0 < n_block
      → length d ≤ f
      → length msg ≡ q * n_block
      → state ≡ fold_blocks a q init msg
      → length buffer ≡ n_block
      → n ≡ length (msg ++ d) % 2 ^ 64
      → let r = update_blocks a f state d in
        Absorbed a init
          record {
            n_bytes_processed = n;
            partial_block_buffer = memcpy buffer 0 r.1;
            state = r.0;
            is_short = short;
          }
          (msg ++ d)
  loop-Absorbed f q msg d buffer state n short pos h w e lb counted =
      let r = update_blocks-IsFolded a f state d pos h in
      let rest = (update_blocks a f state d).1 in
      record {
        q = q + r.q;
        body = msg ++ r.body;
        tail = rest;
        split = ap (λ (t : Bytes). msg ++ t) r.split ∙ sym (append_assoc msg r.body rest);
        whole = omega (arith, length-append msg r.body, w, r.whole);
        short = r.short;
        folded =
            r.folded
            ∙ (ap (λ (t : List ℕ). fold_blocks a r.q t r.body) e
                ∙ sym (fold_blocks-append a q r.q init msg r.body w));
        sized = length-memcpy buffer 0 rest (omega (arith, r.short)) ∙ lb;
        buffered =
            rw (memcpy_start buffer rest)
              (take-append_at (length rest) rest (drop (length rest) buffer) refl);
        counted = counted;
      }

  -- The bytes in the buffer.
  pub n_left_lem :
      (n_max : ℕ)
      → IsAlgorithm a n_max
      → (s : Sha) (msg : Bytes) → (h : Absorbed a init s msg)
      → s.n_bytes_processed % n_block ≡ length h.tail
  n_left_lem n_max laws s msg h =
      let l : length msg ≡ length h.body + length h.tail =
        ap length h.split ∙ length-append h.body h.tail in
      ap (λ (t : ℕ). t % n_block) h.counted
      ∙ (laws.wraps (length msg)
          ∙ (ap (λ (t : ℕ). t % n_block) (omega (arith, l, h.whole))
              ∙ mod-blocks h.q (length h.tail) n_block h.short))

  -- The data does not fill the buffer.
  fit-Absorbed :
      (s : Sha) (msg d : Bytes) (n : ℕ)
      → (h : Absorbed a init s msg) → length h.tail + length d < n_block
      → n ≡ length (msg ++ d) % 2 ^ 64
      → Absorbed a init
          record {
            n_bytes_processed = n;
            partial_block_buffer = memcpy s.partial_block_buffer (length h.tail) d;
            state = s.state;
            is_short = s.is_short;
          }
          (msg ++ d)
  fit-Absorbed s msg d n h less counted = record {
    q = h.q;
    body = h.body;
    tail = h.tail ++ d;
    split = ap (λ (t : Bytes). t ++ d) h.split ∙ append_assoc h.body h.tail d;
    whole = h.whole;
    short = omega (arith, length-append h.tail d);
    folded = h.folded;
    sized =
        length-memcpy s.partial_block_buffer (length h.tail) d (omega (arith, h.sized)) ∙ h.sized;
    buffered = rw (length-append h.tail d) (
        take-memcpy s.partial_block_buffer (length h.tail) d (omega (arith, h.sized))
        ∙ ap (λ (t : Bytes). t ++ d) h.buffered);
    counted = counted;
  }

  -- The data fills the buffer with its first `c` bytes.
  fill-Absorbed :
      (s : Sha) (msg d : Bytes) (n c : ℕ)
      → (h : Absorbed a init s msg) → 0 < n_block
      → c ≡ n_block - length h.tail
      → c ≤ length d
      → n ≡ length (msg ++ d) % 2 ^ 64
      → let buffer = memcpy s.partial_block_buffer (length h.tail) (take c d) in
        let r = update_blocks a (length d) (update_block s.state buffer) (drop c d) in
        Absorbed a init
          record {
            n_bytes_processed = n;
            partial_block_buffer = memcpy buffer 0 r.1;
            state = r.0;
            is_short = s.is_short;
          }
          (msg ++ d)
  fill-Absorbed s msg d n c h pos e le counted =
      let buffer = memcpy s.partial_block_buffer (length h.tail) (take c d) in
      let m = msg ++ take c d in
      let l : length (take c d) ≡ c = length-take c d le in
      let lt : length h.tail + length (take c d) ≡ length s.partial_block_buffer =
        omega (arith, e, l, h.sized, h.short) in
      let b : buffer ≡ h.tail ++ take c d =
        memcpy_to_end s.partial_block_buffer (length h.tail) (take c d) lt
        ∙ ap (λ (t : Bytes). t ++ take c d) h.buffered in
      let split : m ≡ h.body ++ buffer =
        ap (λ (t : Bytes). t ++ take c d) h.split
        ∙ (append_assoc h.body h.tail (take c d) ∙ ap (λ (t : Bytes). h.body ++ t) (sym b)) in
      let lb : length buffer ≡ n_block =
        length-memcpy s.partial_block_buffer (length h.tail) (take c d) (omega (arith, lt))
        ∙ h.sized in
      let msg_d : m ++ drop c d ≡ msg ++ d =
        append_assoc msg (take c d) (drop c d)
        ∙ ap (λ (t : Bytes). msg ++ t) (take-append-drop c d) in
      let folded : update_block s.state buffer ≡ fold_blocks a (h.q + 1) init m =
        ap (λ (t : List ℕ). update_block t buffer) h.folded
        ∙ (sym (fold_blocks-snoc a h.q init h.body buffer h.whole lb)
            ∙ ap (fold_blocks a (h.q + 1) init) (sym split)) in
      let whole : length m ≡ (h.q + 1) * n_block =
        omega (arith, ap length split, length-append h.body buffer, lb, h.whole) in
      rw (← msg_d) (
        loop-Absorbed (length d) (h.q + 1) m (drop c d) buffer (update_block s.state buffer) n
          s.is_short pos (omega (arith, length-drop c d)) whole folded lb
          (counted ∙ ap (λ (t : Bytes). length t % 2 ^ 64) (sym msg_d)))

  -- The state that `update` leaves, and what it takes in.
  pub update-Absorbed :
      (n_max : ℕ)
      → IsAlgorithm a n_max
      → (s : Sha) (msg d : Bytes) → Absorbed a init s msg
      → Absorbed a init (update a s d) (msg ++ d)
  unfolding update
  update-Absorbed n_max laws s msg d h =
      let pos : 0 < n_block = omega (arith, laws.room) in
      let p = n_left_lem n_max laws s msg h in
      let counted : (s.n_bytes_processed + length d) % 2 ^ 64 ≡ length (msg ++ d) % 2 ^ 64 =
        omega (arith, h.counted, length-append msg d) in
      elim (Bool-cases (ltb 0 (length h.tail))) [
        | inl some ↦ elim (Bool-cases (leb n_block (length h.tail + length d))) [
          | inl more ↦
              let e : min (n_block - length h.tail) (length d) ≡ n_block - length h.tail =
                ground (arith, more) in
              let t : ((length h.tail + (n_block - length h.tail)) == n_block) ≡ true =
                ground (arith, h.short) in
              rw (p, some, e, t)
                (fill-Absorbed s msg d _ (n_block - length h.tail) h pos refl (ground arith)
                  counted)
          | inr less ↦
              let e : min (n_block - length h.tail) (length d) ≡ length d = ground (arith, less) in
              let t : ((length h.tail + length d) == n_block) ≡ false = ground (arith, less) in
              rw
                (
                  p,
                  some,
                  e,
                  t,
                  take-all (length d) d (omega arith),
                  drop-all (length d) d (omega arith),
                  update_blocks-nil a (length d) s.state pos,
                )
                (fit-Absorbed s msg d _ h (ground arith) counted)
        ]
        | inr none ↦
            let nil : h.tail ≡ [] = length_zero h.tail (ground arith) in
            let m : msg ≡ h.body =
              h.split ∙ (ap (λ (t : Bytes). h.body ++ t) nil ∙ append-nil h.body) in
            rw (p, none)
              (loop-Absorbed (length d) h.q msg d s.partial_block_buffer s.state _ s.is_short pos
                (omega arith) (ap length m ∙ h.whole)
                (h.folded ∙ ap (fold_blocks a h.q init) (sym m)) h.sized counted)
      ]
