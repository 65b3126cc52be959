-- ===== src/Sha/Finalize.antt =====
-- `finalize` returns the standard's digest of the message.
use native.Mathlib.Nat.{mod-eq_of_lt, mul-div_left}
use uclib.Base.{
  ℕ, ◌+◌, ◌*◌, ◌/◌, ◌<◌, ◌≡◌, sym, ◌∙◌, ap, Bool, List, ◌++◌, append_assoc, arith, ltb,
  if◌then◌else◌, Bool-cases, inl, inr, length, length-append, take, drop, take-append, drop-append,
  take-append_at, take-append-drop, length-take, length-drop,
}
use uclib.Sha.{Bytes, Sha, Algorithm, last_state, result_bytes, finalize}
use uclib.Sha.Blocks.{fold_blocks, fold_blocks-snoc}
use uclib.Sha.Update.{n_left_lem}
use uclib.Sha.Digest.{pad, digest, IsAlgorithm, Absorbed}
use uclib.Sha.Ending.{ending, length-ending, n_last, n_last-room, last_block_lem, pad-ending}

module _ (a : Algorithm) (init : List ℕ) (n_max : ℕ) (laws : IsAlgorithm a n_max) where
  open a use {n_block, n_room, n_length, update_block}

  -- The compression of the first one or two blocks of `e ++ d`, which are `e`.
  fold_last :
      (n_left q : ℕ) (body e d : Bytes)
      → 0 < n_block
      → length body ≡ q * n_block
      → length e ≡ n_last a n_left
      → let b = e ++ d in
        let first = update_block (fold_blocks a q init body) (take n_block b) in
        (if ltb n_left n_room then first else update_block first (take n_block (drop n_block b)))
        ≡ fold_blocks a (length (body ++ e) / n_block) init (body ++ e)
  fold_last n_left q body e d pos w l = elim (Bool-cases (ltb n_left n_room)) [
    | inl one ↦
        let le : length e ≡ n_block = ground (arith, one) in
        let count : length (body ++ e) ≡ (q + 1) * n_block =
          omega (arith, length-append body e, w, le) in
        rw (one, take-append_at n_block e d le, count, mul-div_left (q + 1) pos)
          (sym (fold_blocks-snoc a q init body e w le))
    | inr two ↦
        let le : length e ≡ 2 * n_block = ground (arith, two) in
        let front = take n_block e in
        let back = drop n_block e in
        let lf : length front ≡ n_block = length-take n_block e (omega arith) in
        let lb : length back ≡ n_block = omega (arith, length-drop n_block e) in
        let count : length (body ++ e) ≡ (q + 1 + 1) * n_block =
          omega (arith, length-append body e, w, le) in
        let split : body ++ e ≡ (body ++ front) ++ back =
          ap (λ (t : Bytes). body ++ t) (sym (take-append-drop n_block e))
          ∙ sym (append_assoc body front back) in
        rw
          (
            two,
            take-append n_block e d (omega arith),
            drop-append n_block e d (omega arith),
            take-append_at n_block back d lb,
            count,
            mul-div_left (q + 1 + 1) pos,
          )
          (sym (
            ap (fold_blocks a (q + 1 + 1) init) split
            ∙ (fold_blocks-snoc a (q + 1) init (body ++ front) back
                  (omega (arith, length-append body front, w, lf)) lb
                ∙ ap (λ (t : List ℕ). update_block t back)
                    (fold_blocks-snoc a q init body front w lf))))
  ]

  -- The state after the last one or two blocks.
  last_state_lem :
      (s : Sha) (msg : Bytes)
      → Absorbed a init s msg
      → length msg < n_max
      → last_state a s ≡ fold_blocks a (length (pad a msg) / n_block) init (pad a msg)
  unfolding last_state
  last_state_lem s msg h lt =
      let pos : 0 < n_block = omega (arith, laws.room) in
      let p = n_left_lem a init n_max laws s msg h in
      let counted : s.n_bytes_processed ≡ length msg =
        h.counted ∙ mod-eq_of_lt (omega (arith, laws.counted)) in
      let e = ending a (n_last a (length h.tail)) h.tail s.n_bytes_processed in
      let le : length e ≡ n_last a (length h.tail) =
        length-ending a (n_last a (length h.tail)) s.n_bytes_processed h.tail (laws.lengths _)
          (n_last-room a laws (length h.tail) h.short) in
      let padded : pad a msg ≡ h.body ++ e =
        ap (pad a) h.split
        ∙ (pad-ending a laws h.body h.tail h.q h.whole h.short (omega (arith, ap length h.split))
            ∙ ap (λ (t : ℕ). h.body ++ ending a (n_last a (length h.tail)) h.tail t)
                (ap length (sym h.split) ∙ sym counted)) in
      rw (last_block_lem a laws s h.tail p h.short h.buffered, p, padded, h.folded)
        (fold_last (length h.tail) h.q h.body e _ pos h.whole le)

  pub finalize-digest :
      (n_words : Bool → ℕ) (s : Sha) (msg : Bytes)
      → Absorbed a init s msg
      → length msg < n_max
      → (finalize a n_words s).1 ≡ digest a init (n_words s.is_short) msg
  unfolding finalize digest
  finalize-digest n_words s msg h lt =
      ap (λ (t : List ℕ). result_bytes a (take (n_words s.is_short) t)) (last_state_lem s msg h lt)
