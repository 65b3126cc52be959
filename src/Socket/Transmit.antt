-- ===== src/Socket/Transmit.antt =====
-- What `clib_socket_tx` of uclib/socket.c keeps after `writev` has taken a number of bytes.
use uclib.Base.{
  ℕ, zero, suc, ◌+◌, ◌-◌, ◌%◌, ◌^◌, ◌≤◌, ◌<◌, ◌≡◌, refl, sym, ◌∙◌, ap, ◌⊎◌, inl, inr, true, false,
  Bool-cases, List, [], ◌∷◌, ◌++◌, append-nil, append_assoc, arith, ltb, leb, ◌==◌, length,
  length_zero, length-append, length-drop, drop, drop-all, drop-append, drop-append_beyond,
}
use uclib.Word.{add, sub}
use uclib.Socket.{Buffer, Socket, moved, done, gather, iovecs, reclaim, reclaimed, clib_socket_tx}

-- Buffers with bytes, of which nothing has been sent.
abbrev pub AllFresh : List Buffer → Type 0
AllFresh [] = Unit
AllFresh (b ∷ bs) =
    ((b.offset ≡ 0) × (0 < length b.bytes) × (length b.bytes < 2 ^ 32)) × AllFresh bs

-- A fifo of buffers with bytes to send, whose first may have been sent in part.
abbrev pub IsReady : List Buffer → Type 0
IsReady [] = Unit
IsReady (b ∷ bs) = (b.offset < length b.bytes) × (length b.bytes < 2 ^ 32) × AllFresh bs

-- The bytes that wait to be sent.
unfoldable pub tx_bytes : Socket → List ℕ
tx_bytes s = iovecs s.tx_buffer_fifo ++ s.current_tx_buffer

drop-drop : (n m : ℕ) (xs : List ℕ) → drop n (drop m xs) ≡ drop (m + n) xs
drop-drop n zero xs = let e : 0 + n ≡ n = omega arith in rw e refl
drop-drop n (suc m) [] = drop-all n [] (omega arith) ∙ sym (drop-all (suc m + n) [] (omega arith))
drop-drop n (suc m) (x ∷ xs) =
    let e : suc m + n ≡ suc (m + n) = omega arith in rw e (drop-drop n m xs)

-- What is kept of a fifo.
abbrev Kept : List Buffer → ℕ → Type 0
Kept bs n =
    (kept : List Buffer) × (reclaim bs n ≡ done kept)
    × (iovecs kept ≡ drop n (iovecs bs))
    × IsReady kept

IsReady-fresh : (bs : List Buffer) → AllFresh bs → IsReady bs
IsReady-fresh [] fresh = tt
IsReady-fresh (b ∷ bs) fresh = (omega (arith, fresh.0.0, fresh.0.1), fresh.0.2, fresh.1)

-- Bytes that end within the first buffer.
reclaim_head :
    (b : Buffer) (bs : List Buffer) (n : ℕ)
    → length b.bytes < 2 ^ 32
    → AllFresh bs
    → b.offset + n < length b.bytes
    → Kept (b ∷ bs) n
unfolding reclaim iovecs
reclaim_head b bs n small fresh within = elim (Bool-cases (n == 0)) [
  | inl nothing ↦
      let e : n ≡ 0 = ground (arith, nothing) in
      (b ∷ bs, rw nothing refl, rw e refl, (omega arith, small, fresh))
  | inr some_bytes ↦
      let unsent_bytes : leb (length b.bytes) b.offset ≡ false = ground (arith, within) in
      let inside : ltb (add b.offset n) (length b.bytes) ≡ true = ground (arith, within, small) in
      let fits : (b.offset + n) % 2 ^ 32 ≡ b.offset + n = omega arith in
      (
        record b { offset = b.offset + n } ∷ bs,
        rw (some_bytes, unsent_bytes, inside, fits) refl,
        sym (
            drop-append n (drop b.offset b.bytes) (iovecs bs)
              (omega (arith, length-drop b.offset b.bytes))
            ∙ ap (λ (t : List ℕ). t ++ iovecs bs) (drop-drop n b.offset b.bytes)),
        (omega arith, small, fresh),
      )
]

-- Bytes that reach behind a buffer of which nothing has been sent.
reclaim_behind :
    (b : Buffer) (bs : List Buffer) (n : ℕ)
    → b.offset ≡ 0
    → 0 < length b.bytes
    → length b.bytes < 2 ^ 32
    → n < 2 ^ 63
    → length b.bytes ≤ n
    → (n == 0) ≡ false
    → Kept bs (n - length b.bytes)
    → Kept (b ∷ bs) n
unfolding reclaim iovecs
reclaim_behind b bs n unsent pos small word le some_bytes (kept, eq, bytes, ready) =
    let l : length (drop b.offset b.bytes) ≡ length b.bytes =
      omega (arith, length-drop b.offset b.bytes, unsent) in
    let left : sub n (length b.bytes) ≡ n - length b.bytes = omega (arith, le, small, word) in
    let unsent_bytes : leb (length b.bytes) b.offset ≡ false = ground (arith, unsent, pos) in
    let outside : ltb (add b.offset n) (length b.bytes) ≡ false =
      ground (arith, le, unsent, word) in
    (
      kept,
      rw (some_bytes, unsent_bytes, outside, left) eq,
      bytes
          ∙ sym (
              drop-append_beyond n (drop b.offset b.bytes) (iovecs bs) (omega (arith, l, le))
              ∙ ap (λ (m : ℕ). drop (n - m) (iovecs bs)) l),
      ready,
    )

reclaim_fresh :
    (bs : List Buffer) (n : ℕ) → AllFresh bs → n ≤ length (iovecs bs) → n < 2 ^ 63 → Kept bs n
unfolding reclaim iovecs
reclaim_fresh [] n fresh h word = let e : n ≡ 0 = omega arith in ([], rw e refl, rw e refl, tt)
reclaim_fresh (b ∷ bs) n fresh h word = elim (Bool-cases (ltb n (length b.bytes))) [
  | inl within ↦ reclaim_head b bs n fresh.0.2 fresh.1 (ground (arith, within, fresh.0.0))
  | inr beyond ↦ elim (Bool-cases (n == 0)) [
    | inl nothing ↦
        let e : n ≡ 0 = ground (arith, nothing) in
        (b ∷ bs, rw nothing refl, rw e refl, IsReady-fresh (b ∷ bs) fresh)
    | inr some_bytes ↦
        let le : length b.bytes ≤ n = ground (arith, beyond) in
        reclaim_behind b bs n fresh.0.0 fresh.0.1 fresh.0.2 word le some_bytes (
          reclaim_fresh bs (n - length b.bytes) fresh.1
            (omega (
              arith,
              h,
              length-append (drop b.offset b.bytes) (iovecs bs),
              fresh.0.0,
              length-drop b.offset b.bytes,
              le,
            ))
            (omega (arith, word)))
  ]
]

AllFresh-append :
    (bs : List Buffer) (b : Buffer)
    → AllFresh bs
    → b.offset ≡ 0
    → 0 < length b.bytes
    → length b.bytes < 2 ^ 32
    → AllFresh (bs ++ b ∷ [])
AllFresh-append [] b fresh unsent pos small = ((unsent, pos, small), tt)
AllFresh-append (c ∷ bs) b fresh unsent pos small =
    (fresh.0, AllFresh-append bs b fresh.1 unsent pos small)

pub IsReady-append :
    (bs : List Buffer) (b : Buffer)
    → IsReady bs
    → b.offset ≡ 0
    → 0 < length b.bytes
    → length b.bytes < 2 ^ 32
    → IsReady (bs ++ b ∷ [])
IsReady-append [] b ready unsent pos small = (omega (arith, unsent, pos), small, tt)
IsReady-append (c ∷ bs) b ready unsent pos small =
    (ready.0, ready.1, AllFresh-append bs b ready.2 unsent pos small)

pub iovecs-append : (bs cs : List Buffer) → iovecs (bs ++ cs) ≡ iovecs bs ++ iovecs cs
unfolding iovecs
iovecs-append [] cs = refl
iovecs-append (b ∷ bs) cs =
    ap (λ (t : List ℕ). drop b.offset b.bytes ++ t) (iovecs-append bs cs)
    ∙ sym (append_assoc (drop b.offset b.bytes) (iovecs bs) (iovecs cs))

-- The condition on what `writev` took: nothing of the first buffer was sent before, or the bytes
-- end within it.
abbrev pub Ends : List Buffer → ℕ → Type 0
Ends [] n = Unit
Ends (b ∷ bs) n = (b.offset ≡ 0) ⊎ (b.offset + n < length b.bytes)

reclaim_lem :
    (bs : List Buffer) (n : ℕ)
    → IsReady bs
    → Ends bs n
    → n ≤ length (iovecs bs)
    → n < 2 ^ 63
    → Kept bs n
reclaim_lem [] n ready ends h word = reclaim_fresh [] n tt h word
reclaim_lem (b ∷ bs) n ready (inl unsent) h word =
    reclaim_fresh (b ∷ bs) n ((unsent, omega (arith, ready.0), ready.1), ready.2) h word
reclaim_lem (b ∷ bs) n ready (inr within) h word = reclaim_head b bs n ready.1 ready.2 within

-- The fifo may hold a current buffer, which then is empty.
gathered :
    (s : Socket)
    → IsReady s.tx_buffer_fifo
    → length s.current_tx_buffer < 2 ^ 32
    → IsReady (gather s).tx_buffer_fifo
      × (iovecs (gather s).tx_buffer_fifo ≡ tx_bytes s)
      × ((gather s).current_tx_buffer ≡ [])
unfolding gather tx_bytes
gathered s ready small = elim (Bool-cases (ltb 0 (length s.current_tx_buffer))) [
  | inl some_bytes ↦
      let b : Buffer = record { bytes = s.current_tx_buffer; offset = 0 } in
      rw some_bytes (
        IsReady-append s.tx_buffer_fifo b ready refl (ground (arith, some_bytes)) small,
        iovecs-append s.tx_buffer_fifo (b ∷ [])
            ∙ ap (λ (t : List ℕ). iovecs s.tx_buffer_fifo ++ t)
                (unfold iovecs in append-nil s.current_tx_buffer),
        refl,
      )
  | inr nothing ↦
      let e : s.current_tx_buffer ≡ [] =
        length_zero s.current_tx_buffer (ground (arith, nothing)) in
      rw nothing (
        ready,
        sym (
            ap (λ (t : List ℕ). iovecs s.tx_buffer_fifo ++ t) e
            ∙ append-nil (iovecs s.tx_buffer_fifo)),
        e,
      )
]

-- The buffers of the fifo have bytes to send, only the first may have been sent in part, and the buffers
-- are shorter than 2 ^ 32 bytes. `writev` took the first bytes of what waits, as many as are reported and
-- fewer than 2 ^ 63, and they end within the first buffer or nothing of that was sent before. Then no
-- assertion fails, no empty fifo is read and there is no error, exactly the other bytes wait to be
-- sent, the fifo is again of that form and the current buffer empty.
pub clib_socket_tx_lem :
    (s : Socket) (n : ℕ)
    → IsReady s.tx_buffer_fifo
    → length s.current_tx_buffer < 2 ^ 32
    → Ends (gather s).tx_buffer_fifo n
    → n ≤ length (tx_bytes s)
    → n < 2 ^ 63
    → (t : Socket) × (clib_socket_tx s (moved n) ≡ done (t, false))
      × (tx_bytes t ≡ drop n (tx_bytes s))
      × IsReady t.tx_buffer_fifo
      × (t.current_tx_buffer ≡ [])
unfolding clib_socket_tx reclaimed
clib_socket_tx_lem s n ready small ends h word =
    let g = gathered s ready small in
    let kept =
      reclaim_lem (gather s).tx_buffer_fifo n g.0 ends (omega (arith, ap length g.1, h)) word in
    (
      record (gather s) { tx_buffer_fifo = kept.0 },
      rw kept.1 refl,
      unfold tx_bytes in
          ap (λ (t : List ℕ). iovecs kept.0 ++ t) g.2
          ∙ (append-nil (iovecs kept.0) ∙ (kept.2 ∙ ap (drop n) g.1)),
      kept.3,
      g.2,
    )
