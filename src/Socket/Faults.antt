-- ===== src/Socket/Faults.antt =====
-- Where `clib_socket_tx` of uclib/socket.c counts the bytes that are left too low, and runs out of
-- buffers.
use uclib.Base.{
  ℕ, ◌+◌, ◌^◌, ◌≤◌, ◌<◌, ◌≡◌, refl, false, List, [], ◌∷◌, arith, ltb, leb, ◌==◌, length,
  length-append, length-drop, drop,
}
use uclib.Word.{add, sub}
use uclib.Socket.{
  Buffer, Socket, moved, empty_fifo_read, gather, iovecs, reclaim, reclaimed, clib_socket_tx,
}
use uclib.Socket.Transmit.{AllFresh}

reclaim_underflow :
    (bs : List Buffer) (n : ℕ)
    → AllFresh bs
    → 2 ^ 63 + length (iovecs bs) ≤ n
    → n < 2 ^ 64
    → reclaim bs n ≡ empty_fifo_read
unfolding reclaim iovecs
reclaim_underflow [] n fresh large word =
    let some_bytes : (n == 0) ≡ false = ground (arith, large) in rw some_bytes refl
reclaim_underflow (b ∷ bs) n fresh large word =
    let l : length (drop b.offset b.bytes) ≡ length b.bytes =
      omega (arith, length-drop b.offset b.bytes, fresh.0.0) in
    let sum = length-append (drop b.offset b.bytes) (iovecs bs) in
    let some_bytes : (n == 0) ≡ false = ground (arith, large) in
    let outside : ltb (add b.offset n) (length b.bytes) ≡ false =
      ground (arith, large, fresh.0.0, fresh.0.2, word) in
    let rest : reclaim bs (sub n (length b.bytes)) ≡ empty_fifo_read =
      reclaim_underflow bs (sub n (length b.bytes)) fresh.1 (omega (arith, large, word, sum, l))
        (omega (arith, large, word, sum, l)) in
    let unsent_bytes : leb (length b.bytes) b.offset ≡ false =
      ground (arith, fresh.0.0, fresh.0.1) in
    rw (some_bytes, unsent_bytes, outside) rest

-- A first buffer that was sent in part, and bytes that `writev` took that end it but are fewer
-- than it has in all: the loop takes every buffer away and reads the head of the empty fifo.
pub clib_socket_tx_fault :
    (s : Socket) (b : Buffer) (bs : List Buffer) (n : ℕ)
    → (gather s).tx_buffer_fifo ≡ b ∷ bs
    → AllFresh bs
    → length b.bytes < 2 ^ 32
    → length (iovecs bs) < 2 ^ 62
    → 1 ≤ n
    → n < length b.bytes
    → length b.bytes ≤ b.offset + n
    → b.offset < length b.bytes
    → clib_socket_tx s (moved n) ≡ empty_fifo_read
unfolding clib_socket_tx reclaim
clib_socket_tx_fault s b bs n fifo fresh small few pos less ends within =
    let some_bytes : (n == 0) ≡ false = ground (arith, pos) in
    let outside : ltb (add b.offset n) (length b.bytes) ≡ false =
      ground (arith, ends, small, less, within) in
    let rest : reclaim bs (sub n (length b.bytes)) ≡ empty_fifo_read =
      reclaim_underflow bs (sub n (length b.bytes)) fresh (omega (arith, less, small, few))
        (omega (arith, less, small)) in
    let unsent_bytes : leb (length b.bytes) b.offset ≡ false = ground (arith, within) in
    rw fifo (rw (some_bytes, unsent_bytes, outside, rest) (unfold reclaimed in refl))
