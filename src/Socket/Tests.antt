-- ===== src/Socket/Tests.antt =====
-- Sockets of uclib/socket.c at small inputs, with the theorems at them.
use uclib.Base.{◌≡◌, refl, inl, true, false, [], ◌∷◌, arith, drop}
use uclib.Socket.{
  reclaim, reclaimed, Socket, moved, done, assertion_failed, empty_fifo_read, fatal,
  clib_socket_tx_add, clib_socket_tx_add_to_buffer_fifo, gather, iovecs, clib_socket_tx, read_into,
  clib_socket_rx, clib_socket_tx_data_is_available_to_write,
}
use uclib.Socket.Transmit.{IsReady, tx_bytes, clib_socket_tx_lem}
use uclib.Socket.Faults.{clib_socket_tx_fault}

abbrev empty : Socket
empty = record {
  current_tx_buffer = [];
  tx_buffer_fifo = [];
  rx_buffer = [];
  rx_end_of_file = false;
}

-- Two buffers.
abbrev two : Socket
two = record empty {
  current_tx_buffer = 4 ∷ 5 ∷ [];
  tx_buffer_fifo = record { bytes = 1 ∷ 2 ∷ 3 ∷ []; offset = 0 } ∷ [];
}

-- The first has been sent but for its last byte.
abbrev partly : Socket
partly = record empty {
  current_tx_buffer = 4 ∷ 5 ∷ [];
  tx_buffer_fifo = record { bytes = 1 ∷ 2 ∷ 3 ∷ []; offset = 2 } ∷ [];
}

adds :
    clib_socket_tx_add (clib_socket_tx_add_to_buffer_fifo empty (1 ∷ 2 ∷ 3 ∷ [])) (4 ∷ 5 ∷ []) ≡ two
unfolding clib_socket_tx_add clib_socket_tx_add_to_buffer_fifo
adds = refl

available : clib_socket_tx_data_is_available_to_write two ≡ true
unfolding clib_socket_tx_data_is_available_to_write
available = refl

receives : clib_socket_rx two (7 ∷ []) (moved []) ≡ (record two { rx_end_of_file = true }, false)
unfolding clib_socket_rx read_into
receives = refl

keeps_reserved : clib_socket_rx two (7 ∷ []) fatal ≡ (record two { rx_buffer = 7 ∷ [] }, true)
unfolding clib_socket_rx read_into
keeps_reserved = refl

clib_socket_tx_lem_example :
    (t : Socket) × (clib_socket_tx two (moved 4) ≡ done (t, false))
    × (tx_bytes t ≡ drop 4 (tx_bytes two))
    × IsReady t.tx_buffer_fifo
    × (t.current_tx_buffer ≡ [])
unfolding gather tx_bytes iovecs
clib_socket_tx_lem_example =
    clib_socket_tx_lem two 4 (omega arith) (omega arith) (inl refl) (omega arith) (omega arith)

clib_socket_tx_fault_example : clib_socket_tx partly (moved 1) ≡ empty_fifo_read
unfolding gather iovecs
clib_socket_tx_fault_example =
    clib_socket_tx_fault partly (record { bytes = 1 ∷ 2 ∷ 3 ∷ []; offset = 2 })
      (record { bytes = 4 ∷ 5 ∷ []; offset = 0 } ∷ []) 1 refl (omega arith) (omega arith)
      (omega arith) (omega arith) (omega arith) (omega arith) (omega arith)

-- An empty buffer at the head fails the assertion.
empty_buffer :
    clib_socket_tx (clib_socket_tx_add_to_buffer_fifo two []) (moved 5) ≡ assertion_failed
unfolding clib_socket_tx reclaimed reclaim gather clib_socket_tx_add_to_buffer_fifo
empty_buffer = refl
