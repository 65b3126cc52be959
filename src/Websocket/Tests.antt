-- ===== src/Websocket/Tests.antt =====
-- Frames of uclib/websocket.c at small inputs, with the theorems at them.
use uclib.Base.{
  ℕ, ◌≡◌, refl, sym, ◌∙◌, subst, inl, Bool, true, false, List, [], ◌∷◌, ◌++◌, arith, length, ltb,
  if◌then◌else◌, none, some,
}
use uclib.Websocket.{
  Main, Frame, unknown_opcode, payload_overflow, frame_error, open_with, closed, payload_byte_size,
  payload_number, unmask, parse_payload, parse_frame, after_payload, after_frame, parse_frames,
  parse_rx_frame, receive, framing_start, framing_data, tx_frame,
}
use uclib.Socket.{
  Socket, moved, Outcome, done, gather, iovecs, reclaim, reclaimed, clib_socket_tx,
  clib_socket_tx_add, clib_socket_tx_add_to_buffer_fifo,
}
use uclib.Socket.Transmit.{tx_bytes}
use uclib.Websocket.Sending.{
  Message, framed, websocket_socket_tx_frame_helper, websocket_socket_tx_binary_frame,
  websocket_socket_tx_text_frame, with_message, after_send, took, send_all, AllEnd, sent,
  send_all-receive,
}
use uclib.Websocket.Frames.{peer_frame}
use uclib.Websocket.Streams.{
  follow, Sent, stream, deliver, refusal, parse_rx_frame-stream, parse_rx_frame-refused,
}

-- An application that collects payloads and refuses those of more than three bytes.
abbrev main : Main (List (List ℕ)) ℕ
main = record {
  max_n_bytes_in_payload = 1000;
  rx_frame_payload = λ s payload.
      if ltb 3 (length payload) then (s, some (length payload)) else (s ++ payload ∷ [], none);
}

-- The text `hi` without and with a mask.
abbrev frames : List Sent
frames =
    record { is_binary = false; mask = 0 ∷ 0 ∷ 0 ∷ 0 ∷ []; payload = 104 ∷ 105 ∷ [] }
    ∷ record { is_binary = true; mask = 1 ∷ 2 ∷ 3 ∷ 4 ∷ []; payload = 104 ∷ 105 ∷ [] }
    ∷ []

sends-hi : tx_frame false (104 ∷ 105 ∷ []) ≡ 0x81 ∷ 0x82 ∷ 0 ∷ 0 ∷ 0 ∷ 0 ∷ 104 ∷ 105 ∷ []
unfolding tx_frame framing_data framing_start
sends-hi = refl

receives-hi :
    parse_rx_frame main [] (stream frames ++ 0x81 ∷ [])
    ≡ open_with ((104 ∷ 105 ∷ []) ∷ (104 ∷ 105 ∷ []) ∷ []) (0x81 ∷ [])
unfolding parse_rx_frame parse_frames after_frame after_payload parse_frame parse_payload
    payload_byte_size payload_number unmask stream peer_frame framing_start
receives-hi = refl

overflows : parse_frame 1000 (0x82 ∷ 126 ∷ 4 ∷ 0 ∷ []) ≡ Frame.bad (payload_overflow 1024)
unfolding parse_frame parse_payload payload_byte_size payload_number
overflows = refl

parse_rx_frame-stream_example :
    parse_rx_frame main [] (stream frames ++ 0x81 ∷ [])
    ≡ deliver main (λ t. open_with t (0x81 ∷ [])) [] frames
unfolding follow parse_frame
parse_rx_frame-stream_example = parse_rx_frame-stream main frames [] (0x81 ∷ []) (omega arith)

parse_rx_frame-refused_example :
    parse_rx_frame main [] (stream frames ++ 0x89 ∷ 0 ∷ [])
    ≡ deliver main (λ t. closed t (frame_error (unknown_opcode 0x89))) [] frames
unfolding refusal
parse_rx_frame-refused_example =
    parse_rx_frame-refused main frames [] 0x89 0 [] (unknown_opcode 0x89) (omega arith)
      (omega arith) refl

abbrev idle : Socket
idle = record {
  current_tx_buffer = [];
  tx_buffer_fifo = [];
  rx_buffer = [];
  rx_end_of_file = false;
}

-- `writev` takes the framing of the first message, and then all that waits.
abbrev first : Message
first = record { is_binary = false; payload = 104 ∷ 105 ∷ []; written = 6 }

abbrev second : Message
second = record { is_binary = true; payload = 1 ∷ []; written = 9 }

abbrev between : Socket
between = record idle { tx_buffer_fifo = record { bytes = 104 ∷ 105 ∷ []; offset = 0 } ∷ [] }

abbrev wire : List ℕ
wire = 0x81 ∷ 0x82 ∷ 0 ∷ 0 ∷ 0 ∷ 0 ∷ 104 ∷ 105 ∷ 0x82 ∷ 0x81 ∷ 0 ∷ 0 ∷ 0 ∷ 0 ∷ 1 ∷ []

sends_first :
    websocket_socket_tx_frame_helper
      (clib_socket_tx_add idle first.payload)
      first.is_binary
      (moved first.written)
    ≡ done (between, false)
unfolding websocket_socket_tx_frame_helper framed clib_socket_tx_add
    clib_socket_tx_add_to_buffer_fifo framing_data framing_start clib_socket_tx gather reclaim
    reclaimed
sends_first = refl

sends_text :
    websocket_socket_tx_text_frame (clib_socket_tx_add idle first.payload) (moved first.written)
    ≡ done (between, false)
unfolding websocket_socket_tx_text_frame
sends_text = sends_first

sends_binary :
    websocket_socket_tx_binary_frame (clib_socket_tx_add idle second.payload) (moved 7)
    ≡ done (idle, false)
unfolding websocket_socket_tx_binary_frame websocket_socket_tx_frame_helper framed
    clib_socket_tx_add clib_socket_tx_add_to_buffer_fifo framing_data framing_start clib_socket_tx
    gather reclaim reclaimed
sends_binary = refl

sends_all : send_all idle (first ∷ second ∷ []) ≡ some (idle, wire)
unfolding send_all after_send took with_message tx_bytes iovecs websocket_socket_tx_frame_helper
    framed clib_socket_tx_add clib_socket_tx_add_to_buffer_fifo framing_data framing_start
    clib_socket_tx gather reclaim reclaimed
sends_all = refl

same_socket :
    (s t : Socket) → ◌≡◌ {A = Outcome (Socket × Bool)} (done (s, false)) (done (t, false)) → s ≡ t
same_socket s t e = cc

second_ends : AllEnd between (second ∷ [])
unfolding with_message tx_bytes iovecs framed clib_socket_tx_add clib_socket_tx_add_to_buffer_fifo
    framing_data framing_start gather
second_ends = (omega arith, omega arith, omega arith, inl refl, λ t e. tt)

both_end : AllEnd idle (first ∷ second ∷ [])
unfolding with_message tx_bytes iovecs framed clib_socket_tx_add clib_socket_tx_add_to_buffer_fifo
    framing_data framing_start gather
both_end = (
  omega arith,
  omega arith,
  omega arith,
  inl refl,
  λ t e.
      subst (λ (s : Socket). AllEnd s (second ∷ [])) (same_socket between t (sym sends_first ∙ e))
        second_ends,
)

send_all-receive_example :
    receive main (open_with [] []) wire
    ≡ deliver main (λ v. open_with v []) [] (sent (first ∷ second ∷ []))
unfolding sent tx_bytes iovecs
send_all-receive_example =
    send_all-receive main [] (first ∷ second ∷ []) idle idle wire (tt, refl) refl both_end
      (omega arith) sends_all refl
