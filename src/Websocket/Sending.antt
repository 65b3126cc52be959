-- ===== src/Websocket/Sending.antt =====
-- Messages from one end of a connection to the other: `websocket_socket_tx_frame_helper` of
-- uclib/websocket.c on the buffers of uclib/socket.c, and `parse_rx_frame` at the peer.
use uclib.Base.{
  ℕ, inl, inr, Bool-cases, true, false, ltb, ◌^◌, ◌≤◌, ◌<◌, ◌≡◌, refl, sym, ◌∙◌, ap, ap₂, Bool,
  List, [], ◌∷◌, ◌++◌, append-nil, append_assoc, arith, length, length-append, take,
  take-append-drop, replicate, Option, none, some,
}
use uclib.ByteOrder.{big_bytes, length-big_bytes}
use uclib.Socket.{
  Buffer, Socket, Result, moved, Outcome, done, assertion_failed, empty_fifo_read, gather, iovecs,
  clib_socket_tx, clib_socket_tx_add, clib_socket_tx_add_to_buffer_fifo,
}
use uclib.Socket.Transmit.{
  IsReady, Ends, tx_bytes, IsReady-append, iovecs-append, clib_socket_tx_lem,
}
use uclib.Websocket.{
  Main, open_with, parse_frame, parse_rx_frame, receive, framing_start, framing_data, tx_frame,
}
use uclib.Websocket.Frames.{tx_frame-peer}
use uclib.Websocket.Streams.{Sent, stream, AllFit, follow, deliver, parse_rx_frame-stream}

-- The framing data goes to the fifo before the current buffer does, which has the payload.
unfoldable pub framed : Socket → Bool → Socket
framed s is_binary =
    clib_socket_tx_add_to_buffer_fifo s (framing_data is_binary (length s.current_tx_buffer))

unfoldable pub websocket_socket_tx_frame_helper : Socket → Bool → Result ℕ → Outcome (Socket × Bool)
websocket_socket_tx_frame_helper s is_binary written = clib_socket_tx (framed s is_binary) written

unfoldable pub websocket_socket_tx_binary_frame : Socket → Result ℕ → Outcome (Socket × Bool)
websocket_socket_tx_binary_frame s written = websocket_socket_tx_frame_helper s true written

unfoldable pub websocket_socket_tx_text_frame : Socket → Result ℕ → Outcome (Socket × Bool)
websocket_socket_tx_text_frame s written = websocket_socket_tx_frame_helper s false written

-- A message, and how many bytes `writev` takes in the call that sends it.
pub record Message : Type 0 where
  pub is_binary : Bool
  pub payload : List ℕ
  pub written : ℕ

-- The socket with a message, before it is sent.
unfoldable pub with_message : Socket → Message → Socket
with_message s x = framed (clib_socket_tx_add s x.payload) x.is_binary

unfoldable pub took : List ℕ → Option (Socket × List ℕ) → Option (Socket × List ℕ)
took taken none = none
took taken (some (t, later)) = some (t, taken ++ later)

unfoldable pub after_send :
    (Socket → Option (Socket × List ℕ))
    → List ℕ
    → Outcome (Socket × Bool)
    → Option (Socket × List ℕ)
after_send next taken (done (t, failed)) = took taken (next t)
after_send next taken assertion_failed = none
after_send next taken empty_fifo_read = none

-- Messages in turn: the socket that is left, and the bytes that `writev` took; `none` after a fault.
unfoldable pub send_all : Socket → List Message → Option (Socket × List ℕ)
send_all s [] = some (s, [])
send_all s (x ∷ xs) =
    after_send (λ t. send_all t xs) (take x.written (tx_bytes (with_message s x)))
      (websocket_socket_tx_frame_helper (clib_socket_tx_add s x.payload) x.is_binary
        (moved x.written))

-- The frames of messages, one behind the other.
unfoldable pub frames : List Message → List ℕ
frames [] = []
frames (x ∷ xs) = tx_frame x.is_binary x.payload ++ frames xs

-- Each call takes bytes that wait to be sent, and ends no buffer that was sent in part before.
abbrev pub AllEnd : Socket → List Message → Type 0
AllEnd s [] = Unit
AllEnd s (x ∷ xs) =
    (length x.payload < 2 ^ 31)
    × (x.written ≤ length (tx_bytes (with_message s x)))
    × (x.written < 2 ^ 63)
    × Ends (gather (with_message s x)).tx_buffer_fifo x.written
    × ((t : Socket)
        → websocket_socket_tx_frame_helper (clib_socket_tx_add s x.payload) x.is_binary
            (moved x.written)
          ≡ done (t, false)
        → AllEnd t xs)

-- A socket between messages.
abbrev pub IsIdle : Socket → Type 0
IsIdle s = IsReady s.tx_buffer_fifo × (s.current_tx_buffer ≡ [])

length-framing_data :
    (is_binary : Bool) (l : ℕ)
    → (0 < length (framing_data is_binary l)) × (length (framing_data is_binary l) < 2 ^ 32)
unfolding framing_data framing_start
length-framing_data is_binary l = elim (Bool-cases (ltb l 126)) [
  | inl short ↦ rw short (omega arith)
  | inr more ↦ rw more (elim (Bool-cases (ltb l (2 ^ 16))) [
    | inl short ↦
        rw short
          (omega (arith, length-append (big_bytes 2 l) (replicate 4 0), length-big_bytes 2 l))
    | inr long ↦
        rw long (omega (arith, length-append (big_bytes 8 l) (replicate 4 0), length-big_bytes 8 l))
  ])
]

message_bytes :
    (s : Socket) (x : Message)
    → IsIdle s
    → tx_bytes (with_message s x) ≡ tx_bytes s ++ tx_frame x.is_binary x.payload
unfolding tx_bytes with_message framed clib_socket_tx_add clib_socket_tx_add_to_buffer_fifo tx_frame
message_bytes s x idle =
    let start = framing_data x.is_binary (length x.payload) in
    let last : List Buffer = record { bytes = start; offset = 0 } ∷ [] in
    let one : iovecs last ≡ start = unfold iovecs in append-nil start in
    rw idle.1 (
      ap (λ (t : List ℕ). t ++ x.payload)
        (iovecs-append s.tx_buffer_fifo last
          ∙ ap (λ (t : List ℕ). iovecs s.tx_buffer_fifo ++ t) one)
      ∙ (append_assoc (iovecs s.tx_buffer_fifo) start x.payload
          ∙ ap (λ (t : List ℕ). t ++ (start ++ x.payload))
              (sym (append-nil (iovecs s.tx_buffer_fifo)))))

-- What one message leaves.
send-IsIdle :
    (s : Socket) (x : Message)
    → IsIdle s
    → length x.payload < 2 ^ 31
    → x.written ≤ length (tx_bytes (with_message s x))
    → x.written < 2 ^ 63
    → Ends (gather (with_message s x)).tx_buffer_fifo x.written
    → (t : Socket) × (websocket_socket_tx_frame_helper
          (clib_socket_tx_add s x.payload)
          x.is_binary
          (moved x.written)
        ≡ done (t, false))
      × (take x.written (tx_bytes (with_message s x)) ++ tx_bytes t
          ≡ tx_bytes s ++ tx_frame x.is_binary x.payload)
      × IsIdle t
unfolding websocket_socket_tx_frame_helper
send-IsIdle s x idle small some_bytes word ends =
    let w = with_message s x in
    let payload : length w.current_tx_buffer < 2 ^ 32 =
      unfold with_message framed clib_socket_tx_add clib_socket_tx_add_to_buffer_fifo in
      rw idle.1 (omega (arith, small)) in
    let ready : IsReady w.tx_buffer_fifo =
      unfold with_message framed clib_socket_tx_add clib_socket_tx_add_to_buffer_fifo in
      IsReady-append s.tx_buffer_fifo _ idle.0 refl
        (length-framing_data x.is_binary (length (s.current_tx_buffer ++ x.payload))).0
        (length-framing_data x.is_binary (length (s.current_tx_buffer ++ x.payload))).1 in
    let r = clib_socket_tx_lem w x.written ready payload ends some_bytes word in
    (
      r.0,
      unfold with_message in r.1,
      ap (λ (t : List ℕ). take x.written (tx_bytes w) ++ t) r.2
          ∙ (take-append-drop x.written (tx_bytes w) ∙ message_bytes s x idle),
      (r.3, r.4),
    )

-- Messages of fewer than 2 ^ 31 bytes, sent so that no call ends a buffer that was sent in part
-- before: there is no fault, and what `writev` took, then what still waits, is what waited before,
-- then the frames of the messages in their order.
pub send_all-frames :
    (xs : List Message) (s : Socket)
    → IsIdle s
    → AllEnd s xs
    → (t : Socket) × (taken : List ℕ) × (send_all s xs ≡ some (t, taken))
      × (taken ++ tx_bytes t ≡ tx_bytes s ++ frames xs)
      × IsIdle t
unfolding send_all after_send took frames
send_all-frames [] s idle all = (s, [], refl, sym (append-nil (tx_bytes s)), idle)
send_all-frames (x ∷ xs) s idle all =
    let r = send-IsIdle s x idle all.0 all.1 all.2 all.3 in
    let rest = send_all-frames xs r.0 r.3 (all.4 r.0 r.1) in
    let here = take x.written (tx_bytes (with_message s x)) in
    (
      rest.0,
      here ++ rest.1,
      ap (after_send (λ t. send_all t xs) here) r.1 ∙ ap (took here) rest.2,
      append_assoc here rest.1 (tx_bytes rest.0)
          ∙ (ap (λ (t : List ℕ). here ++ t) rest.3
              ∙ (sym (append_assoc here (tx_bytes r.0) (frames xs))
                  ∙ (ap (λ (t : List ℕ). t ++ frames xs) r.2
                      ∙ append_assoc (tx_bytes s) (tx_frame x.is_binary x.payload) (frames xs)))),
      rest.4,
    )

-- The messages as the peer sees them.
unfoldable pub sent : List Message → List Sent
sent [] = []
sent (x ∷ xs) =
    record { is_binary = x.is_binary; mask = replicate 4 0; payload = x.payload } ∷ sent xs

frames-stream : (xs : List Message) → frames xs ≡ stream (sent xs)
unfolding frames stream sent
frames-stream [] = refl
frames-stream (x ∷ xs) = ap₂ ◌++◌ (tx_frame-peer x.is_binary x.payload) (frames-stream xs)

same_parts :
    (s t : Socket) (a b : List ℕ)
    → ◌≡◌ {A = Option (Socket × List ℕ)} (some (s, a)) (some (t, b))
    → (s ≡ t) × (a ≡ b)
same_parts s t a b e = (cc, cc)

-- Messages of at most `max_n_bytes_in_payload` and fewer than 2 ^ 31 bytes, on a socket where nothing
-- waits and the current buffer is empty. Each call of `writev` takes some of the bytes that wait, and
-- none of the calls takes the last byte of a buffer that was sent in part before. Once nothing waits
-- any more, the bytes that `writev` took make the peer hand on exactly the payloads, in their order,
-- until its application refuses one; if it refuses none, its connection stays open with an empty
-- buffer.
pub send_all-receive {ℓ} :
    {S E : Type ℓ} (wsm : Main S E) (u : S) (xs : List Message) (s t : Socket) (taken : List ℕ)
    → IsIdle s
    → tx_bytes s ≡ []
    → AllEnd s xs
    → AllFit wsm.max_n_bytes_in_payload (sent xs)
    → send_all s xs ≡ some (t, taken)
    → tx_bytes t ≡ []
    → receive wsm (open_with u []) taken ≡ deliver wsm (λ v. open_with v []) u (sent xs)
unfolding receive
send_all-receive wsm u xs s t taken idle nothing all fit sends empty =
    let r = send_all-frames xs s idle all in
    let same = same_parts r.0 t r.1 taken (sym r.2 ∙ sends) in
    let bytes : taken ≡ stream (sent xs) =
      sym (append-nil taken)
      ∙ (ap (λ (b : List ℕ). taken ++ b) (sym empty)
          ∙ (ap₂ (λ (b : List ℕ) (v : Socket). b ++ tx_bytes v) (sym same.1) (sym same.0)
              ∙ (r.3 ∙ (ap (λ (b : List ℕ). b ++ frames xs) nothing ∙ frames-stream xs)))) in
    ap (parse_rx_frame wsm u) (bytes ∙ sym (append-nil (stream (sent xs))))
    ∙ (parse_rx_frame-stream wsm (sent xs) u [] fit ∙ unfold follow parse_frame in refl)
