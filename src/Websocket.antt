-- ===== src/Websocket.antt =====
-- The frames of web sockets: `parse_rx_frame` and `websocket_socket_tx_frame_helper` of
-- uclib/websocket.c. The bytes that a connection has received wait in a buffer until they are a
-- frame. What the application keeps is a state of its own, and its callback `rx_frame_payload` a
-- parameter. A buffer is shorter than 2 ^ 32 bytes.
mod Header
mod Loop
pub mod Streams
pub mod Sending
pub mod Frames
pub mod Chunks
mod Tests
use uclib.Base.{
  ℕ, zero, suc, ◌+◌, ◌*◌, ◌%◌, ◌^◌, bit_and, bit_or, bit_xor, Bool, true, false, not, List, [], ◌∷◌,
  ◌++◌, ltb, leb, ◌==◌, ◌||◌, if◌then◌else◌, length, get_or, take, drop, replicate, Option, none,
  some,
}
use uclib.ByteOrder.{big_bytes}

-- WEBSOCKET_DATA_FRAMING_IS_FINAL_FRAGMENT and WEBSOCKET_DATA_FRAMING_PAYLOAD_IS_MASKED
abbrev pub is_final_fragment : ℕ
is_final_fragment = 128

abbrev pub payload_is_masked : ℕ
payload_is_masked = 128

-- foreach_websocket_data_framing_opcode
abbrev pub text_data : ℕ
text_data = 1

abbrev pub binary_data : ℕ
binary_data = 2

abbrev pub close : ℕ
close = 8

-- The errors of `parse_rx_frame`, and `uncountable` where its behaviour is not defined: the `int` of the
-- loop over the payload does not count 2 ^ 31 bytes.
pub data FrameError : Type 0 where
  fragmentation : ℕ → FrameError
  close_received : FrameError
  unknown_opcode : ℕ → FrameError
  payload_overflow : ℕ → FrameError
  uncountable : ℕ → FrameError

-- What the front of the buffer is: less than a frame, no frame, or a payload with what follows.
pub data Frame : Type 0 where
  incomplete : Frame
  bad : FrameError → Frame
  frame : List ℕ → List ℕ → Frame

unfoldable pub payload_byte_size : ℕ → ℕ
payload_byte_size l = if l == 127 then 8 else if l == 126 then 2 else 0

-- The bytes of a length, each shifted to its place.
unfoldable pub payload_number : ℕ → List ℕ → ℕ
payload_number acc [] = acc
payload_number acc (x ∷ xs) = payload_number (bit_or (acc * 2 ^ 8) x) xs

unfoldable pub unmask : List ℕ → List ℕ → ℕ → List ℕ
unmask mask [] i = []
unmask mask (x ∷ xs) i = bit_xor x (get_or mask (i % 4) 0) ∷ unmask mask xs (i + 1)

-- A frame from its second byte on, which is not in `rx`, and neither is the first.
unfoldable pub parse_payload : ℕ → ℕ → List ℕ → Frame
parse_payload max_n_bytes_in_payload b1 rx =
    let is_masked = not (bit_and b1 payload_is_masked == 0) in
    let l = bit_and b1 0x7f in
    let size = payload_byte_size l in
    let n_header = (if is_masked then 4 else 0) + size in
    let n = if leb 126 l then payload_number 0 (take size rx) else l in
    let mask = take 4 (drop size rx) in
    let payload = take n (drop n_header rx) in
    let n_frame = (2 + n_header + n) % 2 ^ 64 in
    if ltb (length rx) n_header
    then incomplete
    else if ltb max_n_bytes_in_payload n
    then bad (payload_overflow n)
    else if ltb (2 + length rx) n_frame
    then incomplete
    else if leb (2 ^ 31) n
    then bad (uncountable n)
    else frame (if is_masked then unmask mask payload 0 else payload) (drop (n_header + n) rx)

-- The first frame of the buffer.
unfoldable pub parse_frame : ℕ → List ℕ → Frame
parse_frame m [] = incomplete
parse_frame m (b0 ∷ []) = incomplete
parse_frame m (b0 ∷ b1 ∷ rx) =
    let opcode = bit_and b0 0xf in
    if bit_and b0 is_final_fragment == 0
    then bad (fragmentation b0)
    else if opcode == binary_data || opcode == text_data
    then parse_payload m b1 rx
    else if opcode == close
    then bad close_received
    else bad (unknown_opcode b0)

pub data Reason {ℓ} (E : Type ℓ) : Type ℓ where
  frame_error : FrameError → Reason E
  refused : E → Reason E

-- A connection: open, with what is left in the buffer, or closed by an error.
pub data Connection {ℓ} (S E : Type ℓ) : Type ℓ where
  open_with : S → List ℕ → Connection S E
  closed : S → Reason E → Connection S E

-- The parts of websocket_main_t that frames depend on.
pub record Main {ℓ} (S E : Type ℓ) : Type ℓ where
  pub max_n_bytes_in_payload : ℕ
  pub rx_frame_payload : S → List ℕ → S × Option E

module _ {ℓ} {S E : Type ℓ} where
  -- What follows a callback.
  unfoldable pub after_payload : (S → Connection S E) → S × Option E → Connection S E
  after_payload next (s, none) = next s
  after_payload next (s, some e) = closed s (refused e)

  unfoldable pub after_frame :
      Main S E → (S → List ℕ → Connection S E) → S → List ℕ → Frame → Connection S E
  after_frame wsm next s rx incomplete = open_with s rx
  after_frame wsm next s rx (bad e) = closed s (frame_error e)
  after_frame wsm next s rx (frame payload rest) =
      after_payload (λ t. next t rest) (wsm.rx_frame_payload s payload)

  -- The loop; a frame takes at least two bytes.
  unfoldable pub parse_frames : Main S E → ℕ → S → List ℕ → Connection S E
  parse_frames wsm zero s rx = open_with s rx
  parse_frames wsm (suc fuel) s rx =
      after_frame wsm (parse_frames wsm fuel) s rx (parse_frame wsm.max_n_bytes_in_payload rx)

  unfoldable pub parse_rx_frame : Main S E → S → List ℕ → Connection S E
  parse_rx_frame wsm s rx = parse_frames wsm (length rx) s rx

  -- Bytes that arrive are appended to the buffer, which is parsed at once.
  unfoldable pub receive : Main S E → Connection S E → List ℕ → Connection S E
  receive wsm (open_with s rx) bytes = parse_rx_frame wsm s (rx ++ bytes)
  receive wsm (closed s reason) bytes = closed s reason

-- framing_data up to the mask.
unfoldable pub framing_start : Bool → ℕ → List ℕ
framing_start is_binary l =
    bit_or is_final_fragment (if is_binary then binary_data else text_data)
    ∷ (if ltb l 126
        then bit_or payload_is_masked l ∷ []
        else if ltb l (2 ^ 16)
        then bit_or payload_is_masked 126 ∷ big_bytes 2 l
        else bit_or payload_is_masked 127 ∷ big_bytes 8 l)

unfoldable pub framing_data : Bool → ℕ → List ℕ
framing_data is_binary l = framing_start is_binary l ++ replicate 4 0

-- What a connection sends for a payload: the framing data, and the transmit buffer behind it.
unfoldable pub tx_frame : Bool → List ℕ → List ℕ
tx_frame is_binary payload = framing_data is_binary (length payload) ++ payload
