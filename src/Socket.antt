-- ===== src/Socket.antt =====
-- The transmit and receive buffers of a socket: uclib/socket.h and uclib/socket.c. The fifo of
-- buffers is the list that a fifo stands for in Fifo/Queue.antt. What `writev` and `read` return
-- is an argument.
pub mod Transmit
mod Faults
mod Tests
use uclib.Base.{
  ℕ, ◌+◌, ◌-◌, ◌%◌, ◌^◌, Bool, true, false, ◌||◌, List, [], ◌∷◌, ◌++◌, ltb, leb, ◌==◌,
  if◌then◌else◌, length, drop, Option, none, some,
}
use uclib.Word.{add, sub}

-- A buffer and clib_socket_buffer_header_t.
pub record Buffer : Type 0 where
  pub bytes : List ℕ
  pub offset : ℕ

-- The buffers of clib_socket_t.
pub record Socket : Type 0 where
  pub current_tx_buffer : List ℕ
  pub tx_buffer_fifo : List Buffer
  pub rx_buffer : List ℕ
  pub rx_end_of_file : Bool

-- A system call moves bytes, or fails with an error that is fatal or not.
pub data Result {ℓ} (A : Type ℓ) : Type ℓ where
  moved : A → Result A
  try_again : Result A
  fatal : Result A

unfoldable pub clib_socket_tx_add : Socket → List ℕ → Socket
clib_socket_tx_add s bytes = record s { current_tx_buffer = s.current_tx_buffer ++ bytes }

unfoldable pub clib_socket_tx_add_to_buffer_fifo : Socket → List ℕ → Socket
clib_socket_tx_add_to_buffer_fifo s bytes = record s {
  tx_buffer_fifo = s.tx_buffer_fifo ++ record { bytes = bytes; offset = 0 } ∷ [];
}

unfoldable pub clib_socket_tx_data_is_available_to_write : Socket → Bool
clib_socket_tx_data_is_available_to_write s =
    ltb 0 (length s.current_tx_buffer) || ltb 0 (length s.tx_buffer_fifo)

-- The current buffer goes to the end of the fifo.
unfoldable pub gather : Socket → Socket
gather s =
    if ltb 0 (length s.current_tx_buffer)
    then record s {
      current_tx_buffer = [];
      tx_buffer_fifo = s.tx_buffer_fifo ++ record { bytes = s.current_tx_buffer; offset = 0 } ∷ [];
    }
    else s

-- The bytes that the vector of `writev` describes.
unfoldable pub iovecs : List Buffer → List ℕ
iovecs [] = []
iovecs (b ∷ bs) = drop b.offset b.bytes ++ iovecs bs

-- A result; or the assertion fails that the head of the fifo has bytes to send; or the head of an
-- empty fifo is read.
pub data Outcome {ℓ} (A : Type ℓ) : Type ℓ where
  done : A → Outcome A
  assertion_failed : Outcome A
  empty_fifo_read : Outcome A

-- The loop over the written bytes.
unfoldable pub reclaim : List Buffer → ℕ → Outcome (List Buffer)
reclaim [] n_left = if n_left == 0 then done [] else empty_fifo_read
reclaim (b ∷ bs) n_left =
    let rest = reclaim bs (sub n_left (length b.bytes)) in
    if n_left == 0
    then done (b ∷ bs)
    else if leb (length b.bytes) b.offset
    then assertion_failed
    else if ltb (add b.offset n_left) (length b.bytes)
    then done (record b { offset = (b.offset + n_left) % 2 ^ 32 } ∷ bs)
    else rest

-- The socket with what is left in its fifo, and whether there was an error.
unfoldable pub reclaimed : Socket → Outcome (List Buffer) → Outcome (Socket × Bool)
reclaimed s (done bs) = done (record s { tx_buffer_fifo = bs }, false)
reclaimed s assertion_failed = assertion_failed
reclaimed s empty_fifo_read = empty_fifo_read

unfoldable pub clib_socket_tx : Socket → Result ℕ → Outcome (Socket × Bool)
clib_socket_tx s (moved n) = reclaimed (gather s) (reclaim (gather s).tx_buffer_fifo n)
clib_socket_tx s try_again = done (gather s, false)
clib_socket_tx s fatal = done (gather s, true)

-- What `read` returns, into bytes that are reserved behind the buffer; no bytes are the end of the
-- file. What is not read is given back, but not where the error is fatal.
unfoldable pub read_into : Socket → List ℕ → Result (List ℕ) → Socket × Bool
read_into s reserved (moved bytes) =
    (record s { rx_buffer = s.rx_buffer ++ bytes; rx_end_of_file = length bytes == 0 }, false)
read_into s reserved try_again = (s, false)
read_into s reserved fatal = (record s { rx_buffer = s.rx_buffer ++ reserved }, true)

-- The socket, and whether there was an error.
unfoldable pub clib_socket_rx : Socket → List ℕ → Result (List ℕ) → Socket × Bool
clib_socket_rx s reserved result =
    if s.rx_end_of_file then (s, false) else read_into s reserved result
