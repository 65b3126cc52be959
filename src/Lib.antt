-- ===== src/Lib.antt =====
-- uclib, a library of vectors, bitmaps, compressed vectors and parsers in C.
--
-- Parts and files:
--
--   - Word.antt: the arithmetic on `uword` of uclib/uclib.h, on a machine where a word has 64 bits.
--     A word is a number below 2 ^ 64; every operation writes its wrap-around out. Word/Bits.antt
--     has the bits of a word, Word/FirstSet.antt the lowest and the highest set bit.
--
--   - Bitmap.antt and Bitmap/Search.antt: uclib/bitmap.h. A bitmap is the vector of its words;
--     `set_bit`, `get`, `get_multiple`, `set_multiple`, `and_map`, `andi` and so on are
--     `clib_bitmap_set`, `clib_bitmap_get`, ... The theorems speak of the bits: Bitmap/Bits.antt of
--     one bit, Bitmap/Field.antt and Bitmap/Field/Write.antt of fields, Bitmap/Alu.antt of two
--     maps, Bitmap/Search/Results.antt of the searches, Bitmap/Foreach.antt of the loop over the
--     set bits, Bitmap/Whole.antt of whole maps. The inner loop of `foreach` runs on fuel: at most
--     64 rounds find a bit, and one more ends it. The macros for two maps and for an immediate bit
--     are functions of the word operation and of `check_zero`.
--
--   - Zvec.antt: compressed vectors, uclib/zvec.h and uclib/zvec.c. The two loops run on fuel; 65
--     rounds are enough, because every round but the last removes one of at most 64 code classes.
--     The data of a stream are the list of what stands at its strides. Zvec/RoundTrip.antt has the
--     code of one value, Zvec/Longest.antt the longest code, Zvec/Streams.antt whole streams,
--     Zvec/Signed.antt the signed conversion.
--
--   - Url.antt: uclib/url.c, the parser of the parts of a URL. A text is the list of its bytes
--     before the NUL; a read beyond the NUL is the result `fault`. Url/Text.antt prints a URL,
--     Url/RoundTrip.antt and Url/Laws.antt state what the parser does.
--
--   - Sha.antt: uclib/crypto.c, the hashes. The functions `sha*_update` and `sha*_finalize` are one
--     function `update` and `finalize` of an `Algorithm`: the size of a block, its compression and
--     the layout of the last block. Sha/Sha1.antt, Sha/Sha256.antt and Sha/Sha512.antt have the
--     compressions and the functions of the interface, Sha/Sha2.antt what the last two share,
--     ByteOrder.antt words in the order of the network. The loop over whole blocks runs on fuel, as
--     many rounds as there are bytes; every round takes a block away. Sha/Standard.antt is the
--     standard, FIPS 180-4, by itself: its padding, schedules, rounds and initial values, and its
--     constants from the roots of the primes; Sha/Agree.antt compares an algorithm with it.
--     Sha/Digest.antt is the padding by the layout of the code and the invariant of a state that
--     has taken in a message, kept by Sha/Blocks.antt, Sha/Update.antt, Sha/Ending.antt,
--     Sha/Finalize.antt and Sha/Stream.antt. A state on the stack that is not initialised is an
--     argument.
--
--   - Fifo.antt: uclib/fifo.h and uclib/fifo.c, queues in a ring that grows. Fifo/Ring.antt has the
--     invariant and the loop over the ring, Fifo/Grow.antt the larger ring, Fifo/Copies.antt and
--     Fifo/Push.antt what is added, Fifo/Pop.antt what is taken, Fifo/Index.antt the indices of
--     elements, Fifo/Queue.antt the queue that a fifo is. Indices have 32 bits, so that a ring has
--     at most 2 ^ 31 elements.
--
--   - Base64.antt: uclib/base64.c, `format_base64_data` and `unformat_base64_data`, whose count of
--     bytes has 31 bits and a sign, with the digits in Base64/Digits.antt and the round trip in
--     Base64/RoundTrip.antt.
--
--   - Serialize.antt: uclib/serialize.h and uclib/serialize.c, what is written to and read from one
--     buffer, `serialize_integer`, `serialize_likely_small_unsigned_integer`, `serialize_cstring`,
--     `serialize_vector` and their inverses. A vector goes in chunks of 64, for which the fuel is
--     the number of elements. A read beyond the buffer is the result `none`.
--     Serialize/Integers.antt and Serialize/Vectors.antt have the round trips.
--
--   - Hash.antt: uclib/hash.h and uclib/hash.c, hash tables whose buckets are empty, one pair or a
--     vector of pairs. The functions on keys stand in the table, as `Keys`; what a table asks of
--     them is `IsKeys` in Hash/Pairs.antt. `lookup` is one function for get, set and unset, as in
--     the source. `_hash_set3` grows the table, which sets all pairs in the new one: its fuel is
--     32. Hash/Fuel.antt has the recursion once more, with no result where the fuel runs out.
--     Hash/Searches.antt and Hash/Removal.antt have the vectors of pairs, Hash/Buckets.antt the
--     operations on a bucket, Hash/Places.antt and Hash/Tables.antt the whole table with its
--     invariant, Hash/Capacity.antt and Hash/Growth.antt new tables and resizing,
--     Hash/Dictionary.antt with its children the dictionary that a table is, Hash/Next.antt the
--     iteration by `hash_next`, Hash/Memory.antt the sum of a memory, `hash_memory64`, and the
--     built-in functions on keys; memory is a function from addresses to bytes, and `strlen`,
--     `strcmp` and `memcmp` are parameters. Tables have at most 2 ^ 30 buckets and 2 ^ 28 elements.
--
--   - Socket.antt: the transmit and receive buffers of uclib/socket.h and uclib/socket.c. What
--     `writev` and `read` do is an argument, and the fifo of buffers the list that a fifo stands
--     for by Fifo/Queue.antt. An assertion that fails and a read of an empty fifo are results of
--     their own. Socket/Transmit.antt has what `clib_socket_tx` keeps, Socket/Faults.antt where it
--     fails.
--
--   - Websocket.antt: uclib/websocket.c, the frames: `parse_rx_frame`, and the bytes of
--     `websocket_socket_tx_frame_helper`. The state of the application and its callback
--     `rx_frame_payload` are parameters. The loop runs on fuel, the number of bytes in the buffer;
--     a frame takes at least two. A payload that the `int` of its loop cannot count is the error
--     `uncountable`. Websocket/Header.antt has the bits of the two first bytes, Websocket/Loop.antt
--     the fuel, Websocket/Frames.antt one frame, Websocket/Chunks.antt bytes that arrive in parts,
--     Websocket/Streams.antt frames one behind the other, Websocket/Sending.antt
--     `websocket_socket_tx_frame_helper` itself, on the sockets, with the peer that receives.
--
--   - Pool.antt: uclib/pool.h, a vector of objects with the bitmap and the stack of its free
--     indices. Pool/State.antt has the invariant and the allocation, Pool/Foreach.antt the
--     iteration by regions, whose inner loop runs on fuel for the 64 bits of a word and one round
--     more, Pool/Next.antt the step to the next index in use.
--
-- Fifos and bitmaps stand on words, compressed vectors and pools on words and bitmaps; web sockets
-- send on sockets. Shared lists, numbers and Boolean tests are in Base.antt.
--
-- Not modelled: vector headers, alignment and memory (a vector is a list, and a NULL vector is the
-- empty one; where the code reads or writes the header of one without a test, the operation has no
-- result for it), `pool_free_elts`, the functions that format and do input and output, and the
-- other parts of the library.
pub mod Base
pub mod Word
pub mod Bitmap
pub mod Zvec
pub mod Url
pub mod Pool
pub mod ByteOrder
pub mod Sha
pub mod Fifo
pub mod Base64
pub mod Serialize
pub mod Hash
pub mod Socket
pub mod Websocket
