-- ===== src/Sha/Tests.antt =====
-- The hashes at concrete messages: the vectors of test/sha.c, and messages in pieces.
use uclib.Base.{ℕ, arith, true, ◌≡◌, refl, false, List, [], ◌∷◌, replicate}
use uclib.Sha.{Bytes, Sha, update_blocks, update, last_block, last_state, result_bytes, finalize}
use uclib.ByteOrder.{big_bytes, big_number, load_words}
use uclib.Sha.Standard.{
  standard_digest, standard_pad, hash_blocks, words_to_bytes, standard1, compress1, ring_rounds,
  function1, constant1, root_from, standard256, initial256, standard512, initial512, compress_block,
  message_schedule, working_rounds, primes, primes_from, has_divisor, root_fractions, root_fraction,
}
use uclib.Sha.Stream.{concat, updates}
use uclib.Sha.Sha2.{round, next_word, load_vars, add_vars}
use uclib.Sha.Sha256.{
  sha256, sha224, sha256_update_block, sha256_length_bytes, sha256_sha224_init, sha256_finalize,
  sha256_algorithm, sha256-digest,
}
use uclib.Sha.Sha512.{
  sha512, sha384, sha512_update_block, sha512_length_bytes, sha512_sha384_init, sha512_finalize,
  sha512_algorithm, sha512-digest,
}
use uclib.Sha.Sha1.{
  sha1, sha1_update_block, sha1_length_bytes, sha1_init, sha1_finalize, sha1_algorithm, sha1-digest,
}

abbrev abc : Bytes
abc = 0x61 ∷ 0x62 ∷ 0x63 ∷ []

abbrev fresh : ℕ → Sha
fresh n = record {
  n_bytes_processed = 77;
  partial_block_buffer = replicate n 0xEE;
  state = [];
  is_short = false;
}

sha1-abc :
    sha1 (fresh 64) abc
    ≡ 0xA9 ∷ 0x99 ∷ 0x3E ∷ 0x36 ∷ 0x47 ∷ 0x06 ∷ 0x81 ∷ 0x6A ∷ 0xBA ∷ 0x3E ∷ 0x25 ∷ 0x71 ∷ 0x78
      ∷ 0x50 ∷ 0xC2 ∷ 0x6C ∷ 0x9C ∷ 0xD0 ∷ 0xD8 ∷ 0x9D ∷ []
unfolding sha1 sha1_update_block sha1_length_bytes big_bytes big_number load_words update_blocks
    update last_block last_state result_bytes finalize
sha1-abc = refl

sha256-abc :
    sha256 (fresh 64) abc
    ≡ 0xBA ∷ 0x78 ∷ 0x16 ∷ 0xBF ∷ 0x8F ∷ 0x01 ∷ 0xCF ∷ 0xEA ∷ 0x41 ∷ 0x41 ∷ 0x40 ∷ 0xDE ∷ 0x5D
      ∷ 0xAE ∷ 0x22 ∷ 0x23 ∷ 0xB0 ∷ 0x03 ∷ 0x61 ∷ 0xA3 ∷ 0x96 ∷ 0x17 ∷ 0x7A ∷ 0x9C ∷ 0xB4 ∷ 0x10
      ∷ 0xFF ∷ 0x61 ∷ 0xF2 ∷ 0x00 ∷ 0x15 ∷ 0xAD ∷ []
unfolding sha256 sha256_update_block sha256_length_bytes big_bytes big_number load_words
    update_blocks update last_block last_state result_bytes finalize load_vars add_vars round
    next_word
sha256-abc = refl

sha224-abc :
    sha224 (fresh 64) abc
    ≡ 0x23 ∷ 0x09 ∷ 0x7D ∷ 0x22 ∷ 0x34 ∷ 0x05 ∷ 0xD8 ∷ 0x22 ∷ 0x86 ∷ 0x42 ∷ 0xA4 ∷ 0x77 ∷ 0xBD
      ∷ 0xA2 ∷ 0x55 ∷ 0xB3 ∷ 0x2A ∷ 0xAD ∷ 0xBC ∷ 0xE4 ∷ 0xBD ∷ 0xA0 ∷ 0xB3 ∷ 0xF7 ∷ 0xE3 ∷ 0x6C
      ∷ 0x9D ∷ 0xA7 ∷ []
unfolding sha224 sha256_update_block sha256_length_bytes big_bytes big_number load_words
    update_blocks update last_block last_state result_bytes finalize load_vars add_vars round
    next_word
sha224-abc = refl

sha512-abc :
    sha512 (fresh 128) abc
    ≡ 0xDD ∷ 0xAF ∷ 0x35 ∷ 0xA1 ∷ 0x93 ∷ 0x61 ∷ 0x7A ∷ 0xBA ∷ 0xCC ∷ 0x41 ∷ 0x73 ∷ 0x49 ∷ 0xAE
      ∷ 0x20 ∷ 0x41 ∷ 0x31 ∷ 0x12 ∷ 0xE6 ∷ 0xFA ∷ 0x4E ∷ 0x89 ∷ 0xA9 ∷ 0x7E ∷ 0xA2 ∷ 0x0A ∷ 0x9E
      ∷ 0xEE ∷ 0xE6 ∷ 0x4B ∷ 0x55 ∷ 0xD3 ∷ 0x9A ∷ 0x21 ∷ 0x92 ∷ 0x99 ∷ 0x2A ∷ 0x27 ∷ 0x4F ∷ 0xC1
      ∷ 0xA8 ∷ 0x36 ∷ 0xBA ∷ 0x3C ∷ 0x23 ∷ 0xA3 ∷ 0xFE ∷ 0xEB ∷ 0xBD ∷ 0x45 ∷ 0x4D ∷ 0x44 ∷ 0x23
      ∷ 0x64 ∷ 0x3C ∷ 0xE8 ∷ 0x0E ∷ 0x2A ∷ 0x9A ∷ 0xC9 ∷ 0x4F ∷ 0xA5 ∷ 0x4C ∷ 0xA4 ∷ 0x9F ∷ []
unfolding sha512 sha512_update_block sha512_length_bytes big_bytes big_number load_words
    update_blocks update last_block last_state result_bytes finalize load_vars add_vars round
    next_word
sha512-abc = refl

sha384-abc :
    sha384 (fresh 128) abc
    ≡ 0xCB ∷ 0x00 ∷ 0x75 ∷ 0x3F ∷ 0x45 ∷ 0xA3 ∷ 0x5E ∷ 0x8B ∷ 0xB5 ∷ 0xA0 ∷ 0x3D ∷ 0x69 ∷ 0x9A
      ∷ 0xC6 ∷ 0x50 ∷ 0x07 ∷ 0x27 ∷ 0x2C ∷ 0x32 ∷ 0xAB ∷ 0x0E ∷ 0xDE ∷ 0xD1 ∷ 0x63 ∷ 0x1A ∷ 0x8B
      ∷ 0x60 ∷ 0x5A ∷ 0x43 ∷ 0xFF ∷ 0x5B ∷ 0xED ∷ 0x80 ∷ 0x86 ∷ 0x07 ∷ 0x2B ∷ 0xA1 ∷ 0xE7 ∷ 0xCC
      ∷ 0x23 ∷ 0x58 ∷ 0xBA ∷ 0xEC ∷ 0xA1 ∷ 0x34 ∷ 0xC8 ∷ 0x25 ∷ 0xA7 ∷ []
unfolding sha384 sha512_update_block sha512_length_bytes big_bytes big_number load_words
    update_blocks update last_block last_state result_bytes finalize load_vars add_vars round
    next_word
sha384-abc = refl

-- A block of 61s in two pieces, and three bytes behind it.
abbrev pieces : List Bytes
pieces = replicate 50 0x61 ∷ replicate 14 0x61 ∷ abc ∷ []

sha1-digest_example :
    (sha1_finalize (updates sha1_algorithm (sha1_init (fresh 64)) pieces)).1
    ≡ 0xA5 ∷ 0x17 ∷ 0x7E ∷ 0x48 ∷ 0xD1 ∷ 0x9A ∷ 0x71 ∷ 0x4D ∷ 0x04 ∷ 0x63 ∷ 0xDB ∷ 0xEA ∷ 0xFA
      ∷ 0xAB ∷ 0x7F ∷ 0x5C ∷ 0x6D ∷ 0x14 ∷ 0x0F ∷ 0xF3 ∷ []
unfolding standard_digest standard_pad hash_blocks words_to_bytes standard1 compress1 ring_rounds
    function1 constant1 root_from concat big_bytes big_number load_words
sha1-digest_example = sha1-digest (fresh 64) pieces refl (omega arith)

sha256-digest_example :
    (sha256_finalize (updates sha256_algorithm (sha256_sha224_init (fresh 64) true) pieces)).1
    ≡ 0x34 ∷ 0x2F ∷ 0x8A ∷ 0xE8 ∷ 0xD2 ∷ 0x1F ∷ 0xFD ∷ 0x76 ∷ 0x44 ∷ 0xDB ∷ 0x07 ∷ 0xA1 ∷ 0xC3
      ∷ 0xEC ∷ 0xEE ∷ 0x24 ∷ 0x29 ∷ 0xF9 ∷ 0x81 ∷ 0x07 ∷ 0xC2 ∷ 0x57 ∷ 0xF7 ∷ 0x33 ∷ 0x35 ∷ 0x6E
      ∷ 0xD2 ∷ 0x76 ∷ []
unfolding standard_digest standard_pad hash_blocks words_to_bytes standard256 initial256
    compress_block message_schedule working_rounds primes primes_from has_divisor root_fractions
    root_fraction root_from concat big_bytes big_number load_words
sha256-digest_example = sha256-digest (fresh 64) true pieces refl (omega arith)

sha512-digest_example :
    (sha512_finalize (updates sha512_algorithm (sha512_sha384_init (fresh 128) false) pieces)).1
    ≡ 0x1D ∷ 0x9F ∷ 0x28 ∷ 0x2C ∷ 0x58 ∷ 0x0F ∷ 0x3E ∷ 0xC6 ∷ 0x87 ∷ 0x1B ∷ 0x54 ∷ 0xBF ∷ 0xD5
      ∷ 0xB1 ∷ 0x7F ∷ 0x0F ∷ 0x82 ∷ 0x5F ∷ 0xBA ∷ 0xA9 ∷ 0x14 ∷ 0xF2 ∷ 0x89 ∷ 0xC7 ∷ 0x6F ∷ 0xAC
      ∷ 0xFA ∷ 0x33 ∷ 0x34 ∷ 0x05 ∷ 0xC1 ∷ 0xCB ∷ 0x3A ∷ 0xC0 ∷ 0xAF ∷ 0xD1 ∷ 0x9D ∷ 0xA8 ∷ 0x8A
      ∷ 0x8B ∷ 0x25 ∷ 0xC6 ∷ 0xC9 ∷ 0x64 ∷ 0x73 ∷ 0x77 ∷ 0x95 ∷ 0xA8 ∷ 0x71 ∷ 0x77 ∷ 0x7C ∷ 0x2B
      ∷ 0x4A ∷ 0xCB ∷ 0x1A ∷ 0x39 ∷ 0x35 ∷ 0x6C ∷ 0x4B ∷ 0x25 ∷ 0xDD ∷ 0x29 ∷ 0xCD ∷ 0xED ∷ []
unfolding standard_digest standard_pad hash_blocks words_to_bytes standard512 initial512
    compress_block message_schedule working_rounds primes primes_from has_divisor root_fractions
    root_fraction root_from concat big_bytes big_number load_words
sha512-digest_example = sha512-digest (fresh 128) false pieces refl (omega arith)
