-- ===== src/Websocket/Frames.antt =====
-- Frames that a peer sends, as uclib/websocket.c writes them or with a mask, are read back.
use uclib.Base.{
  ℕ, zero, suc, ◌+◌, ◌%◌, ◌^◌, ◌≤◌, ◌<◌, bit_and, bit_or, bit_xor, ◌≡◌, refl, sym, ◌∙◌, ap, ap₂,
  inl, inr, Bool, true, false, Bool-cases, List, [], ◌∷◌, ◌++◌, append_assoc, arith, ltb, leb, ◌==◌,
  if◌then◌else◌, length, length-append, get_or, take, drop, replicate, take-append_at,
  drop-append_at,
}
use uclib.Word.Bits.{bit_xor-zero}
use uclib.ByteOrder.{big_bytes, length-big_bytes, big_number-big_bytes}
use uclib.Websocket.{
  frame, parse_payload, parse_frame, payload_byte_size, payload_number, unmask, framing_start,
  framing_data, tx_frame,
}
use uclib.Websocket.Header.{
  Bytes-big_bytes, payload_number-big_number, unmask_twice, length-unmask, masked_length, low_seven,
  flag_lem,
}

-- A frame with a mask of four bytes.
unfoldable pub peer_frame : Bool → List ℕ → List ℕ → List ℕ
peer_frame is_binary mask payload =
    framing_start is_binary (length payload) ++ (mask ++ unmask mask payload 0)

-- The length behind the first byte, in any of the three forms.
module _ (m b1 : ℕ) (ext mask payload rest : List ℕ) (masked : (bit_and b1 128 == 0) ≡ false)
    (size : payload_byte_size (bit_and b1 0x7f) ≡ length ext)
    (number : (if leb 126 (bit_and b1 0x7f) then payload_number 0 ext else bit_and b1 0x7f)
      ≡ length payload)
    (mask_size : length mask ≡ 4) (small : length payload ≤ m) (few : length payload < 2 ^ 31) where
  parse_payload-peer :
      parse_payload m b1 (ext ++ (mask ++ (unmask mask payload 0 ++ rest))) ≡ frame payload rest
  unfolding parse_payload
  parse_payload-peer =
      let u = unmask mask payload 0 in
      let n = length payload in
      let rx = ext ++ (mask ++ (u ++ rest)) in
      let l_u : length u ≡ n = length-unmask mask payload 0 in
      let l_rx : length rx ≡ length ext + (4 + (n + length rest)) = omega (
        arith,
        length-append ext (mask ++ (u ++ rest)),
        length-append mask (u ++ rest),
        length-append u rest,
        l_u,
        mask_size,
      ) in
      let header_there : ltb (length rx) (4 + length ext) ≡ false = ground (arith, l_rx) in
      let fits : ltb m n ≡ false = ground (arith, small) in
      let payload_there : ltb (2 + length rx) ((2 + (4 + length ext) + n) % 2 ^ 64) ≡ false =
        ground (arith, l_rx) in
      let countable : leb (2 ^ 31) n ≡ false = ground (arith, few) in
      let front : take (length ext) rx ≡ ext = take-append_at (length ext) ext _ refl in
      let behind : drop (length ext) rx ≡ mask ++ (u ++ rest) =
        drop-append_at (length ext) ext _ refl in
      let four : take 4 (mask ++ (u ++ rest)) ≡ mask = take-append_at 4 mask _ mask_size in
      let split : rx ≡ (ext ++ mask) ++ (u ++ rest) = sym (append_assoc ext mask (u ++ rest)) in
      let body : drop (4 + length ext) rx ≡ u ++ rest =
        ap (drop (4 + length ext)) split
        ∙ drop-append_at (4 + length ext) (ext ++ mask) (u ++ rest)
            (omega (arith, length-append ext mask, mask_size)) in
      let covered : take n (u ++ rest) ≡ u = take-append_at n u rest l_u in
      let split_end : rx ≡ ((ext ++ mask) ++ u) ++ rest =
        split ∙ sym (append_assoc (ext ++ mask) u rest) in
      let follows : drop (4 + length ext + n) rx ≡ rest =
        ap (drop (4 + length ext + n)) split_end
        ∙ drop-append_at (4 + length ext + n) ((ext ++ mask) ++ u) rest (
            omega (arith, length-append (ext ++ mask) u, length-append ext mask, mask_size, l_u)) in
      rw
        (
          masked,
          size,
          front,
          number,
          header_there,
          fits,
          payload_there,
          countable,
          behind,
          four,
          body,
          covered,
          follows,
          unmask_twice mask payload 0,
        )
        refl

first_byte :
    (m : ℕ) (is_binary : Bool) (b1 : ℕ) (rx : List ℕ)
    → parse_frame m (bit_or 128 (if is_binary then 2 else 1) ∷ b1 ∷ rx) ≡ parse_payload m b1 rx
unfolding parse_frame
first_byte m true b1 rx = refl
first_byte m false b1 rx = refl

masked_flag : (l : ℕ) → l < 128 → (bit_and (bit_or 128 l) 128 == 0) ≡ false
masked_flag l h = rw (masked_length l h) (flag_lem (128 + l) (omega arith) ∙ (ground arith))

masked_low : (l : ℕ) → l < 128 → bit_and (bit_or 128 l) 0x7f ≡ l
masked_low l h = rw (masked_length l h) (low_seven (128 + l) ∙ omega arith)

-- The three forms of the length.
module _ (m : ℕ) (is_binary : Bool) (mask payload rest : List ℕ) (mask_size : length mask ≡ 4)
    (small : length payload ≤ m) (few : length payload < 2 ^ 31) where
  abbrev b0 : ℕ
  b0 = bit_or 128 (if is_binary then 2 else 1)

  -- A header with the length in these bytes behind it.
  parse_with :
      (l : ℕ) (ext : List ℕ)
      → l < 128
      → payload_byte_size l ≡ length ext
      → (if leb 126 l then payload_number 0 ext else l) ≡ length payload
      → parse_frame m ((b0 ∷ bit_or 128 l ∷ ext ++ (mask ++ unmask mask payload 0)) ++ rest)
        ≡ frame payload rest
  parse_with l ext lt size number =
      let assoc : (ext ++ (mask ++ unmask mask payload 0)) ++ rest
          ≡ ext ++ (mask ++ (unmask mask payload 0 ++ rest)) =
        append_assoc ext (mask ++ unmask mask payload 0) rest
        ∙ ap (λ (t : List ℕ). ext ++ t) (append_assoc mask (unmask mask payload 0) rest) in
      first_byte m is_binary (bit_or 128 l) ((ext ++ (mask ++ unmask mask payload 0)) ++ rest)
      ∙ (ap (parse_payload m (bit_or 128 l)) assoc
          ∙ parse_payload-peer m (bit_or 128 l) ext mask payload rest (masked_flag l lt)
              (ap payload_byte_size (masked_low l lt) ∙ size) (rw (masked_low l lt) number)
              mask_size small few)

  -- A frame with at most so many bytes is read back, and what follows is left.
  pub parse_frame-peer :
      parse_frame m (peer_frame is_binary mask payload ++ rest) ≡ frame payload rest
  unfolding peer_frame framing_start payload_byte_size
  parse_frame-peer =
      let l = length payload in
      elim (Bool-cases (ltb l 126)) [
        | inl short ↦
            let lt : l < 126 = ground (arith, short) in
            rw short (
              parse_with l [] (omega arith) (unfold payload_byte_size in ground (arith, lt))
                (ground (arith, lt)))
        | inr more ↦ rw more (elim (Bool-cases (ltb l (2 ^ 16))) [
          | inl short ↦
              let n : payload_number 0 (big_bytes 2 l) ≡ l =
                payload_number-big_number 0 (big_bytes 2 l) (Bytes-big_bytes 2 l)
                ∙ big_number-big_bytes 2 l (ground (arith, short)) in
              rw short (parse_with 126 (big_bytes 2 l) (omega arith) (sym (length-big_bytes 2 l)) n)
          | inr long ↦
              let n : payload_number 0 (big_bytes 8 l) ≡ l =
                payload_number-big_number 0 (big_bytes 8 l) (Bytes-big_bytes 8 l)
                ∙ big_number-big_bytes 8 l (omega (arith, few)) in
              rw long (parse_with 127 (big_bytes 8 l) (omega arith) (sym (length-big_bytes 8 l)) n)
        ])
      ]

get_or-zeros : (n i : ℕ) → get_or {A = ℕ} (replicate n 0) i 0 ≡ 0
get_or-zeros zero i = refl
get_or-zeros (suc n) zero = refl
get_or-zeros (suc n) (suc i) = get_or-zeros n i

unmask-zeros : (xs : List ℕ) (i : ℕ) → unmask (replicate 4 0) xs i ≡ xs
unfolding unmask
unmask-zeros [] i = refl
unmask-zeros (x ∷ xs) i =
    ap₂ ◌∷◌ (ap (bit_xor x) (get_or-zeros 4 (i % 4)) ∙ bit_xor-zero x) (unmask-zeros xs (i + 1))

-- What is sent is a frame whose mask is zero.
pub tx_frame-peer :
    (is_binary : Bool) (payload : List ℕ)
    → tx_frame is_binary payload ≡ peer_frame is_binary (replicate 4 0) payload
unfolding tx_frame framing_data peer_frame
tx_frame-peer is_binary payload =
    append_assoc (framing_start is_binary (length payload)) (replicate 4 0) payload
    ∙ ap (λ (t : List ℕ). framing_start is_binary (length payload) ++ (replicate 4 0 ++ t))
        (sym (unmask-zeros payload 0))
