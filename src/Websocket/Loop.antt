-- ===== src/Websocket/Loop.antt =====
-- The loop of `parse_rx_frame` of uclib/websocket.c: it ends, and more bytes behind a frame do not
-- change it.
use uclib.Base.{
  ◌%◌, ◌^◌, ℕ, zero, suc, ◌+◌, ◌≤◌, bit_and, ◌≡◌, refl, sym, ◌∙◌, ap, subst, ◌⊎◌, inl, inr, Bool,
  true, false, not, Bool-cases, List, [], ◌∷◌, ◌++◌, arith, ltb, leb, ◌==◌, ◌||◌, if◌then◌else◌,
  length, length_zero, length-append, length-drop, take, drop, take-append, drop-append, Option,
  none, some,
}
use uclib.Websocket.{
  Main, Frame, incomplete, bad, frame, payload_overflow, uncountable, Connection, parse_payload,
  parse_frame, payload_byte_size, payload_number, unmask, parse_frames, after_frame, after_payload,
}

-- What becomes of a result when more bytes arrive.
unfoldable pub with_more : List ℕ → Frame → Frame
with_more ys incomplete = incomplete
with_more ys (bad e) = bad e
with_more ys (frame payload rest) = frame payload (rest ++ ys)

-- The result is complete, and what is left is not longer than that.
abbrev pub IsComplete : ℕ → Frame → Type 0
IsComplete n incomplete = ⊥
IsComplete n (bad e) = Unit
IsComplete n (frame payload rest) = length rest ≤ n

-- The end of `parse_payload`, behind the number of bytes of the payload.
cut : ℕ → Bool → ℕ → ℕ → ℕ → List ℕ → Frame
cut m is_masked size n_header n rx =
    let mask = take 4 (drop size rx) in
    let payload = take n (drop n_header rx) in
    if ltb m n
    then bad (payload_overflow n)
    else if ltb (2 + length rx) ((2 + n_header + n) % 2 ^ 64)
    then incomplete
    else if leb (2 ^ 31) n
    then bad (uncountable n)
    else frame (if is_masked then unmask mask payload 0 else payload) (drop (n_header + n) rx)

-- A result is not complete, or the same with more bytes.
abbrev Settled : ℕ → List ℕ → Frame → Frame → Type 0
Settled n ys f g = (f ≡ incomplete) ⊎ ((g ≡ with_more ys f) × IsComplete n f)

masks-more :
    (is_masked : Bool) (size n_header : ℕ) (rx ys : List ℕ)
    → n_header ≡ (if is_masked then 4 else 0) + size
    → n_header ≤ length rx
    → (payload rest : List ℕ)
    → ◌≡◌ {A = Frame}
        (frame
          (if is_masked then unmask (take 4 (drop size (rx ++ ys))) payload 0 else payload)
          rest)
        (frame (if is_masked then unmask (take 4 (drop size rx)) payload 0 else payload) rest)
masks-more true size n_header rx ys e there payload rest =
    let mask : take 4 (drop size (rx ++ ys)) ≡ take 4 (drop size rx) =
      ap (take 4) (drop-append size rx ys (omega (arith, e, there)))
      ∙ take-append 4 (drop size rx) ys (omega (arith, length-drop size rx, e, there)) in
    rw mask refl
masks-more false size n_header rx ys e there payload rest = refl

cut-more :
    (m : ℕ) (is_masked : Bool) (size n_header n : ℕ) (rx ys : List ℕ)
    → n_header ≡ (if is_masked then 4 else 0) + size
    → n_header ≤ length rx
    → n_header ≤ 12
    → Settled
        (length rx)
        ys
        (cut m is_masked size n_header n rx)
        (cut m is_masked size n_header n (rx ++ ys))
unfolding cut with_more
cut-more m is_masked size n_header n rx ys e there twelve =
    let n_frame = (2 + n_header + n) % 2 ^ 64 in
    elim (Bool-cases (ltb m n)) [
      | inl over ↦ inr (rw over (refl, tt))
      | inr fits ↦ elim (Bool-cases (ltb (2 + length rx) n_frame)) [
        | inl short ↦ inl (rw (fits, short) refl)
        | inr enough ↦
            let enough_more : ltb (2 + length (rx ++ ys)) n_frame ≡ false =
              ground (arith, length-append rx ys, enough) in
            elim (Bool-cases (leb (2 ^ 31) n)) [
              | inl large ↦ inr (rw (fits, enough, enough_more, large) (refl, tt))
              | inr small ↦
                  let le : n_header + n ≤ length rx = ground (arith, enough, small, twelve) in
                  let payload : take n (drop n_header (rx ++ ys)) ≡ take n (drop n_header rx) =
                    ap (take n) (drop-append n_header rx ys there)
                    ∙ take-append n (drop n_header rx) ys
                        (omega (arith, length-drop n_header rx, le)) in
                  let follows = drop-append (n_header + n) rx ys le in
                  let shorter : length (drop (n_header + n) rx) ≤ length rx =
                    omega (arith, length-drop (n_header + n) rx) in
                  inr (
                    rw (fits, enough, enough_more, small, payload, follows)
                      (
                        masks-more is_masked size n_header rx ys e there (take n (drop n_header rx))
                            _,
                        shorter,
                      ))
            ]
      ]
    ]

header_le : (is_masked : Bool) (l : ℕ) → (if is_masked then 4 else 0) + payload_byte_size l ≤ 12
unfolding payload_byte_size
header_le true l = ground arith
header_le false l = ground arith

parse_payload-more :
    (m b1 : ℕ) (rx ys : List ℕ)
    → Settled (length rx) ys (parse_payload m b1 rx) (parse_payload m b1 (rx ++ ys))
unfolding parse_payload cut
parse_payload-more m b1 rx ys =
    let is_masked = not (bit_and b1 128 == 0) in
    let l = bit_and b1 0x7f in
    let size = payload_byte_size l in
    let n_header = (if is_masked then 4 else 0) + size in
    let n = if leb 126 l then payload_number 0 (take size rx) else l in
    elim (Bool-cases (ltb (length rx) n_header)) [
      | inl short ↦ inl (rw short refl)
      | inr header ↦
          let le : n_header ≤ length rx = ground (arith, header) in
          let header_more : ltb (length (rx ++ ys)) n_header ≡ false =
            ground (arith, length-append rx ys, le) in
          let front : take size (rx ++ ys) ≡ take size rx =
            take-append size rx ys (omega (arith, le)) in
          rw (header, header_more, front)
            (cut-more m is_masked size n_header n rx ys refl le (header_le is_masked l))
    ]

-- The result is complete, and what is left is shorter by at least two bytes.
abbrev pub IsShorter : ℕ → Frame → Type 0
IsShorter n incomplete = ⊥
IsShorter n (bad e) = Unit
IsShorter n (frame payload rest) = length rest + 2 ≤ n

shorter_lem : (n : ℕ) (f : Frame) → IsComplete n f → IsShorter (suc (suc n)) f
shorter_lem n incomplete c = c
shorter_lem n (bad e) c = tt
shorter_lem n (frame payload rest) c = omega (arith, c)

-- The first frame is not complete, or it is the same whatever bytes follow.
pub parse_frame-more :
    (m : ℕ) (rx ys : List ℕ)
    → (parse_frame m rx ≡ incomplete)
      ⊎ ((parse_frame m (rx ++ ys) ≡ with_more ys (parse_frame m rx))
          × IsShorter (length rx) (parse_frame m rx))
unfolding parse_frame with_more
parse_frame-more m [] ys = inl refl
parse_frame-more m (b0 ∷ []) ys = inl refl
parse_frame-more m (b0 ∷ b1 ∷ rx) ys = elim (Bool-cases (bit_and b0 128 == 0)) [
  | inl more ↦ inr (rw more (refl, tt))
  | inr final ↦ elim (Bool-cases (bit_and b0 0xf == 2 || bit_and b0 0xf == 1)) [
    | inl is_data ↦ elim (parse_payload-more m b1 rx ys) [
      | inl short ↦ inl (rw (final, is_data) short)
      | inr settled ↦ inr (
          rw (final, is_data)
            (settled.0, shorter_lem (length rx) (parse_payload m b1 rx) settled.1))
    ]
    | inr control ↦ elim (Bool-cases (bit_and b0 0xf == 8)) [
      | inl is_close ↦ inr (rw (final, control, is_close) (refl, tt))
      | inr unknown ↦ inr (rw (final, control, unknown) (refl, tt))
    ]
  ]
]

pub parse_frame-shorter :
    (m : ℕ) (rx payload rest : List ℕ)
    → parse_frame m rx ≡ frame payload rest
    → length rest + 2 ≤ length rx
parse_frame-shorter m rx payload rest e = elim (parse_frame-more m rx []) [
  | inl short ↦ absurd (cc (sym short ∙ e))
  | inr settled ↦ subst (IsShorter (length rx)) e settled.1
]

module _ {ℓ} {S E : Type ℓ} (wsm : Main S E) where
  pub after_payload-ext :
      (next1 next2 : S → Connection S E) (r : S × Option E)
      → ((t : S) → next1 t ≡ next2 t)
      → after_payload next1 r ≡ after_payload next2 r
  unfolding after_payload
  after_payload-ext next1 next2 (s, none) h = h s
  after_payload-ext next1 next2 (s, some e) h = refl

  after_frame-ext :
      (next1 next2 : S → List ℕ → Connection S E) (s : S) (rx : List ℕ) (f : Frame)
      → ((payload rest : List ℕ) → f ≡ frame payload rest → (t : S) → next1 t rest ≡ next2 t rest)
      → after_frame wsm next1 s rx f ≡ after_frame wsm next2 s rx f
  unfolding after_frame
  after_frame-ext next1 next2 s rx incomplete h = refl
  after_frame-ext next1 next2 s rx (bad e) h = refl
  after_frame-ext next1 next2 s rx (frame payload rest) h =
      after_payload-ext (λ t. next1 t rest) (λ t. next2 t rest) (wsm.rx_frame_payload s payload)
        (h payload rest refl)

  -- As many rounds as there are bytes are enough.
  pub parse_frames-fuel :
      (f g : ℕ) (s : S) (rx : List ℕ)
      → length rx ≤ f
      → length rx ≤ g
      → parse_frames wsm f s rx ≡ parse_frames wsm g s rx
  unfolding parse_frames
  parse_frames-fuel zero zero s rx hf hg = refl
  parse_frames-fuel zero (suc g) s rx hf hg =
      rw (length_zero rx hf) (unfold parse_frame after_frame in refl)
  parse_frames-fuel (suc f) zero s rx hf hg =
      rw (length_zero rx hg) (unfold parse_frame after_frame in refl)
  parse_frames-fuel (suc f) (suc g) s rx hf hg =
      let m = wsm.max_n_bytes_in_payload in
      after_frame-ext (parse_frames wsm f) (parse_frames wsm g) s rx (parse_frame m rx)
        (λ payload rest e t.
          let shorter = parse_frame-shorter m rx payload rest e in
          parse_frames-fuel f g t rest (omega (arith, shorter, hf)) (omega (arith, shorter, hg)))
