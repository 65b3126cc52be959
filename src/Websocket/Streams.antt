-- ===== src/Websocket/Streams.antt =====
-- A stream of frames: what the application sees of it, and what closes a connection of
-- uclib/websocket.c.
use uclib.Base.{
  ℕ, suc, ◌%◌, ◌^◌, ◌≤◌, ◌<◌, ◌≡◌, refl, ◌∙◌, ap, Bool, List, [], ◌∷◌, ◌++◌, append_assoc, arith,
  ltb, ◌==◌, ◌||◌, if◌then◌else◌, length, Option, none, some,
}
use uclib.Websocket.{
  Main, Frame, incomplete, bad, frame, FrameError, fragmentation, close_received, unknown_opcode,
  frame_error, Connection, open_with, closed, parse_frame, parse_frames, parse_rx_frame,
  after_frame, after_payload,
}
use uclib.Websocket.Header.{flag_lem, low_four}
use uclib.Websocket.Frames.{peer_frame, parse_frame-peer}
use uclib.Websocket.Loop.{parse_frames-fuel, parse_frame-shorter, after_payload-ext}

-- A frame of a peer.
pub record Sent : Type 0 where
  pub is_binary : Bool
  pub mask : List ℕ
  pub payload : List ℕ

-- The bytes of frames.
unfoldable pub stream : List Sent → List ℕ
stream [] = []
stream (f ∷ fs) = peer_frame f.is_binary f.mask f.payload ++ stream fs

-- Masks have four bytes, and payloads at most `m` and fewer than 2 ^ 31.
abbrev pub AllFit : ℕ → List Sent → Type 0
AllFit m [] = Unit
AllFit m (f ∷ fs) =
    ((length f.mask ≡ 4) × (length f.payload ≤ m) × (length f.payload < 2 ^ 31)) × AllFit m fs

-- Why a first byte is refused: it is not the last fragment, or neither text nor data.
unfoldable pub refusal : ℕ → Option FrameError
refusal b0 =
    if ltb b0 128
    then some (fragmentation b0)
    else if b0 % 16 == 8
    then some close_received
    else if b0 % 16 == 1 || b0 % 16 == 2
    then none
    else some (unknown_opcode b0)

parse_frame-refused :
    (m b0 b1 : ℕ) (rest : List ℕ) (e : FrameError)
    → b0 < 256
    → refusal b0 ≡ some e
    → parse_frame m (b0 ∷ b1 ∷ rest) ≡ bad e
unfolding parse_frame refusal
parse_frame-refused m b0 b1 rest e byte refused =
    rw (flag_lem b0 byte, low_four b0) (ground (arith, refused))

module _ {ℓ} {S E : Type ℓ} (wsm : Main S E) where
  -- The payloads are handed to the callback one after the other, until it refuses one.
  unfoldable pub deliver : (S → Connection S E) → S → List Sent → Connection S E
  deliver next s [] = next s
  deliver next s (f ∷ fs) =
      after_payload (λ t. deliver next t fs) (wsm.rx_frame_payload s f.payload)

  parse-frame :
      (s : S) (rx payload rest : List ℕ)
      → parse_frame wsm.max_n_bytes_in_payload rx ≡ frame payload rest
      → parse_rx_frame wsm s rx
        ≡ after_payload (λ t. parse_rx_frame wsm t rest) (wsm.rx_frame_payload s payload)
  unfolding parse_rx_frame
  parse-frame s rx payload rest e =
      let n = length rx in
      parse_frames-fuel wsm n (suc n) s rx (omega arith) (omega arith)
      ∙ (unfold parse_frames in
          ap (after_frame wsm (parse_frames wsm n) s rx) e
          ∙ unfold after_frame in
            after_payload-ext wsm (λ t. parse_frames wsm n t rest)
              (λ t. parse_frames wsm (length rest) t rest) (wsm.rx_frame_payload s payload)
              (λ t.
                parse_frames-fuel wsm n (length rest) t rest
                  (omega (arith, parse_frame-shorter wsm.max_n_bytes_in_payload rx payload rest e))
                  (omega arith)))

  -- Frames, and then what follows them.
  parse_rx_frame-deliver :
      (fs : List Sent) (s : S) (rest : List ℕ)
      → AllFit wsm.max_n_bytes_in_payload fs
      → parse_rx_frame wsm s (stream fs ++ rest) ≡ deliver (λ t. parse_rx_frame wsm t rest) s fs
  unfolding stream deliver
  parse_rx_frame-deliver [] s rest fit = refl
  parse_rx_frame-deliver (f ∷ fs) s rest fit =
      let m = wsm.max_n_bytes_in_payload in
      ap (parse_rx_frame wsm s)
        (append_assoc (peer_frame f.is_binary f.mask f.payload) (stream fs) rest)
      ∙ (parse-frame s _ f.payload (stream fs ++ rest) (
            parse_frame-peer m f.is_binary f.mask f.payload (stream fs ++ rest) fit.0.0 fit.0.1
              fit.0.2)
          ∙ after_payload-ext wsm (λ t. parse_rx_frame wsm t (stream fs ++ rest))
              (λ t. deliver (λ u. parse_rx_frame wsm u rest) t fs)
              (wsm.rx_frame_payload s f.payload) (λ t. parse_rx_frame-deliver fs t rest fit.1))

  deliver-ext :
      (next1 next2 : S → Connection S E)
      → ((t : S) → next1 t ≡ next2 t)
      → (fs : List Sent) (s : S) → deliver next1 s fs ≡ deliver next2 s fs
  unfolding deliver
  deliver-ext next1 next2 h [] s = h s
  deliver-ext next1 next2 h (f ∷ fs) s =
      after_payload-ext wsm (λ t. deliver next1 t fs) (λ t. deliver next2 t fs)
        (wsm.rx_frame_payload s f.payload) (deliver-ext next1 next2 h fs)

  closes :
      (t : S) (rx : List ℕ) (e : FrameError)
      → parse_frame wsm.max_n_bytes_in_payload rx ≡ bad e
      → parse_rx_frame wsm t rx ≡ closed t (frame_error e)
  unfolding parse_rx_frame
  closes t [] e h =
      let less : ◌≡◌ {A = Frame} incomplete (bad e) = unfold parse_frame in h in absurd cc
  closes t (b ∷ rx) e h =
      unfold parse_frames in
      ap (after_frame wsm (parse_frames wsm (length rx)) t (b ∷ rx)) h ∙ unfold after_frame in refl

  waits :
      (t : S) (rx : List ℕ)
      → parse_frame wsm.max_n_bytes_in_payload rx ≡ incomplete
      → parse_rx_frame wsm t rx ≡ open_with t rx
  unfolding parse_rx_frame
  waits t [] h = unfold parse_frames in refl
  waits t (b ∷ rx) h =
      unfold parse_frames in
      ap (after_frame wsm (parse_frames wsm (length rx)) t (b ∷ rx)) h ∙ unfold after_frame in refl

  -- What comes of the bytes in a buffer, by the first frame of them: they wait in it where they are
  -- less than a frame.
  unfoldable pub follow : S → List ℕ → Frame → Connection S E
  follow s rest incomplete = open_with s rest
  follow s rest (bad e) = closed s (frame_error e)
  follow s rest (frame payload more) =
      after_payload (λ t. parse_rx_frame wsm t more) (wsm.rx_frame_payload s payload)

  follow_lem :
      (s : S) (rest : List ℕ) (f : Frame)
      → parse_frame wsm.max_n_bytes_in_payload rest ≡ f
      → parse_rx_frame wsm s rest ≡ follow s rest f
  unfolding follow
  follow_lem s rest incomplete e = waits s rest e
  follow_lem s rest (bad x) e = closes s rest x e
  follow_lem s rest (frame payload more) e = parse-frame s rest payload more e

  -- Frames of a peer, with any masks, and what follows them: the payloads are handed on in their
  -- order, until one is refused. If none is, what follows stays in the buffer where it is less than a
  -- frame, closes the connection where it is no frame, and otherwise has its payload handed on in turn
  -- and is read on. Payloads have at most `max_n_bytes_in_payload` and fewer than 2 ^ 31 bytes.
  pub parse_rx_frame-stream :
      (fs : List Sent) (s : S) (rest : List ℕ)
      → AllFit wsm.max_n_bytes_in_payload fs
      → parse_rx_frame wsm s (stream fs ++ rest)
        ≡ deliver (λ t. follow t rest (parse_frame wsm.max_n_bytes_in_payload rest)) s fs
  parse_rx_frame-stream fs s rest fit =
      parse_rx_frame-deliver fs s rest fit
      ∙ deliver-ext (λ t. parse_rx_frame wsm t rest)
          (λ t. follow t rest (parse_frame wsm.max_n_bytes_in_payload rest))
          (λ t. follow_lem t rest (parse_frame wsm.max_n_bytes_in_payload rest) refl) fs s

  -- Frames of a peer, then a byte that starts no frame that is supported, and at least one byte more:
  -- the payloads before it are handed on, and if none is refused, the connection is closed with the
  -- error for that byte, whatever follows.
  pub parse_rx_frame-refused :
      (fs : List Sent) (s : S) (b0 b1 : ℕ) (rest : List ℕ) (e : FrameError)
      → AllFit wsm.max_n_bytes_in_payload fs
      → b0 < 256
      → refusal b0 ≡ some e
      → parse_rx_frame wsm s (stream fs ++ b0 ∷ b1 ∷ rest)
        ≡ deliver (λ t. closed t (frame_error e)) s fs
  parse_rx_frame-refused fs s b0 b1 rest e fit byte refused =
      let m = wsm.max_n_bytes_in_payload in
      parse_rx_frame-deliver fs s (b0 ∷ b1 ∷ rest) fit
      ∙ deliver-ext (λ t. parse_rx_frame wsm t (b0 ∷ b1 ∷ rest)) (λ t. closed t (frame_error e))
          (λ t. closes t (b0 ∷ b1 ∷ rest) e (parse_frame-refused m b0 b1 rest e byte refused)) fs s
