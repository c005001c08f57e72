-- ===== src/Meshtastic/Framer/Wire.antt =====
-- `EncodeFrame` against `Push`.
use mesthastic_caltopo_bridg.Prelude.{
  ℕ, zero, suc, ◌<◌, ◌≡◌, ◌≢◌, ◌⊎◌, refl, ◌∙◌, some, List, [], ◌∷◌, ◌++◌, length, arith,
  append_assoc, append-nil, length-append, take-length, drop-length, All,
}
use mesthastic_caltopo_bridg.Meshtastic.Framer.{
  invalid_length, Framer, frame_start1, max_frame, framed, done, parse_frame, push_loop, push, ok,
  err, encode_frame,
}
use mesthastic_caltopo_bridg.Meshtastic.Framer.Scan.{scan, scan-skip}
use mesthastic_caltopo_bridg.Meshtastic.Framer.Loop.{push_loop-suc, after_round}

abbrev pub empty : Framer
empty = record { buffer = [] }

-- Bytes none of which may begin a frame.
abbrev pub IsNoise : List ℕ → Type 0
IsNoise = All (λ b. b ≢ frame_start1)

-- A sent stream: before each frame, bytes that belong to none.
pub record Segment : Type 0 where
  pub noise : List ℕ
  pub payload : List ℕ
  pub frame : List ℕ

-- The noise has no start byte, and the frame is what `EncodeFrame` made of the payload.
pub record IsSent (s : Segment) : Type 0 where
  pub quiet : IsNoise s.noise
  pub encoded : encode_frame s.payload ≡ ok s.frame

abbrev pub wire : List Segment → List ℕ → List ℕ
wire [] tail = tail
wire (s ∷ ss) tail = s.noise ++ (s.frame ++ wire ss tail)

abbrev pub payloads : List Segment → List (List ℕ)
payloads [] = []
payloads (s ∷ ss) = s.payload ∷ payloads ss

-- `EncodeFrame` refuses exactly the lengths that `Push` refuses.
pub encode_frame-fails :
    (payload : List ℕ)
    → (length payload ≡ 0) ⊎ (max_frame < length payload)
    → encode_frame payload ≡ err (invalid_length (length payload))
unfolding encode_frame
encode_frame-fails payload h = ground arith

scan-noise : (noise more : List ℕ) → IsNoise noise → scan (noise ++ more) ≡ scan more
scan-noise [] more h = refl
scan-noise (b ∷ noise) more h =
    scan-skip b (noise ++ more) (ground arith) ∙ scan-noise noise more h.1

scan-frame :
    (payload frame more : List ℕ)
    → encode_frame payload ≡ ok frame
    → scan (frame ++ more) ≡ framed payload more
unfolding encode_frame scan parse_frame
scan-frame payload frame more h =
    ground (arith, take-length payload more, drop-length payload more, length-append payload more)

scan-tail : (tail : List ℕ) → IsNoise tail → scan tail ≡ done []
unfolding scan
scan-tail tail h = rw (append-nil tail) at (scan-noise tail [] h)

encode_frame-pos : (payload frame : List ℕ) → encode_frame payload ≡ ok frame → 0 < length frame
unfolding encode_frame
encode_frame-pos payload frame h = ground arith

wire-shorter :
    (s : Segment) (rest : List ℕ) → IsSent s → length rest < length (s.noise ++ (s.frame ++ rest))
wire-shorter s rest sent = omega (
  arith,
  length-append s.noise (s.frame ++ rest),
  length-append s.frame rest,
  encode_frame-pos s.payload s.frame sent.encoded,
)

push_loop-wire :
    (ss : List Segment) (tail : List ℕ) (fuel : ℕ) (frames : List (List ℕ))
    → All IsSent ss
    → IsNoise tail
    → length (wire ss tail) < fuel
    → push_loop fuel (wire ss tail) frames [] ≡ some (empty, frames ++ payloads ss, [])
unfolding after_round
push_loop-wire ss tail zero frames sent quiet h = absurd (omega arith)
push_loop-wire [] tail (suc fuel) frames sent quiet h =
    rw (push_loop-suc, scan-tail tail quiet, append-nil) refl
push_loop-wire (s ∷ ss) tail (suc fuel) frames sent quiet h =
    rw
      (
        push_loop-suc,
        scan-noise s.noise (s.frame ++ wire ss tail) sent.0.quiet,
        scan-frame s.payload s.frame (wire ss tail) sent.0.encoded,
      )
      (push_loop-wire ss tail fuel (frames ++ s.payload ∷ []) sent.1 quiet
          (omega (arith, wire-shorter s (wire ss tail) sent.0))
        ∙ rw append_assoc)

-- Frames that `EncodeFrame` made, with noise before, between and after them, are all received, in
-- order, unchanged and with no error, and nothing of the stream stays in the buffer. Noise is bytes
-- other than 0x94, the first byte of a frame.
pub push-wire :
    (ss : List Segment) (tail : List ℕ)
    → All IsSent ss
    → IsNoise tail
    → push empty (wire ss tail) ≡ some (empty, payloads ss, [])
unfolding push
push-wire ss tail sent quiet =
    push_loop-wire ss tail (suc (length (wire ss tail))) [] sent quiet (omega arith)
