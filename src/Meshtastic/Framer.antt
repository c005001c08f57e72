-- ===== src/Meshtastic/Framer.antt =====
-- The stream framing of internal/meshtastic/framer.go. A frame on the wire is the two start bytes,
-- the payload's length in two bytes, big end first, and the payload. `Push` takes what a read of
-- the port gave, and returns the payloads that are complete; what is left stays in the buffer.
mod Scan
mod Loop
pub mod Stream
pub mod Wire
pub mod Bounds
use mesthastic_caltopo_bridg.Prelude.{
  ℕ, zero, suc, ◌+◌, ◌*◌, ◌/◌, ◌%◌, ◌&&◌, ◌||◌, Option, none, some, List, [], ◌∷◌, ◌++◌, length,
  take, drop, ltb, ◌==◌, if◌then◌else◌,
}
use mathlib.Core.Option

abbrev pub frame_start1 : ℕ
frame_start1 = 0x94

abbrev pub frame_start2 : ℕ
frame_start2 = 0xc3

abbrev pub max_frame : ℕ
max_frame = 512

-- The one error of the package, with the length that it prints.
pub data FrameError : Type 0 where
  invalid_length : ℕ → FrameError

pub record Framer : Type 0 where
  pub buffer : List ℕ

-- The index that `findStart` returns; `none` is its -1.
unfoldable pub find_start : List ℕ → Option ℕ
find_start [] = none
find_start (b ∷ []) = none
find_start (b ∷ c ∷ r) =
    let rest = find_start (c ∷ r) in
    if b == frame_start1 && c == frame_start2 then some 0 else Option.map suc rest

-- What stays of a buffer with no start in it: its last byte, if that may begin one.
unfoldable pub keep_last : List ℕ → List ℕ
keep_last [] = []
keep_last (b ∷ []) = if b == frame_start1 then b ∷ [] else []
keep_last (b ∷ c ∷ r) = keep_last (c ∷ r)

-- What one round of the loop of `Push` does: it returns, leaving a buffer; it drops a byte after
-- an invalid length; or it takes a frame off the buffer.
pub data Round : Type 0 where
  done : List ℕ → Round
  invalid : ℕ → List ℕ → Round
  framed : List ℕ → List ℕ → Round

-- The part of a round after `buffer = buffer[start:]`, by the bytes of the header.
unfoldable pub parse_frame : List ℕ → Round
parse_frame [] = done []
parse_frame (b ∷ []) = done (b ∷ [])
parse_frame (b ∷ c ∷ []) = done (b ∷ c ∷ [])
parse_frame (b ∷ c ∷ d ∷ []) = done (b ∷ c ∷ d ∷ [])
parse_frame (b ∷ c ∷ d ∷ e ∷ r) =
    let size = d * 256 + e in
    if size == 0 || ltb max_frame size
    then invalid size (c ∷ d ∷ e ∷ r)
    else if ltb (length r) size
    then done (b ∷ c ∷ d ∷ e ∷ r)
    else framed (take size r) (drop size r)

unfoldable pub round : List ℕ → Round
unfolding find_start keep_last parse_frame
round buffer = elim (find_start buffer) [
  | none ↦ done (keep_last buffer)
  | some start ↦ parse_frame (drop start buffer)
]

-- The buffer, the frames and the errors when the loop returns.
abbrev pub Pushed : Type 0
Pushed = Framer × List (List ℕ) × List FrameError

-- The loop of `Push`, with the frames and errors so far; `none` means that the fuel ran out.
unfoldable pub push_loop : ℕ → List ℕ → List (List ℕ) → List FrameError → Option Pushed
push_loop zero buffer frames errs = none
push_loop (suc fuel) buffer frames errs = elim (round buffer) [
  | done rest ↦ some (record { buffer = rest }, frames, errs)
  | invalid size rest ↦ push_loop fuel rest frames (errs ++ invalid_length size ∷ [])
  | framed frame rest ↦ push_loop fuel rest (frames ++ frame ∷ []) errs
]

-- Each round but the last takes a byte or more off the buffer.
unfoldable pub push : Framer → List ℕ → Option Pushed
unfolding push_loop round
push f chunk = let buffer = f.buffer ++ chunk in push_loop (suc (length buffer)) buffer [] []

pub data Encoded : Type 0 where
  ok : List ℕ → Encoded
  err : FrameError → Encoded

-- `binary.BigEndian.PutUint16` of `uint16(size)`.
unfoldable pub put_uint16 : ℕ → List ℕ
put_uint16 size = let v = size % 65536 in (v / 256) ∷ (v % 256) ∷ []

unfoldable pub encode_frame : List ℕ → Encoded
unfolding put_uint16
encode_frame payload =
    let size = length payload in
    if size == 0 || ltb max_frame size
    then err (invalid_length size)
    else ok (frame_start1 ∷ frame_start2 ∷ put_uint16 size ++ payload)
