-- ===== src/Scenarios/Framing.antt =====
-- The theorems on the framer, on concrete streams.
use mesthastic_caltopo_bridg.Prelude.{
  ◌+◌, ◌≡◌, ◌<◌, refl, arith, All, some, List, [], ◌∷◌, ◌++◌, length,
}
use mesthastic_caltopo_bridg.Meshtastic.Framer.{
  invalid_length, Pushed, max_frame, push, encode_frame, put_uint16,
}
use mesthastic_caltopo_bridg.Meshtastic.Framer.Stream.{then_push, push-append, push_returns}
use mesthastic_caltopo_bridg.Meshtastic.Framer.Wire.{
  Segment, IsSent, empty, wire, payloads, push-wire,
}
use mesthastic_caltopo_bridg.Meshtastic.Framer.Bounds.{FitsFrame, IsRefused, push-Sized}

-- Two frames, the first behind a byte of noise.
abbrev pub sent : List Segment
sent =
    record { noise = 0x41 ∷ []; payload = 1 ∷ 2 ∷ []; frame = 0x94 ∷ 0xc3 ∷ 0 ∷ 2 ∷ 1 ∷ 2 ∷ [] }
    ∷ record { noise = []; payload = 0x94 ∷ []; frame = 0x94 ∷ 0xc3 ∷ 0 ∷ 1 ∷ 0x94 ∷ [] }
    ∷ []

pub sent-IsSent : All IsSent sent
unfolding encode_frame put_uint16
sent-IsSent = (
  record { quiet = ((λ e. omega arith), tt); encoded = refl },
  (record { quiet = tt; encoded = refl }, tt),
)

push-wire_example : push empty (wire sent (0x42 ∷ [])) ≡ some (empty, payloads sent, [])
push-wire_example = push-wire sent (0x42 ∷ []) sent-IsSent ((λ e. omega arith), tt)

-- A frame that two reads bring.
push-append_example :
    push empty ((0x94 ∷ 0xc3 ∷ 0 ∷ []) ++ (1 ∷ 5 ∷ []))
    ≡ then_push (1 ∷ 5 ∷ []) (push empty (0x94 ∷ 0xc3 ∷ 0 ∷ []))
push-append_example = push-append empty (0x94 ∷ 0xc3 ∷ 0 ∷ []) (1 ∷ 5 ∷ [])

push_returns_example :
    (x : Pushed) × (push empty (0x94 ∷ 0xc3 ∷ 0 ∷ []) ≡ some x)
    × (length x.0.buffer < max_frame + 4)
push_returns_example = push_returns empty (0x94 ∷ 0xc3 ∷ 0 ∷ [])

-- A length of zero, and a frame behind it.
one_each :
    push empty (0x94 ∷ 0xc3 ∷ 0 ∷ 0 ∷ 0x94 ∷ 0xc3 ∷ 0 ∷ 1 ∷ 5 ∷ [])
    ≡ some (empty, (5 ∷ []) ∷ [], invalid_length 0 ∷ [])
unfolding push
one_each = refl

push-Sized_example : All FitsFrame ((5 ∷ []) ∷ []) × All IsRefused (invalid_length 0 ∷ [])
push-Sized_example =
    push-Sized empty empty (0x94 ∷ 0xc3 ∷ 0 ∷ 0 ∷ 0x94 ∷ 0xc3 ∷ 0 ∷ 1 ∷ 5 ∷ []) ((5 ∷ []) ∷ [])
      (invalid_length 0 ∷ []) one_each
