-- ===== src/Tak/Fixes.antt =====
-- The positions that the decoder makes: internal/tak/decoder.go.
use mesthastic_caltopo_bridg.Prelude.{
  Bool, false, ◌&&◌, ◌≡◌, refl, inl, inr, Option, none, some, [], ◌∷◌, ◌++◌, Bool-cases,
}
use mesthastic_caltopo_bridg.Go.Float.{Float64}
use mesthastic_caltopo_bridg.Go.Text.{Text, text, is_empty}
use mesthastic_caltopo_bridg.Model.{Packet, Position}
use mesthastic_caltopo_bridg.Model.NodeId.{node_id}
use mesthastic_caltopo_bridg.Store.Tables.{Result, ok, err}
use mesthastic_caltopo_bridg.Tak.{
  Decoding, located, no_position, malformed, outside, new_position, int_is_zero, with_report,
  decode_report, decode_position_app, with_pli, decode_callsigns, decode_pli, decode_tak,
  decode_legacy,
}
use mesthastic_caltopo_bridg.Tak.Messages.{MeshPosition, Pli, TakPacket, Protobuf}

-- A position of that packet: in the range of the coordinates, and with a callsign.
abbrev pub IsFix : {S F : Type 0} → Float64 F → Packet S → Position F → Type 0
IsFix float packet p =
    (outside float p.latitude 89 ≡ false)
    × (outside float p.longitude 179 ≡ false)
    × (is_empty p.callsign ≡ false)
    × (p.source_node ≡ packet.from)
    × (p.mesh_packet_id ≡ packet.mesh_packet_id)
    × (p.source_port ≡ packet.port)
    × (p.received_at ≡ packet.received_at)

module _ {S F : Type 0} (float : Float64 F) where
  unfoldable pub Fixes : Packet S → Decoding F → Type 0
  Fixes packet (located p b) = IsFix float packet p
  Fixes packet no_position = Unit
  Fixes packet (malformed e) = Unit

  Places : Packet S → Result Text (Position F) → Type 0
  Places packet (ok p) = IsFix float packet p
  Places packet (err e) = Unit

  new_position-Places :
      (packet : Packet S) (x y : F) → Places packet (new_position float packet x y)
  unfolding new_position Places node_id
  new_position-Places packet x y = elim (Bool-cases (outside float x 89)) [
    | inl bad ↦ rw bad tt
    | inr h ↦ elim (Bool-cases (outside float y 179)) [
      | inl bad ↦ rw (h, bad) tt
      | inr h' ↦ rw (h, h') (h, h', refl, refl, refl, refl, refl)
    ]
  ]

  module _ (proto : Protobuf S) where
    report-Fixes :
        (packet : Packet S) (m : MeshPosition) (r : Result Text (Position F))
        → Places packet r
        → Fixes packet
            (elim r [ err e ↦ malformed e | ok p ↦ located (with_report float proto m p) false ])
    unfolding Places Fixes
    report-Fixes packet m (err e) h = tt
    report-Fixes packet m (ok p) h = h

    pli-Fixes :
        (packet : Packet S) (pli : Pli) (names : Text × Text × Bool) (r : Result Text (Position F))
        → Places packet r
        → Fixes packet (elim r [
          | err e ↦ malformed e
          | ok p ↦ located (with_pli float proto packet pli names p) names.2
        ])
    unfolding Places Fixes node_id
    pli-Fixes packet pli names (err e) h = tt
    pli-Fixes packet pli ([], d, u) (ok p) h = (h.0, h.1, refl, h.3, h.4, h.5, h.6)
    pli-Fixes packet pli (c ∷ cs, d, u) (ok p) h = (h.0, h.1, refl, h.3, h.4, h.5, h.6)

    decode_report-Fixes :
        (packet : Packet S) (m : MeshPosition) → Fixes packet (decode_report float proto packet m)
    unfolding decode_report Fixes
    decode_report-Fixes packet m =
        elim (Bool-cases (int_is_zero m.latitude_i && int_is_zero m.longitude_i)) [
          | inl zero ↦ rw zero tt
          | inr h ↦ rw h (
              report-Fixes packet m
                (new_position float packet (float.degrees m.latitude_i)
                  (float.degrees m.longitude_i))
                (new_position-Places packet (float.degrees m.latitude_i)
                  (float.degrees m.longitude_i)))
        ]

    pub decode_position_app-Fixes :
        (packet : Packet S) (payload : Text)
        → Fixes packet (decode_position_app float proto packet payload)
    unfolding decode_position_app Fixes
    decode_position_app-Fixes packet payload = after (proto.unmarshal_position payload)
      where
        after :
            (r : Result Text MeshPosition)
            → Fixes packet (elim r [
              | err e ↦ malformed (text "decode Meshtastic position: " ++ e)
              | ok m ↦ decode_report float proto packet m
            ])
        after (err e) = tt
        after (ok m) = decode_report-Fixes packet m

    decode_tak-Fixes :
        (packet : Packet S) (tak : TakPacket) (pli : Option Pli)
        → Fixes packet
            (elim pli [ none ↦ no_position | some p ↦ decode_pli float proto packet tak p ])
    unfolding Fixes decode_pli
    decode_tak-Fixes packet tak none = tt
    decode_tak-Fixes packet tak (some p) =
        pli-Fixes packet p (decode_callsigns tak.contact tak.is_compressed)
          (new_position float packet (float.degrees p.latitude_i) (float.degrees p.longitude_i))
          (new_position-Places packet (float.degrees p.latitude_i) (float.degrees p.longitude_i))

    pub decode_legacy-Fixes :
        (packet : Packet S) (payload : Text)
        → Fixes packet (decode_legacy float proto packet payload)
    unfolding decode_legacy decode_tak Fixes
    decode_legacy-Fixes packet payload = after (proto.unmarshal_tak payload)
      where
        after :
            (r : Result Text TakPacket)
            → Fixes packet (elim r [
              | err e ↦ malformed (text "decode legacy TAK packet: " ++ e)
              | ok m ↦ decode_tak float proto packet m
            ])
        after (err e) = tt
        after (ok m) = decode_tak-Fixes packet m m.pli
