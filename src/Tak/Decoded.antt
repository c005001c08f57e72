-- ===== src/Tak/Decoded.antt =====
-- What the decoder returns: which packets give a position, and what holds of it.
use mesthastic_caltopo_bridg.Prelude.{
  Bool, true, false, ◌≡◌, refl, ◌⊎◌, inl, inr, Option, none, some, [], Bool-cases, if◌then◌else◌,
}
use Prim.Native.String.{String}
use mesthastic_caltopo_bridg.Prelude.Int.{ℤ}
use mesthastic_caltopo_bridg.Go.Float.{Float64}
use mesthastic_caltopo_bridg.Go.Text.{Text, text, text_eq}
use mesthastic_caltopo_bridg.Go.Time.{Time}
use mesthastic_caltopo_bridg.Model.{Packet, Position}
use mesthastic_caltopo_bridg.Store.Tables.{Result, ok, err}
use mesthastic_caltopo_bridg.Tak.Ports.{
  position_app, atak_plugin, atak_plugin_v2, atak_forwarder, is_port,
}
use mesthastic_caltopo_bridg.Tak.{
  Decoding, located, no_position, malformed, decode_position_app, decode_legacy, new_record,
  finish_decoding, decode_data, decode_payload, decode_with_options,
}
use mesthastic_caltopo_bridg.Tak.Messages.{Data, MeshPacket, Protobuf}
use mesthastic_caltopo_bridg.Tak.Fixes.{
  IsFix, Fixes, decode_position_app-Fixes, decode_legacy-Fixes,
}

module _ {S F : Type 0} (float : Float64 F) where
  -- The record is that of the message, and its status says whether there is a position.
  pub IsDecoded : MeshPacket S → Packet S × Option (Position F) → Type 0
  IsDecoded m (r, none) =
      (r.from ≡ m.from)
      × (r.mesh_packet_id ≡ m.id)
      × (text_eq r.parse_status (text "position") ≡ false)
      × (text_eq r.parse_status (text "tak_callsign_undecodable") ≡ false)
  IsDecoded m (r, some p) =
      (r.from ≡ m.from)
      × (r.mesh_packet_id ≡ m.id)
      × ((r.parse_status ≡ text "position") ⊎ (r.parse_status ≡ text "tak_callsign_undecodable"))
      × IsFix float r p

  module _ (proto : Protobuf S) where
    -- With the status that the port gives to a payload that has no position.
    finish_decoding-IsDecoded :
        (m : MeshPacket S) (r : Packet S) (absent undecodable : String) (d : Decoding F)
        → r.from ≡ m.from
        → r.mesh_packet_id ≡ m.id
        → text_eq (text absent) (text "position") ≡ false
        → text_eq (text absent) (text "tak_callsign_undecodable") ≡ false
        → (text undecodable ≡ text "position")
          ⊎ (text undecodable ≡ text "tak_callsign_undecodable")
        → Fixes float r d
        → IsDecoded m (finish_decoding float proto r absent undecodable d)
    unfolding finish_decoding IsDecoded Fixes text_eq
    finish_decoding-IsDecoded m r absent undecodable no_position hf hi ha ha' hu h =
        (hf, hi, ha, ha')
    finish_decoding-IsDecoded m r absent undecodable (malformed e) hf hi ha ha' hu h =
        (hf, hi, refl, refl)
    finish_decoding-IsDecoded m r absent undecodable (located p true) hf hi ha ha' hu h =
        (hf, hi, hu, h)
    finish_decoding-IsDecoded m r absent undecodable (located p false) hf hi ha ha' hu h =
        (hf, hi, inl refl, h)

    -- A status of a payload that is not looked at.
    unread-IsDecoded :
        (m : MeshPacket S) (r : Packet S) (status : String)
        → r.from ≡ m.from
        → r.mesh_packet_id ≡ m.id
        → text_eq (text status) (text "position") ≡ false
        → text_eq (text status) (text "tak_callsign_undecodable") ≡ false
        → IsDecoded m ((record r { parse_status = text status }), none)
    unfolding IsDecoded
    unread-IsDecoded m r status hf hi h h' = (hf, hi, h, h')

    decode_data-IsDecoded :
        (m : MeshPacket S) (r : Packet S) (portnum : ℤ) (payload : Text) (decode_app : Bool)
        → r.from ≡ m.from
        → r.mesh_packet_id ≡ m.id
        → IsDecoded m (decode_data float proto r portnum payload decode_app)
    unfolding decode_data text_eq
    decode_data-IsDecoded m r portnum payload decode_app hf hi =
        elim (Bool-cases (is_port portnum position_app)) [
          | inl app ↦ rw app (report decode_app)
          | inr no_app ↦ elim (Bool-cases (is_port portnum atak_plugin)) [
            | inl legacy ↦
                rw (no_app, legacy)
                  (finish_decoding-IsDecoded m r "tak_non_position" "tak_callsign_undecodable"
                    (decode_legacy float proto r payload) hf hi refl refl (inr refl)
                    (decode_legacy-Fixes float proto r payload))
            | inr no_legacy ↦ elim (Bool-cases (is_port portnum atak_plugin_v2)) [
              | inl v2 ↦
                  rw (no_app, no_legacy, v2)
                    (unread-IsDecoded m r "unsupported_atak_v2" hf hi refl refl)
              | inr no_v2 ↦ elim (Bool-cases (is_port portnum atak_forwarder)) [
                | inl forwarder ↦
                    rw (no_app, no_legacy, no_v2, forwarder)
                      (unread-IsDecoded m r "unsupported_atak_forwarder" hf hi refl refl)
                | inr other ↦
                    rw (no_app, no_legacy, no_v2, other)
                      (unread-IsDecoded m r "non_tak" hf hi refl refl)
              ]
            ]
          ]
        ]
      where
        report :
            (b : Bool)
            → IsDecoded m (
                if b
                then finish_decoding float proto r "position_no_fix" "position"
                    (decode_position_app float proto r payload)
                else (record r { parse_status = text "position_app_disabled" }, none))
        report true =
            finish_decoding-IsDecoded m r "position_no_fix" "position"
              (decode_position_app float proto r payload) hf hi refl refl (inl refl)
              (decode_position_app-Fixes float proto r payload)
        report false = unread-IsDecoded m r "position_app_disabled" hf hi refl refl

    -- The record is of the sender and with the id of the message. Its status is "position" or
    -- "tak_callsign_undecodable" if there is a position, and neither of them if there is none. A
    -- position is in the range of the coordinates, has a callsign, and is of the record's node, mesh
    -- id, port and receipt.
    pub decode_with_options-IsDecoded :
        (m : MeshPacket S) (received_at : Time) (decode_app : Bool)
        → IsDecoded m (decode_with_options float proto m received_at decode_app)
    unfolding decode_with_options new_record decode_payload text_eq
    decode_with_options-IsDecoded m received_at decode_app = after (proto.marshal m) m.decoded
      where
        payload :
            (r : Packet S) (d : Option Data)
            → r.from ≡ m.from
            → r.mesh_packet_id ≡ m.id
            → IsDecoded m (elim d [
              | none ↦ (
                record r {
                  encrypted = true;
                  raw_payload = m.encrypted;
                  parse_status = text "encrypted";
                },
                none,
              )
              | some d ↦
                  decode_data float proto
                    (record r { port = d.portnum; raw_payload = d.payload })
                    d.portnum
                    d.payload
                    decode_app
            ])
        payload r none hf hi =
            unread-IsDecoded m (record r { encrypted = true; raw_payload = m.encrypted })
              "encrypted" hf hi refl refl
        payload r (some d) hf hi =
            decode_data-IsDecoded m (record r { port = d.portnum; raw_payload = d.payload })
              d.portnum d.payload decode_app hf hi

        after :
            (raw : Result Text Text) (d : Option Data)
            → IsDecoded m (elim raw [
              | err e ↦ (
                record (new_record float proto m received_at []) {
                  parse_status = text "invalid_packet";
                  parse_error = e;
                },
                none,
              )
              | ok raw ↦
                  decode_payload float proto m (new_record float proto m received_at raw) decode_app
            ])
        after (err e) d =
            unread-IsDecoded m
              (record (new_record float proto m received_at []) { parse_error = e })
              "invalid_packet" refl refl refl refl
        after (ok raw) d = payload (new_record float proto m received_at raw) m.decoded refl refl
