-- ===== src/Ingest.antt =====
-- The handling of the radio's messages: internal/ingest/service.go. The store and the node directory
-- are the interfaces of the source, over a database `D` and errors `E`; log lines are left out, but
-- for the warnings on encrypted packets.
pub mod Warnings
pub mod Keeps
pub mod Stored
use mesthastic_caltopo_bridg.Prelude.{
  ℕ, ◌+◌, Bool, true, false, ◌&&◌, not, Option, none, some, List, [], ◌∷◌, ◌==◌, if◌then◌else◌,
}
use mesthastic_caltopo_bridg.Prelude.Int.{pos, leb_ℤ}
use mesthastic_caltopo_bridg.Go.Float.{Float64}
use mesthastic_caltopo_bridg.Go.Text.{Text, text_eq, is_empty}
use mesthastic_caltopo_bridg.Go.Time.{Time, minute, sub}
use mesthastic_caltopo_bridg.Model.{Packet, Position}
use mesthastic_caltopo_bridg.Model.NodeId.{node_id}
use mesthastic_caltopo_bridg.Store.Tables.{Result, ok, err}
use mesthastic_caltopo_bridg.Tak.{decode_with_options}
use mesthastic_caltopo_bridg.Tak.Messages.{MeshPacket, Protobuf}
use mesthastic_caltopo_bridg.Tak.Ports.{nodeinfo_app, is_port}

pub record Archiver (D E S F : Type 0) : Type 0 where
  pub archive : Packet S → Option (Position F) → Bool → D → D × Result E (ℕ × ℕ × Bool)

pub record NodeDirectory (D E : Type 0) : Type 0 where
  pub upsert_node : ℕ → Text → Text → D → D × Result E (Unit {0})
  pub node_callsign : ℕ → D → Result E Text

pub record User : Type 0 where
  pub short_name : Text
  pub long_name : Text

pub record NodeInfo : Type 0 where
  pub num : ℕ
  pub user : Option User

-- A `pb.FromRadio`, by what its getters return.
pub record FromRadio (S : Type 0) : Type 0 where
  pub metadata : Option Text
  pub device_role : Option Text
  pub config_complete_id : ℕ
  pub node_info : Option NodeInfo
  pub packet : Option (MeshPacket S)

-- The fields of a `Service` that it does not change; `wakes_worker` says that its function is there.
pub record Settings (D E S F : Type 0) : Type 0 where
  pub archiver : Archiver D E S F
  pub nodes : Option (NodeDirectory D E)
  pub enqueue_caltopo : Bool
  pub decode_position_app : Bool
  pub wakes_worker : Bool

-- What it changes: the database, the time of the last warning, the times of all warnings with the
-- latest first, and how often it woke the worker.
pub record Service (D : Type 0) : Type 0 where
  pub db : D
  pub last_encrypted_log : Time
  pub warnings : List Time
  pub wakes : ℕ

module _ {D : Type 0} where
  unfoldable pub log_encrypted : Time → Service D → Service D
  unfolding sub
  log_encrypted now s =
      if not (leb_ℤ (pos minute) (sub now s.last_encrypted_log))
      then s
      else record s { last_encrypted_log = now; warnings = now ∷ s.warnings }

  module _ {E S F : Type 0} (settings : Settings D E S F) where
    unfoldable pub remember_node : ℕ → Option User → Service D → Service D × Option E
    remember_node node user s = elim settings.nodes [
      | none ↦ (s, none)
      | some directory ↦ elim user [
        | none ↦ (s, none)
        | some u ↦
            let (db, r) = directory.upsert_node node u.short_name u.long_name s.db in
            elim r [ ok _ ↦ (record s { db = db }, none) | err e ↦ (record s { db = db }, some e) ]
      ]
    ]

    -- A position whose callsign is the name of its node gets the node's callsign, if there is one.
    unfoldable pub name_position : Option (Position F) → D → Result E (Option (Position F))
    unfolding node_id text_eq
    name_position none db = ok none
    name_position (some p) db = elim settings.nodes [
      | none ↦ ok (some p)
      | some directory ↦
          if text_eq p.callsign (node_id p.source_node)
          then elim (directory.node_callsign p.source_node db) [
            | err e ↦ err e
            | ok callsign ↦
                ok (some (if is_empty callsign then p else record p { callsign = callsign }))
          ]
          else ok (some p)
    ]

    -- `if position != nil && inserted { … }`
    unfoldable pub wake : Option (Position F) → Bool → Service D → Service D
    wake none inserted s = s
    wake (some p) inserted s =
        if inserted && settings.wakes_worker then record s { wakes = s.wakes + 1 } else s

    unfoldable pub store_packet :
        Time → Packet S → Option (Position F) → Service D → Service D × Option E
    unfolding log_encrypted wake
    store_packet now packet position s =
        let (db, r) = settings.archiver.archive packet position settings.enqueue_caltopo s.db in
        let stored : Service D = record s { db = db } in
        elim r [
          | err e ↦ (stored, some e)
          | ok (packet_id, position_id, inserted) ↦ (
            wake position inserted (if packet.encrypted then log_encrypted now stored else stored),
            none,
          )
        ]

    -- A node's description in a packet; one that cannot be read is passed over.
    unfoldable pub learn_node :
        (Text → Result Text User) → MeshPacket S → Service D → Service D × Option E
    unfolding remember_node
    learn_node unmarshal_user packet s = elim packet.decoded [
      | none ↦ (s, none)
      | some d ↦
          if is_port d.portnum nodeinfo_app
          then elim (unmarshal_user d.payload) [
            | err e ↦ (s, none)
            | ok user ↦ remember_node packet.from (some user) s
          ]
          else (s, none)
    ]

    module _ (float : Float64 F) (proto : Protobuf S)
        (unmarshal_user : Text → Result Text User) where
      -- The rest of a packet, with the times of the receipt and of a warning.
      unfoldable pub archive_packet : Time → Time → MeshPacket S → Service D → Service D × Option E
      unfolding name_position store_packet decode_with_options
      archive_packet received_at now packet s =
          let (r, position) =
            decode_with_options float proto packet received_at settings.decode_position_app in
          elim (name_position position s.db) [
            | err e ↦ (s, some e)
            | ok named ↦ store_packet now r named s
          ]

      unfoldable pub handle_packet : Time → Time → MeshPacket S → Service D → Service D × Option E
      unfolding learn_node archive_packet
      handle_packet received_at now packet s =
          let (s', e) = learn_node unmarshal_user packet s in
          elim e [ some e ↦ (s', some e) | none ↦ archive_packet received_at now packet s' ]

      -- `Handle`: the error, if there is one.
      unfoldable pub handle : Time → Time → FromRadio S → Service D → Service D × Option E
      unfolding handle_packet remember_node
      handle received_at now message s = elim message.metadata [
        | some _ ↦ (s, none)
        | none ↦ elim message.device_role [
          | some _ ↦ (s, none)
          | none ↦
              if not (message.config_complete_id == 0) then (s, none) else elim message.node_info [
                | some info ↦ remember_node info.num info.user s
                | none ↦ elim message.packet [
                  | none ↦ (s, none)
                  | some packet ↦ handle_packet received_at now packet s
                ]
              ]
        ]
      ]
