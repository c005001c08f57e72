-- ===== src/Ingest/Keeps.antt =====
-- The two ways in which a message changes the service: by the node directory and by the archive.
use mesthastic_caltopo_bridg.Prelude.{
  Bool, true, false, Option, none, some, ◌==◌, not, if◌then◌else◌, ℕ,
}
use mesthastic_caltopo_bridg.Go.Float.{Float64}
use mesthastic_caltopo_bridg.Go.Text.{Text}
use mesthastic_caltopo_bridg.Go.Time.{Time}
use mesthastic_caltopo_bridg.Model.{Packet, Position}
use mesthastic_caltopo_bridg.Store.Tables.{Result, ok, err}
use mesthastic_caltopo_bridg.Tak.{decode_with_options}
use mesthastic_caltopo_bridg.Tak.Messages.{Data, MeshPacket, Protobuf}
use mesthastic_caltopo_bridg.Tak.Ports.{nodeinfo_app, is_port}
use mesthastic_caltopo_bridg.Ingest.{
  User, NodeInfo, FromRadio, Settings, Service, remember_node, name_position, store_packet,
  learn_node, archive_packet, handle_packet, handle,
}

module _ {D E S F : Type 0} (settings : Settings D E S F) (Q : Service D → Type 0) where
  pub record Keeps : Type 0 where
    pub remembers :
        (node : ℕ) (user : Option User) (s : Service D)
        → Q s
        → Q (remember_node settings node user s).0
    pub stores :
        (now : Time) (packet : Packet S) (position : Option (Position F)) (s : Service D)
        → Q s
        → Q (store_packet settings now packet position s).0

  module _ (keeps : Keeps) (float : Float64 F) (proto : Protobuf S)
      (unmarshal_user : Text → Result Text User) where
    learn_node-keeps :
        (packet : MeshPacket S) (s : Service D)
        → Q s
        → Q (learn_node settings unmarshal_user packet s).0
    unfolding learn_node
    learn_node-keeps packet s h = by_data packet.decoded
      where
        by_user :
            (r : Result Text User)
            → Q
                (elim r as (λ _. Service D × Option E) [
                  | err e ↦ (s, none)
                  | ok user ↦ remember_node settings packet.from (some user) s
                ]).0
        by_user (err e) = h
        by_user (ok user) = keeps.remembers packet.from (some user) s h

        by_port :
            (d : Data) (b : Bool)
            → Q
                (if b
                  then (elim (unmarshal_user d.payload) as (λ _. Service D × Option E) [
                    | err e ↦ (s, none)
                    | ok user ↦ remember_node settings packet.from (some user) s
                  ])
                  else (s, none)).0
        by_port d true = by_user (unmarshal_user d.payload)
        by_port d false = h

        by_data :
            (o : Option Data)
            → Q
                (elim o as (λ _. Service D × Option E) [
                  | none ↦ (s, none)
                  | some d ↦
                      (if is_port d.portnum nodeinfo_app
                        then (elim (unmarshal_user d.payload) [
                          | err e ↦ (s, none)
                          | ok user ↦ remember_node settings packet.from (some user) s
                        ])
                        else (s, none))
                ]).0
        by_data none = h
        by_data (some d) = by_port d (is_port d.portnum nodeinfo_app)

    archive_packet-keeps :
        (received_at now : Time) (packet : MeshPacket S) (s : Service D)
        → Q s
        → Q (archive_packet settings float proto unmarshal_user received_at now packet s).0
    unfolding archive_packet
    archive_packet-keeps received_at now packet s h =
        let d = decode_with_options float proto packet received_at settings.decode_position_app in
        by_name d.0 (name_position settings d.1 s.db)
      where
        by_name :
            (r : Packet S) (n : Result E (Option (Position F)))
            → Q
                (elim n as (λ _. Service D × Option E) [
                  | err e ↦ (s, some e)
                  | ok named ↦ store_packet settings now r named s
                ]).0
        by_name r (err e) = h
        by_name r (ok named) = keeps.stores now r named s h

    handle_packet-keeps :
        (received_at now : Time) (packet : MeshPacket S) (s : Service D)
        → Q s
        → Q (handle_packet settings float proto unmarshal_user received_at now packet s).0
    unfolding handle_packet
    handle_packet-keeps received_at now packet s h =
        by_error (learn_node settings unmarshal_user packet s) (learn_node-keeps packet s h)
      where
        by_error :
            (r : Service D × Option E)
            → Q r.0
            → Q
                (elim r.1 as (λ _. Service D × Option E) [
                  | some e ↦ (r.0, some e)
                  | none ↦
                      archive_packet settings float proto unmarshal_user received_at now packet r.0
                ]).0
        by_error (s', some e) k = k
        by_error (s', none) k = archive_packet-keeps received_at now packet s' k

    pub handle-keeps :
        (received_at now : Time) (message : FromRadio S) (s : Service D)
        → Q s
        → Q (handle settings float proto unmarshal_user received_at now message s).0
    unfolding handle
    handle-keeps received_at now message s h = by_metadata message.metadata
      where
        packets : Option (MeshPacket S) → Service D × Option E
        packets o = elim o [
          | none ↦ (s, none)
          | some packet ↦ handle_packet settings float proto unmarshal_user received_at now packet s
        ]

        nodes : Option NodeInfo → Service D × Option E
        nodes o = elim o [
          | some info ↦ remember_node settings info.num info.user s
          | none ↦ packets message.packet
        ]

        configs : Bool → Service D × Option E
        configs b = if b then (s, none) else nodes message.node_info

        devices : Option Text → Service D × Option E
        devices o = elim o [
          | some _ ↦ (s, none)
          | none ↦ configs (not (message.config_complete_id == 0))
        ]

        by_packet : (o : Option (MeshPacket S)) → Q (packets o).0
        by_packet none = h
        by_packet (some packet) = handle_packet-keeps received_at now packet s h

        by_node : (o : Option NodeInfo) → Q (nodes o).0
        by_node none = by_packet message.packet
        by_node (some info) = keeps.remembers info.num info.user s h

        by_config : (b : Bool) → Q (configs b).0
        by_config true = h
        by_config false = by_node message.node_info

        by_device : (o : Option Text) → Q (devices o).0
        by_device none = by_config (not (message.config_complete_id == 0))
        by_device (some r) = h

        by_metadata :
            (o : Option Text)
            → Q
                (elim o as (λ _. Service D × Option E) [
                  | some _ ↦ (s, none)
                  | none ↦ devices message.device_role
                ]).0
        by_metadata none = by_device message.device_role
        by_metadata (some m) = h
