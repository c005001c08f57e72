-- ===== src/Tak.antt =====
-- The decoder of internal/tak/decoder.go. Of the generated messages of Meshtastic and of
-- internal/takproto/tak.pb.go it has what the getters return; the protobuf functions are a parameter.
pub mod Ports
pub mod Messages
pub mod Fixes
pub mod Decoded
use mesthastic_caltopo_bridg.Prelude.{
  ℕ, suc, Bool, true, false, ◌&&◌, ◌||◌, not, Option, none, some, List, [], ◌∷◌, ◌++◌, ◌==◌,
  if◌then◌else◌,
}
use Prim.Native.String.{String}
use mesthastic_caltopo_bridg.Prelude.Int.{ℤ, pos, negsuc}
use mesthastic_caltopo_bridg.Go.Float.{Float64}
use mesthastic_caltopo_bridg.Go.Text.{Text, text, is_empty, utf8_valid, trim_space}
use mesthastic_caltopo_bridg.Go.Time.{Time, unix, is_zero}
use mesthastic_caltopo_bridg.Model.{Packet, Position}
use mesthastic_caltopo_bridg.Model.NodeId.{node_id}
use mesthastic_caltopo_bridg.Store.Tables.{Result, ok, err}
use mesthastic_caltopo_bridg.Tak.Messages.{
  Data, MeshPacket, MeshPosition, Contact, Pli, TakPacket, Protobuf,
}
use mesthastic_caltopo_bridg.Tak.Ports.{
  position_app, atak_plugin, atak_plugin_v2, atak_forwarder, is_port,
}

-- What a decoding of a payload gives: a position, with a mark on a callsign that could not be read;
-- none, for want of a fix or because the message is another; or an error.
pub data Decoding (F : Type 0) : Type 0 where
  located : Position F → Bool → Decoding F
  no_position : Decoding F
  malformed : Text → Decoding F

abbrev pub int_is_zero : ℤ → Bool
int_is_zero (pos n) = n == 0
int_is_zero (negsuc n) = false

-- The callsigns, and whether they could not be read.
unfoldable pub decode_callsigns : Option Contact → Bool → Text × Text × Bool
unfolding utf8_valid trim_space
decode_callsigns none compressed = ([], [], false)
decode_callsigns (some c) compressed =
    if compressed
    then ([], [], not (is_empty c.callsign) || not (is_empty c.device_callsign))
    else if not (utf8_valid c.callsign) || not (utf8_valid c.device_callsign)
    then ([], [], true)
    else (trim_space c.callsign, trim_space c.device_callsign, false)

abbrev pub time_from_packet : {S : Type 0} → Packet S → Time
time_from_packet packet = elim packet.radio_rx_time [ some t ↦ t | none ↦ packet.received_at ]

module _ {F : Type 0} (float : Float64 F) where
  open float use {lt, is_nan, of_int, degrees, format7}

  unfoldable pub outside : F → ℕ → Bool
  outside x limit = is_nan x || (lt x (of_int (negsuc limit)) || lt (of_int (pos (suc limit))) x)

  module _ {S : Type 0} where
    unfoldable pub new_position : Packet S → F → F → Result Text (Position F)
    unfolding outside node_id
    new_position packet latitude longitude =
        if outside latitude 89
        then err (text "invalid latitude " ++ format7 latitude)
        else if outside longitude 179
        then err (text "invalid longitude " ++ format7 longitude)
        else ok (record {
          packet_id = 0;
          source_node = packet.from;
          mesh_packet_id = packet.mesh_packet_id;
          source_port = packet.port;
          callsign = node_id packet.from;
          device_callsign = [];
          latitude = latitude;
          longitude = longitude;
          altitude = none;
          speed = none;
          course = none;
          location_source = [];
          precision_bits = 0;
          source_time =
              if is_zero (time_from_packet packet)
              then packet.received_at
              else time_from_packet packet;
          received_at = packet.received_at;
        })

    module _ (proto : Protobuf S) where
      -- What the report adds to the position.
      abbrev pub with_report : MeshPosition → Position F → Position F
      with_report m p = record p {
        altitude = elim m.altitude [ none ↦ none | some a ↦ some (of_int a) ];
        source_time = if m.time == 0 then p.source_time else unix m.time;
        location_source = m.location_source;
        precision_bits = m.precision_bits;
      }

      unfoldable pub decode_report : Packet S → MeshPosition → Decoding F
      unfolding new_position unix
      decode_report packet m =
          if int_is_zero m.latitude_i && int_is_zero m.longitude_i
          then no_position
          else elim (new_position packet (degrees m.latitude_i) (degrees m.longitude_i)) [
            | err e ↦ malformed e
            | ok p ↦ located (with_report m p) false
          ]

      unfoldable pub decode_position_app : Packet S → Text → Decoding F
      unfolding decode_report
      decode_position_app packet payload = elim (proto.unmarshal_position payload) [
        | err e ↦ malformed (text "decode Meshtastic position: " ++ e)
        | ok m ↦ decode_report packet m
      ]

      -- A number of the message that is there if it is not 0.
      abbrev nonzero : ℤ → Option F
      nonzero n = if int_is_zero n then none else some (of_int n)

      abbrev pub with_pli : Packet S → Pli → Text × Text × Bool → Position F → Position F
      with_pli packet pli (callsign, device_callsign, undecodable) p = record p {
        callsign = if is_empty callsign then node_id packet.from else callsign;
        device_callsign = device_callsign;
        altitude = nonzero pli.altitude;
        speed = nonzero (pos pli.speed);
        course = nonzero (pos pli.course);
      }

      unfoldable pub decode_pli : Packet S → TakPacket → Pli → Decoding F
      unfolding new_position decode_callsigns
      decode_pli packet tak pli =
          let names = decode_callsigns tak.contact tak.is_compressed in
          elim (new_position packet (degrees pli.latitude_i) (degrees pli.longitude_i)) [
            | err e ↦ malformed e
            | ok p ↦ located (with_pli packet pli names p) names.2
          ]

      unfoldable pub decode_tak : Packet S → TakPacket → Decoding F
      unfolding decode_pli
      decode_tak packet tak = elim tak.pli [
        | none ↦ no_position
        | some pli ↦ decode_pli packet tak pli
      ]

      unfoldable pub decode_legacy : Packet S → Text → Decoding F
      unfolding decode_tak
      decode_legacy packet payload = elim (proto.unmarshal_tak payload) [
        | err e ↦ malformed (text "decode legacy TAK packet: " ++ e)
        | ok tak ↦ decode_tak packet tak
      ]

      -- The record before its payload is looked at.
      unfoldable pub new_record : MeshPacket S → Time → Text → Packet S
      unfolding unix
      new_record packet received_at raw_packet = record {
        from = packet.from;
        to = packet.to;
        mesh_packet_id = packet.id;
        channel = packet.channel;
        port = pos 0;
        hop_limit = packet.hop_limit;
        hop_start = packet.hop_start;
        rssi = packet.rx_rssi;
        snr = packet.rx_snr;
        via_mqtt = packet.via_mqtt;
        pki_encrypted = packet.pki_encrypted;
        encrypted = false;
        received_at = received_at;
        radio_rx_time = elim packet.rx_time [ none ↦ none | some t ↦ some (unix t) ];
        raw_packet = raw_packet;
        raw_payload = [];
        parse_status = [];
        parse_error = [];
      }

      -- The status, by the port's own name for a payload with no position and for an undecodable
      -- callsign.
      unfoldable pub finish_decoding :
          Packet S → String → String → Decoding F → Packet S × Option (Position F)
      finish_decoding record' absent undecodable (located p b) = (
        record record' { parse_status = if b then text undecodable else text "position" },
        some p,
      )
      finish_decoding record' absent undecodable no_position =
          (record record' { parse_status = text absent }, none)
      finish_decoding record' absent undecodable (malformed e) =
          (record record' { parse_status = text "malformed"; parse_error = e }, none)

      -- The `switch` over the port.
      unfoldable pub decode_data : Packet S → ℤ → Text → Bool → Packet S × Option (Position F)
      unfolding decode_position_app decode_legacy finish_decoding
      decode_data r portnum payload decode_app =
          if is_port portnum position_app
          then (if decode_app
              then finish_decoding r "position_no_fix" "position" (decode_position_app r payload)
              else (record r { parse_status = text "position_app_disabled" }, none))
          else if is_port portnum atak_plugin
          then finish_decoding r "tak_non_position" "tak_callsign_undecodable"
              (decode_legacy r payload)
          else if is_port portnum atak_plugin_v2
          then (record r { parse_status = text "unsupported_atak_v2" }, none)
          else if is_port portnum atak_forwarder
          then (record r { parse_status = text "unsupported_atak_forwarder" }, none)
          else (record r { parse_status = text "non_tak" }, none)

      unfoldable pub decode_payload :
          MeshPacket S → Packet S → Bool → Packet S × Option (Position F)
      unfolding decode_data
      decode_payload packet r decode_app = elim packet.decoded [
        | none ↦ (
          record r {
            encrypted = true;
            raw_payload = packet.encrypted;
            parse_status = text "encrypted";
          },
          none,
        )
        | some d ↦
            decode_data (record r { port = d.portnum; raw_payload = d.payload }) d.portnum d.payload
              decode_app
      ]

      unfoldable pub decode_with_options :
          MeshPacket S → Time → Bool → Packet S × Option (Position F)
      unfolding decode_payload new_record
      decode_with_options packet received_at decode_app = elim (proto.marshal packet) [
        | err e ↦ (
          record (new_record packet received_at []) {
            parse_status = text "invalid_packet";
            parse_error = e;
          },
          none,
        )
        | ok raw ↦ decode_payload packet (new_record packet received_at raw) decode_app
      ]
