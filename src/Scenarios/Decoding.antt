-- ===== src/Scenarios/Decoding.antt =====
-- The theorems on the decoder and on the names of nodes, on a legacy TAK packet.
use mesthastic_caltopo_bridg.Prelude.{ℕ, ◌≡◌, ◌↔◌, arith, true, false, some, [], ◌∷◌, length}
use mesthastic_caltopo_bridg.Prelude.Int.{pos, negsuc}
use mesthastic_caltopo_bridg.Go.Text.{text}
use mesthastic_caltopo_bridg.Go.Time.{unix}
use mesthastic_caltopo_bridg.Model.NodeId.{node_id, node_id-faithful}
use mesthastic_caltopo_bridg.Store.Tables.{ok, err}
use mesthastic_caltopo_bridg.Tak.{decode_with_options}
use mesthastic_caltopo_bridg.Tak.Messages.{MeshPacket, Protobuf}
use mesthastic_caltopo_bridg.Tak.Decoded.{IsDecoded, decode_with_options-IsDecoded}
use mesthastic_caltopo_bridg.Scenarios.{whole}

abbrev tracker : ℕ
tracker = 0x12345678

node_id-faithful_example :
    (length (node_id tracker) ≡ 9) × ((node_id tracker ≡ node_id 7) ↔ (tracker ≡ 7))
node_id-faithful_example = node_id-faithful tracker 7 (omega arith) (omega arith)

abbrev pub legacy : MeshPacket ℕ
legacy = record {
  from = tracker;
  to = 4294967295;
  id = 42;
  channel = 0;
  hop_limit = 3;
  hop_start = 3;
  rx_snr = 6;
  via_mqtt = false;
  pki_encrypted = false;
  rx_rssi = some (negsuc 89);
  rx_time = some 1700000000;
  decoded = some (record { portnum = pos 72; payload = 1 ∷ [] });
  encrypted = [];
}

-- Every payload is one report of ALPHA.
abbrev pub messages : Protobuf ℕ
messages = record {
  marshal = λ m. ok (1 ∷ []);
  unmarshal_position = λ t. err (text "no position");
  unmarshal_tak = λ t. ok (record {
    is_compressed = false;
    contact = some (record { callsign = text " ALPHA"; device_callsign = [] });
    pli = some (record {
      latitude_i = pos 400150000;
      longitude_i = negsuc 1052704999;
      altitude = pos 1600;
      speed = 2;
      course = 0;
    });
  });
}

decode_with_options-IsDecoded_example :
    IsDecoded whole legacy (decode_with_options whole messages legacy (unix 1700000001) true)
decode_with_options-IsDecoded_example =
    decode_with_options-IsDecoded whole messages legacy (unix 1700000001) true
