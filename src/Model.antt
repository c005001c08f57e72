-- ===== src/Model.antt =====
-- The records of internal/model/model.go. `F` is float64, and `S` is float32, of which the program
-- only passes values on.
pub mod NodeId
use mesthastic_caltopo_bridg.Prelude.{ℕ, Bool, Option, List}
use mesthastic_caltopo_bridg.Prelude.Int.{ℤ}
use mesthastic_caltopo_bridg.Go.Text.{Text}
use mesthastic_caltopo_bridg.Go.Time.{Time}

pub record Packet (S : Type 0) : Type 0 where
  pub from : ℕ
  pub to : ℕ
  pub mesh_packet_id : ℕ
  pub channel : ℕ
  pub port : ℤ
  pub hop_limit : ℕ
  pub hop_start : ℕ
  pub rssi : Option ℤ
  pub snr : S
  pub via_mqtt : Bool
  pub pki_encrypted : Bool
  pub encrypted : Bool
  pub received_at : Time
  pub radio_rx_time : Option Time
  pub raw_packet : List ℕ
  pub raw_payload : List ℕ
  pub parse_status : Text
  pub parse_error : Text

pub record Position (F : Type 0) : Type 0 where
  pub packet_id : ℕ
  pub source_node : ℕ
  pub mesh_packet_id : ℕ
  pub source_port : ℤ
  pub callsign : Text
  pub device_callsign : Text
  pub latitude : F
  pub longitude : F
  pub altitude : Option F
  pub speed : Option F
  pub course : Option F
  pub location_source : Text
  pub precision_bits : ℕ
  pub source_time : Time
  pub received_at : Time
