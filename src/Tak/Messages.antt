-- ===== src/Tak/Messages.antt =====
-- The messages that internal/tak/decoder.go reads, by what the getters of the generated code return,
-- and the functions of the protobuf package.
use mesthastic_caltopo_bridg.Prelude.{ℕ, Bool, Option}
use mesthastic_caltopo_bridg.Prelude.Int.{ℤ}
use mesthastic_caltopo_bridg.Go.Text.{Text}
use mesthastic_caltopo_bridg.Store.Tables.{Result}

pub record Data : Type 0 where
  pub portnum : ℤ
  pub payload : Text

-- A `pb.MeshPacket`; `decoded` is nil in a packet that the radio could not decrypt.
pub record MeshPacket (S : Type 0) : Type 0 where
  pub from : ℕ
  pub to : ℕ
  pub id : ℕ
  pub channel : ℕ
  pub hop_limit : ℕ
  pub hop_start : ℕ
  pub rx_snr : S
  pub via_mqtt : Bool
  pub pki_encrypted : Bool
  pub rx_rssi : Option ℤ
  pub rx_time : Option ℕ
  pub decoded : Option Data
  pub encrypted : Text

-- A `pb.Position`.
pub record MeshPosition : Type 0 where
  pub latitude_i : ℤ
  pub longitude_i : ℤ
  pub altitude : Option ℤ
  pub time : ℕ
  pub location_source : Text
  pub precision_bits : ℕ

pub record Contact : Type 0 where
  pub callsign : Text
  pub device_callsign : Text

pub record Pli : Type 0 where
  pub latitude_i : ℤ
  pub longitude_i : ℤ
  pub altitude : ℤ
  pub speed : ℕ
  pub course : ℕ

-- A `takproto.TAKPacket`; `pli` is nil if the payload is another variant.
pub record TakPacket : Type 0 where
  pub is_compressed : Bool
  pub contact : Option Contact
  pub pli : Option Pli

pub record Protobuf (S : Type 0) : Type 0 where
  pub marshal : MeshPacket S → Result Text Text
  pub unmarshal_position : Text → Result Text MeshPosition
  pub unmarshal_tak : Text → Result Text TakPacket
