-- ===== src/Store/Tables.antt =====
-- The tables of the schema of internal/store/store.go as lists of rows, in order of insertion, the
-- conversions of values into columns, and transactions. A TEXT column of time holds the text that
-- `formatTime` wrote. An AUTOINCREMENT key is one above the largest that the table ever had.
use mathlib.Core.Option
use mesthastic_caltopo_bridg.Prelude.{
  ℕ, ◌≡◌, refl, Bool, true, false, Option, none, some, List, [], if◌then◌else◌,
}
use mesthastic_caltopo_bridg.Prelude.Int.{ℤ}
use mesthastic_caltopo_bridg.Go.Text.{Text, is_empty}
use mesthastic_caltopo_bridg.Go.Time.{Time, format_time}
use mesthastic_caltopo_bridg.Model.{Packet}

pub record PacketRow (S : Type 0) : Type 0 where
  pub id : ℕ
  pub source_node : ℕ
  pub destination_node : ℕ
  pub mesh_packet_id : ℕ
  pub channel_id : ℕ
  pub port_num : Option ℤ
  pub hop_limit : ℕ
  pub hop_start : ℕ
  pub rssi : Option ℤ
  pub snr : S
  pub via_mqtt : Bool
  pub pki_encrypted : Bool
  pub encrypted : Bool
  pub received_at : Text
  pub radio_rx_time : Option Text
  pub raw_packet : List ℕ
  pub raw_payload : List ℕ
  pub parse_status : Text
  pub parse_error : Option Text

pub record NodeRow : Type 0 where
  pub node_num : ℕ
  pub short_name : Text
  pub long_name : Text
  pub updated_at : Text

pub record PositionRow (F : Type 0) : Type 0 where
  pub id : ℕ
  pub packet_id : ℕ
  pub dedupe_key : Text
  pub source_node : ℕ
  pub mesh_packet_id : ℕ
  pub source_port : ℤ
  pub callsign : Text
  pub device_callsign : Option Text
  pub latitude : F
  pub longitude : F
  pub altitude : Option F
  pub speed : Option F
  pub course : Option F
  pub location_source : Option Text
  pub precision_bits : ℕ
  pub source_time : Text
  pub received_at : Text

pub record TrackRow : Type 0 where
  pub source_id : Text
  pub device_id : Text
  pub track_id : Text
  pub created_at : Text

pub data DeliveryState : Type 0 where
  pending delivered failed : DeliveryState

pub record DeliveryRow : Type 0 where
  pub id : ℕ
  pub position_id : ℕ
  pub state : DeliveryState
  pub attempts : ℕ
  pub next_attempt_at : Text
  pub last_error : Option Text
  pub delivered_at : Option Text

pub record Db (S F : Type 0) : Type 0 where
  pub packets : List (PacketRow S)
  pub nodes : List NodeRow
  pub positions : List (PositionRow F)
  pub tracks : List TrackRow
  pub deliveries : List DeliveryRow
  pub packet_seq : ℕ
  pub position_seq : ℕ
  pub delivery_seq : ℕ

abbrev pub created : {S F : Type 0} → Db S F
created = record {
  packets = [];
  nodes = [];
  positions = [];
  tracks = [];
  deliveries = [];
  packet_seq = 0;
  position_seq = 0;
  delivery_seq = 0;
}

abbrev pub nullable_port : {S : Type 0} → Packet S → Option ℤ
nullable_port packet = if packet.encrypted then none else some packet.port

abbrev pub nullable_string : Text → Option Text
nullable_string value = if is_empty value then none else some value

abbrev pub nullable_time : Option Time → Option Text
nullable_time = Option.map format_time

-- `COALESCE(column, '')`
abbrev pub coalesce : Option Text → Text
coalesce none = []
coalesce (some t) = t

-- The result of a method: its value, or an error.
pub data Result {ℓ} (E A : Type ℓ) : Type ℓ where
  ok : A → Result E A
  err : E → Result E A

-- The statements of a transaction, on its own copy of the database.
abbrev pub Tx : Type 0 → Type 0 → Type 0 → Type 0
Tx D E A = D → Result E (A × D)

infixl 5 ◌>>=◌ ◌>>◌
abbrev pub ◌>>=◌ : {D E A B : Type 0} → Tx D E A → (A → Tx D E B) → Tx D E B
◌>>=◌ m f db = elim (m db) [ ok (a, db') ↦ f a db' | err e ↦ err e ]

abbrev pub ◌>>◌ : {D E B : Type 0} → Tx D E (Unit {0}) → Tx D E B → Tx D E B
m >> k = m >>= λ _. k

abbrev pub pure : {D E A : Type 0} → A → Tx D E A
pure a db = ok (a, db)

-- A call of the database driver that may fail, with the error that the caller makes of it.
abbrev pub call : {D E : Type 0} → (E → Bool) → E → Tx D E (Unit {0})
call fails e db = if fails e then err e else ok (tt, db)

-- Begin, the statements, and the deferred `Rollback`, which a `Commit` at the end makes void: the
-- database takes the copy if no statement failed.
unfoldable pub transact : {D E A : Type 0} → Tx D E A → D → D × Result E A
transact m db = elim (m db) [ ok (a, db') ↦ (db', ok a) | err e ↦ (db, err e) ]

-- A property of what follows a call that may fail, if it holds of the error too.
pub call-case :
    {D E A : Type 0} (P : Result E (A × D) → Type 0) (fails : E → Bool) (e : E) (m : Tx D E A)
    (db : D)
    → P (err e)
    → (fails e ≡ false → P (m db))
    → P ((call fails e >> m) db)
call-case P fails e m db stopped next = by_test (fails e) refl
  where
    by_test :
        (b : Bool) → fails e ≡ b → P (◌>>=◌ (λ d. if b then err e else ok (tt, d)) (λ _. m) db)
    by_test true p = stopped
    by_test false p = next p
