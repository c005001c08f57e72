-- ===== src/Store/Archive.antt =====
-- `Archive` of internal/store/store.go: a packet, its position unless that is a repeated copy, and
-- the delivery that is due for a new position, all in one transaction.
pub mod Outcome
pub mod Scanned
use mesthastic_caltopo_bridg.Prelude.{
  ℕ, suc, ◌+◌, ◌≡◌, Bool, true, false, ◌&&◌, ◌||◌, not, Option, none, some, List, [], ◌∷◌, ◌++◌,
  map, ◌==◌, if◌then◌else◌,
}
use mesthastic_caltopo_bridg.Prelude.Int.{ℤ, pos, negsuc}
use mesthastic_caltopo_bridg.Go.Float.{Float64, Env}
use mesthastic_caltopo_bridg.Go.Text.{Text, text, text_eq}
use mesthastic_caltopo_bridg.Go.Time.{Time, format_time}
use mesthastic_caltopo_bridg.Model.{Packet, Position}
use mesthastic_caltopo_bridg.Model.NodeId.{hex_loop, hex_digit}
use mesthastic_caltopo_bridg.Store.Tables.{
  PacketRow, PositionRow, DeliveryRow, pending, Db, nullable_port, nullable_string, nullable_time,
  Result, ok, err, Tx, ◌>>=◌, ◌>>◌, pure, call, transact,
}

-- The errors of `Archive`, one for each call that can fail.
pub data ArchiveError : Type 0 where
  begin_archive insert_packet read_packet_id commit_packet commit_duplicate : ArchiveError
  query_duplicate insert_position read_position_id enqueue_delivery commit_position : ArchiveError

-- `fmt.Sprintf("%x", sum)`
unfoldable pub hex_bytes : Text → Text
hex_bytes [] = []
hex_bytes (b ∷ bs) = hex_loop 2 b (hex_bytes bs)

abbrev is_zero_port : ℤ → Bool
is_zero_port (pos n) = n == 0
is_zero_port (negsuc n) = false

unfoldable pub packet_row : {S : Type 0} → ℕ → Packet S → PacketRow S
packet_row id packet = record {
  id = id;
  source_node = packet.from;
  destination_node = packet.to;
  mesh_packet_id = packet.mesh_packet_id;
  channel_id = packet.channel;
  port_num = nullable_port packet;
  hop_limit = packet.hop_limit;
  hop_start = packet.hop_start;
  rssi = packet.rssi;
  snr = packet.snr;
  via_mqtt = packet.via_mqtt;
  pki_encrypted = packet.pki_encrypted;
  encrypted = packet.encrypted;
  received_at = format_time packet.received_at;
  radio_rx_time = nullable_time packet.radio_rx_time;
  raw_packet = packet.raw_packet;
  raw_payload = packet.raw_payload;
  parse_status = packet.parse_status;
  parse_error = nullable_string packet.parse_error;
}

-- `SELECT id FROM tak_positions WHERE dedupe_key = ?`
unfoldable pub find_key : {F : Type 0} → Text → List (PositionRow F) → Option ℕ
find_key key [] = none
find_key key (r ∷ rs) =
    let rest = find_key key rs in if text_eq r.dedupe_key key then some r.id else rest

module _ {S F : Type 0} where
  insert_packet_row : Packet S → Tx (Db S F) ArchiveError ℕ
  unfolding packet_row
  insert_packet_row packet db =
      let id : ℕ = db.packet_seq + 1 in
      ok (id, record db { packets = db.packets ++ packet_row id packet ∷ []; packet_seq = id })

  insert_delivery : ℕ → Time → Tx (Db S F) ArchiveError (Unit {0})
  insert_delivery position_id now db =
      let id : ℕ = db.delivery_seq + 1 in
      ok (
        tt,
        record db {
          deliveries =
              db.deliveries
              ++ record {
                id = id;
                position_id = position_id;
                state = pending;
                attempts = 0;
                next_attempt_at = format_time now;
                last_error = none;
                delivered_at = none;
              }
                ∷ [];
          delivery_seq = id;
        },
      )

  find_duplicate : Text → Tx (Db S F) ArchiveError (Option ℕ)
  unfolding find_key
  find_duplicate key db = ok (find_key key db.positions, db)

module _ {F : Type 0} (env : Env F) where
  open env use {float}

  -- The text that is hashed, `%08x:%.7f:%.7f:%s`.
  unfoldable pub position_label : Position F → Text
  unfolding hex_loop
  position_label p = hex_loop 8 p.source_node (
      0x3a ∷ float.format7 p.latitude
      ++ (0x3a ∷ float.format7 p.longitude ++ (0x3a ∷ format_time p.source_time)))

  unfoldable pub position_key : Position F → Text
  unfolding hex_bytes hex_loop position_label
  position_key p = hex_bytes (env.sha256 (position_label p))

  -- The CHECK clauses of `tak_positions`. SQLite stores a NaN as NULL, which NOT NULL refuses, and
  -- the comparisons are false on a NaN.
  unfoldable pub in_range : Position F → Bool
  in_range p =
      float.le (float.of_int (negsuc 89)) p.latitude
      && float.le p.latitude (float.of_int (pos 90))
      && (float.le (float.of_int (negsuc 179)) p.longitude
          && float.le p.longitude (float.of_int (pos 180)))

-- A nullable REAL column: SQLite stores a NaN as NULL.
unfoldable pub nullable_real : {F : Type 0} → Float64 F → Option F → Option F
nullable_real float none = none
nullable_real float (some x) = if float.is_nan x then none else some x

module _ {S F : Type 0} (env : Env F) where
  unfoldable pub position_row : ℕ → ℕ → Packet S → Position F → PositionRow F
  unfolding nullable_real
  position_row id packet_id packet p = record {
    id = id;
    packet_id = packet_id;
    dedupe_key = position_key env p;
    source_node = p.source_node;
    mesh_packet_id = p.mesh_packet_id;
    source_port = if is_zero_port p.source_port then packet.port else p.source_port;
    callsign = p.callsign;
    device_callsign = nullable_string p.device_callsign;
    latitude = p.latitude;
    longitude = p.longitude;
    altitude = nullable_real env.float p.altitude;
    speed = nullable_real env.float p.speed;
    course = nullable_real env.float p.course;
    location_source = nullable_string p.location_source;
    precision_bits = p.precision_bits;
    source_time = format_time p.source_time;
    received_at = format_time p.received_at;
  }

  place_position : ℕ → Packet S → Position F → Tx (Db S F) ArchiveError ℕ
  unfolding position_row
  place_position packet_id packet p db =
      let id : ℕ = db.position_seq + 1 in
      ok (
        id,
        record db {
          positions = db.positions ++ position_row id packet_id packet p ∷ [];
          position_seq = id;
        },
      )

  module _ (fails : ArchiveError → Bool) (now : Time) (packet : Packet S) (enqueue : Bool) where
    -- `if enqueue { … }`
    enqueue_new : Bool → ℕ → Tx (Db S F) ArchiveError (Unit {0})
    unfolding insert_delivery
    enqueue_new true position_id = call fails enqueue_delivery >> insert_delivery position_id now
    enqueue_new false position_id = pure tt

    -- Behind the duplicate check: the row of a new position, if the constraints allow it, and its
    -- delivery.
    archive_new : ℕ → Position F → Tx (Db S F) ArchiveError (ℕ × ℕ × Bool)
    unfolding place_position in_range enqueue_new
    archive_new packet_id p = do
      call fails insert_position
      call (λ _. not (in_range env p)) insert_position
      position_id ← place_position packet_id packet p
      call fails read_position_id
      enqueue_new enqueue position_id
      call fails commit_position
      pure (packet_id, position_id, true)

    archive_position : ℕ → Position F → Tx (Db S F) ArchiveError (ℕ × ℕ × Bool)
    unfolding archive_new find_duplicate
    archive_position packet_id p = do
      call fails query_duplicate
      existing ← find_duplicate (position_key env p)
      elim existing [
        | some existing_id ↦ (call fails commit_duplicate >> pure (packet_id, existing_id, false))
        | none ↦ archive_new packet_id p
      ]

    archive_body : Option (Position F) → Tx (Db S F) ArchiveError (ℕ × ℕ × Bool)
    unfolding archive_position insert_packet_row
    archive_body position = do
      call fails begin_archive
      call fails insert_packet
      packet_id ← insert_packet_row packet
      call fails read_packet_id
      elim position [
        | none ↦ (call fails commit_packet >> pure (packet_id, 0, false))
        | some p ↦ archive_position packet_id p
      ]

    unfoldable pub archive :
        Option (Position F) → Db S F → Db S F × Result ArchiveError (ℕ × ℕ × Bool)
    unfolding archive_body transact
    archive position = transact (archive_body position)
