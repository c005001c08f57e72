-- ===== src/Scenarios.antt =====
-- Concrete values on which the theorems are applied: a coarse float64 of whole numbers, a database
-- with three deliveries of two nodes, a packet, and a world with a publisher.
mod Framing
mod Listening
mod Living
mod Storing
mod Opening
mod Showing
mod Delivering
mod Looping
mod Filtering
mod Decoding
mod Ingesting
mod Publishing
mod Configuring
mod Commanding
use mesthastic_caltopo_bridg.Prelude.{
  ℕ, ◌+◌, ◌*◌, ◌/◌, ◌≡◌, refl, Bool, true, false, not, Option, none, some, List, [], ◌∷◌, ◌++◌,
  arith, In, here, there, if◌then◌else◌,
}
use mesthastic_caltopo_bridg.Prelude.Int.{ℤ, pos, negsuc, pos_part, neg_part, sub_ℕ, leb_ℤ}
use mesthastic_caltopo_bridg.Go.Float.{Float64, Env}
use mesthastic_caltopo_bridg.Go.Text.{Text, text}
use mesthastic_caltopo_bridg.Go.Time.{Time, unix, format_time}
use mesthastic_caltopo_bridg.Model.{Packet, Position}
use mesthastic_caltopo_bridg.Model.NodeId.{hex_loop}
use mesthastic_caltopo_bridg.Store.Tables.{
  PacketRow, PositionRow, DeliveryRow, DeliveryState, pending, delivered, failed, Db,
}
use mesthastic_caltopo_bridg.Store.Invariant.{WellFormed}

abbrev pub add_ℤ : ℤ → ℤ → ℤ
add_ℤ a b = sub_ℕ (pos_part a + pos_part b) (neg_part a + neg_part b)

abbrev pub minus_ℤ : ℤ → ℤ → ℤ
minus_ℤ a b = sub_ℕ (pos_part a + neg_part b) (neg_part a + pos_part b)

abbrev pub mul_ℤ : ℤ → ℤ → ℤ
mul_ℤ a b =
    sub_ℕ (pos_part a * pos_part b + neg_part a * neg_part b)
      (pos_part a * neg_part b + neg_part a * pos_part b)

-- Whole numbers, and no NaN; the functions of `math` are constant.
abbrev pub whole : Float64 ℤ
whole = record {
  lt = λ a b. not (leb_ℤ b a);
  le = leb_ℤ;
  is_nan = λ a. false;
  is_inf = λ a. false;
  add = add_ℤ;
  sub = minus_ℤ;
  mul = mul_ℤ;
  div = λ a b. pos (pos_part a / pos_part b);
  sin = λ a. pos 0;
  cos = λ a. pos 1;
  sqrt = λ a. a;
  atan2 = λ a b. a;
  pi = pos 3;
  minimum = λ a b. if leb_ℤ a b then a else b;
  of_int = λ n. n;
  degrees = λ n. sub_ℕ (pos_part n / 10000000) (neg_part n / 10000000);
  format7 = λ a. hex_loop 8 (pos_part a) (0x2d ∷ hex_loop 8 (neg_part a) []);
}

abbrev pub env : Env ℤ
env = record { float = whole; sha256 = λ t. t }

abbrev pub position_at : ℕ → ℕ → ℤ → ℤ → Time → Position ℤ
position_at node mesh_id x y t = record {
  packet_id = 0;
  source_node = node;
  mesh_packet_id = mesh_id;
  source_port = pos 72;
  callsign = text "ALPHA";
  device_callsign = [];
  latitude = x;
  longitude = y;
  altitude = none;
  speed = none;
  course = none;
  location_source = [];
  precision_bits = 0;
  source_time = t;
  received_at = t;
}

abbrev pub packet : Packet ℕ
packet = record {
  from = 7;
  to = 4294967295;
  mesh_packet_id = 104;
  channel = 0;
  port = pos 72;
  hop_limit = 3;
  hop_start = 3;
  rssi = some (negsuc 89);
  snr = 6;
  via_mqtt = false;
  pki_encrypted = false;
  encrypted = false;
  received_at = unix 40;
  radio_rx_time = none;
  raw_packet = 1 ∷ 2 ∷ 3 ∷ [];
  raw_payload = 2 ∷ 3 ∷ [];
  parse_status = text "position";
  parse_error = [];
}

abbrev pub packet_of : ℕ → ℕ → PacketRow ℕ
packet_of id node = record {
  id = id;
  source_node = node;
  destination_node = 4294967295;
  mesh_packet_id = 100 + id;
  channel_id = 0;
  port_num = some (pos 72);
  hop_limit = 3;
  hop_start = 3;
  rssi = none;
  snr = 6;
  via_mqtt = false;
  pki_encrypted = false;
  encrypted = false;
  received_at = format_time (unix (10 * id));
  radio_rx_time = none;
  raw_packet = [];
  raw_payload = [];
  parse_status = text "position";
  parse_error = none;
}

abbrev pub position_of : ℕ → ℕ → PositionRow ℤ
position_of id node = record {
  id = id;
  packet_id = id;
  dedupe_key = id ∷ [];
  source_node = node;
  mesh_packet_id = 100 + id;
  source_port = pos 72;
  callsign = text "!00000007";
  device_callsign = none;
  latitude = pos 40;
  longitude = negsuc 104;
  altitude = none;
  speed = none;
  course = none;
  location_source = none;
  precision_bits = 0;
  source_time = format_time (unix (10 * id));
  received_at = format_time (unix (10 * id));
}

abbrev pub delivery_of : ℕ → DeliveryState → DeliveryRow
delivery_of id state = record {
  id = id;
  position_id = id;
  state = state;
  attempts = 0;
  next_attempt_at = format_time (unix (10 * id));
  last_error = none;
  delivered_at = none;
}

-- Node 7 has a pending delivery and a later one; node 9 has one that is settled.
abbrev pub stored : Db ℕ ℤ
stored = record {
  packets = packet_of 1 7 ∷ packet_of 2 7 ∷ packet_of 3 9 ∷ [];
  nodes = [];
  positions = position_of 1 7 ∷ position_of 2 7 ∷ position_of 3 9 ∷ [];
  tracks = [];
  deliveries = delivery_of 1 pending ∷ delivery_of 2 pending ∷ delivery_of 3 failed ∷ [];
  packet_seq = 3;
  position_seq = 3;
  delivery_seq = 3;
}

pub stored-WellFormed : WellFormed stored
stored-WellFormed = record {
  packet_ids = (omega arith, (omega arith, (omega arith, tt)));
  packet_top = (omega arith, (omega arith, (omega arith, tt)));
  position_ids = (omega arith, (omega arith, (omega arith, tt)));
  position_top = (omega arith, (omega arith, (omega arith, tt)));
  delivery_ids = (omega arith, (omega arith, (omega arith, tt)));
  delivery_top = (omega arith, (omega arith, (omega arith, tt)));
  dedupe_keys =
      (((λ e. ground arith), ((λ e. ground arith), tt)), (((λ e. ground arith), tt), (tt, tt)));
  one_delivery =
      (((λ e. ground arith), ((λ e. ground arith), tt)), (((λ e. ground arith), tt), (tt, tt)));
  position_packet = (
    (packet_of 1 7, here refl, refl),
    (
      (packet_of 2 7, there (here refl), refl),
      ((packet_of 3 9, there (there (here refl)), refl), tt),
    ),
  );
  delivery_position = (
    (position_of 1 7, here refl, refl),
    (
      (position_of 2 7, there (here refl), refl),
      ((position_of 3 9, there (there (here refl)), refl), tt),
    ),
  );
}
