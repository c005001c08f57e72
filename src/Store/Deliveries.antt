-- ===== src/Store/Deliveries.antt =====
-- The outbox of internal/store/store.go: `PendingDeliveries`, `MarkDelivered` and `MarkFailed`.
pub mod Order
pub mod Timely
pub mod Marks
pub mod Settle
use mesthastic_caltopo_bridg.Prelude.{
  ℕ, suc, ◌+◌, Bool, true, false, ◌&&◌, ◌||◌, not, Option, none, some, List, [], ◌∷◌, ◌++◌, take,
  ltb, ◌==◌, if◌then◌else◌,
}
use mesthastic_caltopo_bridg.Prelude.Int.{ℤ}
use mesthastic_caltopo_bridg.Go.Text.{Text, text_eq, text_lt}
use mesthastic_caltopo_bridg.Go.Time.{Time, format_time}
use mesthastic_caltopo_bridg.Go.Time.Parse.{parse_time}
use mesthastic_caltopo_bridg.Model.{Position}
use mesthastic_caltopo_bridg.Store.Sql.{exists_row, rows_where, order_by}
use mesthastic_caltopo_bridg.Store.Tables.{
  PositionRow, DeliveryState, pending, delivered, failed, DeliveryRow, Db, coalesce, Result, ok,
  err,
}

pub record Delivery (F : Type 0) : Type 0 where
  pub id : ℕ
  pub position : Position F
  pub attempts : ℕ

-- The error of a query: the call, the scan of a row, a text that is no time, the end of the rows.
pub data QueryError : Type 0 where
  query scan parse iterate : QueryError

abbrev pub is_pending : DeliveryState → Bool
is_pending pending = true
is_pending delivered = false
is_pending failed = false

-- A row of `caltopo_deliveries d JOIN tak_positions p ON p.id = d.position_id`.
pub record Joined (F : Type 0) : Type 0 where
  pub d : DeliveryRow
  pub p : PositionRow F

-- The columns of a position as a value. The field for the packet takes the row's own key.
unfoldable pub scan_position : {F : Type 0} → PositionRow F → Option (Position F)
scan_position p = elim (parse_time p.source_time) [
  | none ↦ none
  | some source_time ↦ elim (parse_time p.received_at) [
    | none ↦ none
    | some received_at ↦ some (record {
      packet_id = p.id;
      source_node = p.source_node;
      mesh_packet_id = p.mesh_packet_id;
      source_port = p.source_port;
      callsign = p.callsign;
      device_callsign = coalesce p.device_callsign;
      latitude = p.latitude;
      longitude = p.longitude;
      altitude = p.altitude;
      speed = p.speed;
      course = p.course;
      location_source = coalesce p.location_source;
      precision_bits = p.precision_bits;
      source_time = source_time;
      received_at = received_at;
    })
  ]
]

module _ {F : Type 0} where
  unfoldable pub join_positions : DeliveryRow → List (PositionRow F) → List (Joined F)
  join_positions d [] = []
  join_positions d (p ∷ ps) =
      let rest = join_positions d ps in
      if p.id == d.position_id then record { d = d; p = p } ∷ rest else rest

  unfoldable pub join : List DeliveryRow → List (PositionRow F) → List (Joined F)
  unfolding join_positions
  join [] ps = []
  join (d ∷ ds) ps = join_positions d ps ++ join ds ps

  -- The order of `ORDER BY p.source_time, d.id`, and of the earlier rows of the subquery.
  unfoldable pub before : Joined F → Joined F → Bool
  before a b =
      text_lt a.p.source_time b.p.source_time
      || (text_eq a.p.source_time b.p.source_time && ltb a.d.id b.d.id)

  -- A pending row of the same node that comes first.
  unfoldable pub goes_first : Joined F → Joined F → Bool
  unfolding before
  goes_first e j = is_pending e.d.state && (e.p.source_node == j.p.source_node && before e j)

  -- The WHERE clause, with the table that the subquery reads and the text of the present time.
  unfoldable pub is_due : List (Joined F) → Text → Joined F → Bool
  unfolding goes_first exists_row
  is_due table now j =
      is_pending j.d.state
      && (not (text_lt now j.d.next_attempt_at) && not (exists_row (λ e. goes_first e j) table))

  unfoldable pub due_rows : {S : Type 0} → Time → ℕ → Db S F → List (Joined F)
  unfolding join is_due before rows_where order_by
  due_rows now limit db =
      let table = join db.deliveries db.positions in
      take limit (order_by before (rows_where (is_due table (format_time now)) table))

  unfoldable pub scan_delivery : Joined F → Option (Delivery F)
  unfolding scan_position
  scan_delivery j = elim (scan_position j.p) [
    | none ↦ none
    | some p ↦ some (record { id = j.d.id; position = p; attempts = j.d.attempts })
  ]

  unfoldable pub scan_deliveries :
      (QueryError → Bool) → List (Joined F) → Result QueryError (List (Delivery F))
  unfolding scan_delivery
  scan_deliveries fails [] = if fails iterate then err iterate else ok []
  scan_deliveries fails (j ∷ js) =
      let rest = scan_deliveries fails js in
      if fails scan then err scan else elim (scan_delivery j) [
        | none ↦ err parse
        | some d ↦ elim rest [ ok ds ↦ ok (d ∷ ds) | err e ↦ err e ]
      ]

  unfoldable pub pending_deliveries :
      {S : Type 0} → (QueryError → Bool) → Time → ℕ → Db S F → Result QueryError (List (Delivery F))
  unfolding due_rows scan_deliveries
  pending_deliveries fails now limit db =
      if fails query then err query else scan_deliveries fails (due_rows now limit db)

-- The errors of the two updates: the statement, the count of rows, and no pending row.
pub data MarkError : Type 0 where
  update rows_affected not_found : MarkError

-- `UPDATE … WHERE id = ? AND state = 'pending'`, and how many rows it changed.
unfoldable pub update_pending :
    ℕ → (DeliveryRow → DeliveryRow) → List DeliveryRow → List DeliveryRow × ℕ
update_pending id f [] = ([], 0)
update_pending id f (d ∷ ds) =
    let (rest, n) = update_pending id f ds in
    if d.id == id && is_pending d.state then (f d ∷ rest, n + 1) else (d ∷ rest, n)

-- The statement commits by itself; `requireChanged` reads its count.
unfoldable pub update_delivery :
    {S F : Type 0}
    → (MarkError → Bool)
    → ℕ
    → (DeliveryRow → DeliveryRow)
    → Db S F
    → Db S F × Result MarkError (Unit {0})
unfolding update_pending
update_delivery fails id f db =
    let (rows, n) = update_pending id f db.deliveries in
    let db' = record db { deliveries = rows } in
    if fails update
    then (db, err update)
    else if fails rows_affected
    then (db', err rows_affected)
    else if n == 1
    then (db', ok tt)
    else (db', err not_found)

abbrev pub delivered_row : Time → DeliveryRow → DeliveryRow
delivered_row now d = record d {
  state = delivered;
  delivered_at = some (format_time now);
  last_error = none;
}

abbrev pub failed_row : ℕ → Time → Bool → Text → DeliveryRow → DeliveryRow
failed_row attempts next terminal error d = record d {
  state = if terminal then failed else pending;
  attempts = attempts;
  next_attempt_at = format_time next;
  last_error = some error;
}

unfoldable pub mark_delivered :
    {S F : Type 0} → (MarkError → Bool) → Time → ℕ → Db S F → Db S F × Result MarkError (Unit {0})
unfolding update_delivery
mark_delivered fails now id db = update_delivery fails id (delivered_row now) db

unfoldable pub mark_failed :
    {S F : Type 0}
    → (MarkError → Bool)
    → ℕ
    → ℕ
    → Time
    → Bool
    → Text
    → Db S F
    → Db S F × Result MarkError (Unit {0})
unfolding update_delivery
mark_failed fails id attempts next terminal error db =
    update_delivery fails id (failed_row attempts next terminal error) db
