-- ===== src/Store/Archive/Scanned.antt =====
-- What `Archive` stores of a position is what the queries of internal/store/store.go read.
use mesthastic_caltopo_bridg.Prelude.{
  ℕ, ◌≡◌, refl, ◌∙◌, subst, Bool, true, false, Option, none, some, ◌⊎◌, inl, inr, Bool-cases, [],
  ◌∷◌, arith, In, here, In-append_right, if◌then◌else◌,
}
use mesthastic_caltopo_bridg.Go.Float.{Float64, Env}
use mesthastic_caltopo_bridg.Go.Text.{Text}
use mesthastic_caltopo_bridg.Go.Time.{Time, IsDated}
use mesthastic_caltopo_bridg.Go.Time.Parse.{parse_time}
use mesthastic_caltopo_bridg.Go.Time.RoundTrip.{parse_time-format_time}
use mesthastic_caltopo_bridg.Model.{Packet, Position}
use mesthastic_caltopo_bridg.Store.Tables.{PositionRow, Db, nullable_string, coalesce, ok}
use mesthastic_caltopo_bridg.Store.Archive.{
  ArchiveError, is_zero_port, nullable_real, position_row, archive,
}
use mesthastic_caltopo_bridg.Store.Archive.Outcome.{
  Archived, packet_only, repeated, fresh, Outcome, archive-Outcome,
}
use mesthastic_caltopo_bridg.Store.Deliveries.{scan_position}

coalesce-nullable_string : (t : Text) → coalesce (nullable_string t) ≡ t
coalesce-nullable_string [] = refl
coalesce-nullable_string (b ∷ bs) = refl

-- A row whose times are read.
scan_position-row :
    {F : Type 0} (r : PositionRow F) (sent received : Time)
    → parse_time r.source_time ≡ some sent
    → parse_time r.received_at ≡ some received
    → scan_position r
      ≡ some (record {
        packet_id = r.id;
        source_node = r.source_node;
        mesh_packet_id = r.mesh_packet_id;
        source_port = r.source_port;
        callsign = r.callsign;
        device_callsign = coalesce r.device_callsign;
        latitude = r.latitude;
        longitude = r.longitude;
        altitude = r.altitude;
        speed = r.speed;
        course = r.course;
        location_source = coalesce r.location_source;
        precision_bits = r.precision_bits;
        source_time = sent;
        received_at = received;
      })
unfolding scan_position
scan_position-row r sent received e f = ground arith

module _ {F : Type 0} (float : Float64 F) where
  -- A number that is read as it was, or is a NaN and not read.
  abbrev pub ReadAs : Option F → Option F → Type 0
  ReadAs none o = o ≡ none
  ReadAs (some x) o =
      ((float.is_nan x ≡ false) × (o ≡ some x)) ⊎ ((float.is_nan x ≡ true) × (o ≡ none))

  nullable_real-ReadAs : (o : Option F) → ReadAs o (nullable_real float o)
  unfolding nullable_real
  nullable_real-ReadAs none = refl
  nullable_real-ReadAs (some x) = elim (Bool-cases (float.is_nan x)) [
    | inl nan ↦ rw nan (inr (refl, refl))
    | inr number ↦ rw number (inl (refl, refl))
  ]

  -- The optional numbers of a position, and what is read for them.
  abbrev pub AllReadAs : Position F → Option F × Option F × Option F → Type 0
  AllReadAs p (altitude, speed, course) =
      ReadAs p.altitude altitude × ReadAs p.speed speed × ReadAs p.course course

  abbrev numbers : Position F → Option F × Option F × Option F
  numbers p =
      (nullable_real float p.altitude, nullable_real float p.speed, nullable_real float p.course)

module _ {S F : Type 0} (env : Env F) where
  -- What the queries make of the row of a position: its key stands in the field for the packet, and
  -- the packet's port where the position has none; the optional numbers are given.
  abbrev pub as_read : ℕ → Packet S → Position F → Option F × Option F × Option F → Position F
  as_read id packet p (altitude, speed, course) = record p {
    altitude = altitude;
    speed = speed;
    course = course;
    packet_id = id;
    source_port = if is_zero_port p.source_port then packet.port else p.source_port;
  }

  scan_position-position_row :
      (id packet_id : ℕ) (packet : Packet S) (p : Position F)
      → IsDated p.source_time
      → IsDated p.received_at
      → scan_position (position_row env id packet_id packet p)
        ≡ some (as_read id packet p (numbers env.float p))
  unfolding position_row
  scan_position-position_row id packet_id packet p sent received =
      scan_position-row (position_row env id packet_id packet p) p.source_time p.received_at
        (parse_time-format_time p.source_time sent) (parse_time-format_time p.received_at received)
      ∙ rw (coalesce-nullable_string p.device_callsign, coalesce-nullable_string p.location_source)
          refl

  new_stored :
      {now : Time} {packet : Packet S} {enqueue : Bool} {db db' : Db S F} {o : Option (Position F)}
      {x : ℕ × ℕ × Bool}
      → Archived env now packet enqueue db o db' x
      → x.2 ≡ true
      → (p : Position F) × (o ≡ some p) × In (position_row env x.1 x.0 packet p) db'.positions
  new_stored packet_only h = cc
  new_stored (repeated p existing found) h = cc
  new_stored {enqueue = true} {db} (fresh p missing fits) h =
      (p, refl, In-append_right _ db.positions _ (here refl))
  new_stored {enqueue = false} {db} (fresh p missing fits) h =
      (p, refl, In-append_right _ db.positions _ (here refl))

  -- If `Archive` reports a new position and its times lie before the year 10000, the table has a row
  -- under the reported key, with the reported packet, that the queries read as that position, with
  -- these changes: the field for the packet has the row's own key, a port that is zero is the
  -- packet's, and an altitude, a speed or a course that is a NaN is not there.
  pub archive-scanned :
      (fails : ArchiveError → Bool) (now : Time) (packet : Packet S) (enqueue : Bool)
      (p : Position F) (db db' : Db S F) (packet_id id : ℕ)
      → IsDated p.source_time
      → IsDated p.received_at
      → archive env fails now packet enqueue (some p) db ≡ (db', ok (packet_id, id, true))
      → (row : PositionRow F) × In row db'.positions
        × (row.id ≡ id)
        × (row.packet_id ≡ packet_id)
        × (ns : Option F × Option F × Option F) × AllReadAs env.float p ns
        × (scan_position row ≡ some (as_read id packet p ns))
  unfolding position_row
  archive-scanned fails now packet enqueue p db db' packet_id id sent received e =
      let good =
        subst (Outcome env now packet enqueue fails db (some p)) e
          (archive-Outcome env now packet enqueue fails db (some p)) in
      let (q, same, i) = new_stored good refl in
      let p-is : p ≡ q = cc same in
      (
        position_row env id packet_id packet p,
        rw p-is i,
        refl,
        refl,
        numbers env.float p,
        (
          nullable_real-ReadAs env.float p.altitude,
          nullable_real-ReadAs env.float p.speed,
          nullable_real-ReadAs env.float p.course,
        ),
        scan_position-position_row id packet_id packet p sent received,
      )
