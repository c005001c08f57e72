-- ===== src/Web/Shown.antt =====
-- What the map's position list shows of the database.
use mesthastic_caltopo_bridg.Prelude.{
  ◌/◌, ◌≤◌, ◌≡◌, refl, ap, ◌∙◌, Bool, true, false, Option, none, some, List, [], ◌∷◌, arith, In,
  here, there, inl, inr, ◌⊎◌, if◌then◌else◌,
}
use mesthastic_caltopo_bridg.Go.Text.{text, text_lt}
use mesthastic_caltopo_bridg.Go.Time.{Time, IsDated, second, format_time}
use mesthastic_caltopo_bridg.Go.Time.Parse.{parse_time}
use mesthastic_caltopo_bridg.Model.{Position}
use mesthastic_caltopo_bridg.Model.NodeId.{node_id}
use mesthastic_caltopo_bridg.Store.Tables.{PositionRow, Db, Result, ok, err, coalesce}
use mesthastic_caltopo_bridg.Store.Deliveries.{
  QueryError, query, scan, parse, iterate, scan_position,
}
use mesthastic_caltopo_bridg.Store.Deliveries.Timely.{not_later}
use mesthastic_caltopo_bridg.Store.Positions.{older, latest_rows, scan_positions, positions}
use mesthastic_caltopo_bridg.Store.Positions.Latest.{latest_rows_sound, latest_rows_one_per_node}
use mesthastic_caltopo_bridg.Web.{
  PositionResponse, set_header, http_error, encode, position_response, responses, serve_positions,
}

module _ {F : Type 0} where
  -- An entry of the list shows a row.
  pub record Shows (p : PositionRow F) (r : PositionResponse F) : Type 0 where
    pub source_id : r.source_id ≡ node_id p.source_node
    pub source_port : r.source_port ≡ p.source_port
    pub callsign : r.callsign ≡ p.callsign
    pub device_callsign : r.device_callsign ≡ coalesce p.device_callsign
    pub latitude : r.latitude ≡ p.latitude
    pub longitude : r.longitude ≡ p.longitude
    pub altitude : r.altitude ≡ p.altitude
    pub speed : r.speed ≡ p.speed
    pub course : r.course ≡ p.course
    pub location_source : r.location_source ≡ coalesce p.location_source
    pub precision_bits : r.precision_bits ≡ p.precision_bits
    pub source_time : parse_time p.source_time ≡ some r.source_time
    pub received_at : parse_time p.received_at ≡ some r.received_at

  -- `q` has no greater text of the source time than `p`, nor the same text and a greater key; and it
  -- was not sent in a later second.
  pub record IsLatest (p q : PositionRow F) : Type 0 where
    pub by_text : older p q ≡ false
    pub by_second :
        (t u : Time)
        → p.source_time ≡ format_time t
        → q.source_time ≡ format_time u
        → IsDated u
        → u / second ≤ t / second

  older-IsLatest : (p q : PositionRow F) → older p q ≡ false → IsLatest p q
  unfolding older
  older-IsLatest p q h = record {
    by_text = h;
    by_second = λ t u own other dated.
        let behind : text_lt p.source_time q.source_time ≡ false = ground arith in
        not_later u t dated (cc (behind, own, other));
  }

  -- Each entry shows a row of the table that no row of its node outdates. Each node with a row has an entry.
  pub record ShowsLatest (table : List (PositionRow F)) (rs : List (PositionResponse F))
      : Type 0 where
    pub sound :
        (r : PositionResponse F)
        → In r rs
        → (p : PositionRow F) × In p table
          × Shows p r
          × ((q : PositionRow F) → In q table → q.source_node ≡ p.source_node → IsLatest p q)
    pub complete :
        (q : PositionRow F)
        → In q table
        → (r : PositionResponse F) × In r rs × (r.source_id ≡ node_id q.source_node)

  scan_position-Shows :
      (p : PositionRow F) (v : Position F)
      → scan_position p ≡ some v
      → Shows p (position_response v)
  unfolding scan_position position_response
  scan_position-Shows p v e = ground arith

  scanned_first :
      (b : Bool) (o : Option (Position F)) (rest : Result QueryError (List (Position F)))
      (vs : List (Position F))
      → (if b then err scan else elim o as (λ _. Result QueryError (List (Position F))) [
        | none ↦ err parse
        | some v ↦ elim rest [ ok vs ↦ ok (v ∷ vs) | err e ↦ err e ]
      ])
        ≡ ok vs
      → (v : Position F) × (ws : List (Position F)) × (vs ≡ v ∷ ws) × (o ≡ some v) × (rest ≡ ok ws)
  scanned_first true o rest vs e = cc
  scanned_first false none rest vs e = cc
  scanned_first false (some v) (err x) vs e = cc
  scanned_first false (some v) (ok ws) vs e = (v, ws, cc e, refl, refl)

  -- The entries are those of the rows, one each.
  scan_positions-Shows :
      (fails : QueryError → Bool) (ps : List (PositionRow F)) (vs : List (Position F))
      → scan_positions fails ps ≡ ok vs
      → ((r : PositionResponse F) → In r (responses vs) → (p : PositionRow F) × In p ps × Shows p r)
        × ((p : PositionRow F)
            → In p ps
            → (r : PositionResponse F) × In r (responses vs) × Shows p r)
  unfolding scan_positions responses
  scan_positions-Shows fails [] vs e = by_iterate (fails iterate) e
    where
      by_iterate :
          (b : Bool)
          → (let r : Result QueryError (List (Position F)) = if b then err iterate else ok [] in r)
            ≡ ok vs
          → ((r : PositionResponse F)
              → In r (responses vs)
              → (p : PositionRow F) × In p [] × Shows p r)
            × ((p : PositionRow F)
                → In p []
                → (r : PositionResponse F) × In r (responses vs) × Shows p r)
      by_iterate true e = cc
      by_iterate false e =
          let same : vs ≡ [] = cc e in
          ((λ r i. absurd (elim (rw same at i) [ ])), (λ p i. elim i [ ]))
  scan_positions-Shows fails (p ∷ ps) vs e =
      let (v, ws, cons, first, rest) =
        scanned_first (fails scan) (scan_position p) (scan_positions fails ps) vs e in
      let (back, forth) = scan_positions-Shows fails ps ws rest in
      let shown = scan_position-Shows p v first in
      rw cons ((λ r i. from_entry v ws shown back r i), (λ q i. to_entry v ws shown forth q i))
    where
      from_entry :
          (v : Position F) (ws : List (Position F))
          → Shows p (position_response v)
          → ((r : PositionResponse F)
              → In r (responses ws)
              → (q : PositionRow F) × In q ps × Shows q r)
          → (r : PositionResponse F) → In r (position_response v ∷ responses ws)
          → (q : PositionRow F) × In q (p ∷ ps) × Shows q r
      from_entry v ws shown back r (here same) = (p, here refl, rw same shown)
      from_entry v ws shown back r (there i) = let (q, j, s) = back r i in (q, there j, s)

      to_entry :
          (v : Position F) (ws : List (Position F))
          → Shows p (position_response v)
          → ((q : PositionRow F)
              → In q ps
              → (r : PositionResponse F) × In r (responses ws) × Shows q r)
          → (q : PositionRow F) → In q (p ∷ ps)
          → (r : PositionResponse F) × In r (position_response v ∷ responses ws) × Shows q r
      to_entry v ws shown forth q (here same) = (position_response v, here refl, rw same shown)
      to_entry v ws shown forth q (there i) = let (r, j, s) = forth q i in (r, there j, s)

  scanned :
      {S : Type 0} (fails : QueryError → Bool) (db : Db S F) (vs : List (Position F))
      → positions fails db ≡ ok vs
      → scan_positions fails (latest_rows db.positions) ≡ ok vs
  unfolding positions
  scanned fails db vs e = by_query (fails query) e
    where
      by_query :
          (b : Bool)
          → (let r : Result QueryError (List (Position F)) =
                if b then err query else scan_positions fails (latest_rows db.positions) in
              r)
            ≡ ok vs
          → scan_positions fails (latest_rows db.positions) ≡ ok vs
      by_query true e = cc
      by_query false e = e

  -- What the handler of `/api/positions` does with a result of the store.
  abbrev pub Replies : {S : Type 0} → Db S F → Result QueryError (List (Position F)) → Type 0
  Replies db q =
      ((e : QueryError) × (q ≡ err e)
        × (serve_positions q ≡ http_error (text "could not load positions") 500 ∷ []))
      ⊎ ((rs : List (PositionResponse F)) × (serve_positions q
            ≡ set_header (text "Content-Type") (text "application/json")
              ∷ set_header (text "Cache-Control") (text "no-store")
              ∷ set_header (text "X-Content-Type-Options") (text "nosniff")
              ∷ encode rs
              ∷ [])
          × ShowsLatest db.positions rs)

  -- The handler of `/api/positions` over the store: if the query fails, it makes one call, an error
  -- with the status 500, and sends no position; else it sets the three headers and encodes a list in
  -- which each entry shows all fields of a row of the table, and each node that has a row has an entry.
  -- No row of the same node has a greater text of the source time than the one shown, in the order of
  -- the stored texts, nor the same text and a greater key; and, before the year 10000, none was sent in
  -- a later second.
  pub serve_positions-Replies :
      {S : Type 0} (fails : QueryError → Bool) (db : Db S F) → Replies db (positions fails db)
  unfolding serve_positions
  serve_positions-Replies fails db = by_query (positions fails db) refl
    where
      by_query : (q : Result QueryError (List (Position F))) → positions fails db ≡ q → Replies db q
      by_query (err x) e = inl (x, refl, refl)
      by_query (ok vs) e =
          let (back, forth) =
            scan_positions-Shows fails (latest_rows db.positions) vs (scanned fails db vs e) in
          inr (
            responses vs,
            refl,
            record {
              sound = λ r i.
                  let (p, j, s) = back r i in
                  let (k, newest) = latest_rows_sound db.positions p j in
                  (p, k, s, λ q i same. older-IsLatest p q (newest q i same));
              complete = λ q i.
                  let ((p, j, same), _) = latest_rows_one_per_node db.positions q i in
                  let (r, k, s) = forth p j in (r, k, s.source_id ∙ ap node_id same);
            },
          )
