-- ===== src/Store/Nodes/Keys.antt =====
-- `UpsertNode` and the keys of the tables.
use mesthastic_caltopo_bridg.Prelude.{
  ℕ, ◌≤◌, ◌≢◌, refl, sym, ◌∙◌, subst, ap, Bool, true, false, ◌&&◌, List, [], ◌∷◌, ◌==◌, All,
  All-map, here, there, Ascending, Distinct, Bool-cases, inl, inr, if◌then◌else◌,
}
use mesthastic_caltopo_bridg.Go.Text.{Text, text_eq, is_empty}
use mesthastic_caltopo_bridg.Go.Time.{Time}
use mesthastic_caltopo_bridg.Model.NodeId.{node_id}
use mesthastic_caltopo_bridg.Store.Tables.{PacketRow, PositionRow, DeliveryRow, Db, Result, ok, err}
use mesthastic_caltopo_bridg.Store.Invariant.{Refers, WellFormed}
use mesthastic_caltopo_bridg.Store.Nodes.{NodeError, rename_positions, upsert_node}
use mesthastic_caltopo_bridg.Store.Nodes.Names.{new_callsign, renamed, Named, upsert_node-Named}

module _ {F : Type 0} (callsign : Text) (node : ℕ) where
  abbrev renames : PositionRow F → Bool
  renames p = p.source_node == node && text_eq p.callsign (node_id node)

  All-rename :
      (P : PositionRow F → Type 0) (ps : List (PositionRow F))
      → ((p : PositionRow F) → P p → P (record p { callsign = callsign }))
      → All P ps
      → All P (rename_positions callsign node ps)
  unfolding rename_positions
  All-rename P [] f h = tt
  All-rename P (p ∷ ps) f h = elim (Bool-cases (renames p)) [
    | inl hit ↦ rw hit (f p h.0, All-rename P ps f h.1)
    | inr miss ↦ rw miss (h.0, All-rename P ps f h.1)
  ]

  Ascending-rename :
      (lo : ℕ) (ps : List (PositionRow F))
      → Ascending (λ (p : PositionRow F). p.id) lo ps
      → Ascending (λ (p : PositionRow F). p.id) lo (rename_positions callsign node ps)
  unfolding rename_positions
  Ascending-rename lo [] h = tt
  Ascending-rename lo (p ∷ ps) h = elim (Bool-cases (renames p)) [
    | inl hit ↦ rw hit (h.0, Ascending-rename p.id ps h.1)
    | inr miss ↦ rw miss (h.0, Ascending-rename p.id ps h.1)
  ]

  Distinct-rename :
      (ps : List (PositionRow F))
      → Distinct (λ (p : PositionRow F). p.dedupe_key) ps
      → Distinct (λ (p : PositionRow F). p.dedupe_key) (rename_positions callsign node ps)
  unfolding rename_positions
  Distinct-rename [] h = tt
  Distinct-rename (p ∷ ps) h =
      let others = All-rename (λ q. p.dedupe_key ≢ q.dedupe_key) ps (λ q k. k) h.0 in
      elim (Bool-cases (renames p)) [
        | inl hit ↦ rw hit (others, Distinct-rename ps h.1)
        | inr miss ↦ rw miss (others, Distinct-rename ps h.1)
      ]

  Refers-rename :
      (id : ℕ) (ps : List (PositionRow F))
      → Refers (λ (p : PositionRow F). p.id) ps id
      → Refers (λ (p : PositionRow F). p.id) (rename_positions callsign node ps) id
  unfolding rename_positions
  Refers-rename id [] (a, i, e) = elim i [ ]
  Refers-rename id (p ∷ ps) (a, here q, e) = elim (Bool-cases (renames p)) [
    | inl hit ↦ rw hit (record p { callsign = callsign }, here refl, ap (λ r. r.id) (sym q) ∙ e)
    | inr miss ↦ rw miss (p, here refl, ap (λ r. r.id) (sym q) ∙ e)
  ]
  Refers-rename id (p ∷ ps) (a, there i, e) =
      let r = Refers-rename id ps (a, i, e) in (r.0, there r.1, r.2)

module _ {S F : Type 0} (now : Time) (node : ℕ) (short_name long_name : Text) where
  renamed-WellFormed :
      (db : Db S F) → WellFormed db → WellFormed (renamed now node short_name long_name db)
  renamed-WellFormed db w = by_name (is_empty name)
    where
      name : Text
      name = new_callsign now node short_name long_name

      by_name :
          (b : Bool)
          → WellFormed (record db {
            nodes = (renamed now node short_name long_name db).nodes;
            positions = if b then db.positions else rename_positions name node db.positions;
          })
      by_name true = record {
        packet_ids = w.packet_ids;
        packet_top = w.packet_top;
        position_ids = w.position_ids;
        position_top = w.position_top;
        delivery_ids = w.delivery_ids;
        delivery_top = w.delivery_top;
        dedupe_keys = w.dedupe_keys;
        one_delivery = w.one_delivery;
        position_packet = w.position_packet;
        delivery_position = w.delivery_position;
      }
      by_name false = record {
        packet_ids = w.packet_ids;
        packet_top = w.packet_top;
        position_ids = Ascending-rename name node 0 db.positions w.position_ids;
        position_top =
            All-rename name node (λ r. r.id ≤ db.position_seq) db.positions (λ r h. h)
              w.position_top;
        delivery_ids = w.delivery_ids;
        delivery_top = w.delivery_top;
        dedupe_keys = Distinct-rename name node db.positions w.dedupe_keys;
        one_delivery = w.one_delivery;
        position_packet =
            All-rename name node (λ r. Refers (λ (p : PacketRow S). p.id) db.packets r.packet_id)
              db.positions (λ r h. h) w.position_packet;
        delivery_position =
            All-map
              (λ (r : DeliveryRow). Refers (λ (p : PositionRow F). p.id) db.positions r.position_id)
              (λ (r : DeliveryRow).
                Refers (λ (p : PositionRow F). p.id) (rename_positions name node db.positions)
                  r.position_id)
              db.deliveries (λ r h. Refers-rename name node r.position_id db.positions h)
              w.delivery_position;
      }

  -- `UpsertNode` keeps the tables well formed, whatever calls fail.
  pub upsert_node-WellFormed :
      (fails : NodeError → Bool) (db : Db S F)
      → WellFormed db
      → WellFormed (upsert_node fails now node short_name long_name db).0
  upsert_node-WellFormed fails db w =
      by_result (upsert_node fails now node short_name long_name db)
        (upsert_node-Named now node short_name long_name fails db)
    where
      by_result :
          (r : Db S F × Result NodeError (Unit {0}))
          → Named now node short_name long_name db r
          → WellFormed r.0
      by_result (db', err e) h = subst WellFormed (sym h) w
      by_result (db', ok u) h = subst WellFormed (sym h) (renamed-WellFormed db w)
