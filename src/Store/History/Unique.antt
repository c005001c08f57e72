-- ===== src/Store/History/Unique.antt =====
-- The keys that the schema declares, over the life of a database.
use mesthastic_caltopo_bridg.Prelude.{
  ℕ, ◌≡◌, refl, sym, ap, subst, Bool, true, false, ◌||◌, Option, arith, Distinct, Bool-cases, inl,
  inr,
}
use mesthastic_caltopo_bridg.Go.Float.{Env}
use mesthastic_caltopo_bridg.Go.Text.{Text}
use mesthastic_caltopo_bridg.Go.Time.{Time, format_time}
use mesthastic_caltopo_bridg.Model.{Packet, Position}
use mesthastic_caltopo_bridg.Store.Tables.{
  NodeRow, TrackRow, DeliveryRow, Db, created, Result, ok, err,
}
use mesthastic_caltopo_bridg.Store.Archive.{ArchiveError, archive}
use mesthastic_caltopo_bridg.Store.Archive.Outcome.{
  Archived, packet_only, repeated, fresh, Outcome, archive-Outcome,
}
use mesthastic_caltopo_bridg.Store.Invariant.{WellFormed, created-WellFormed}
use mesthastic_caltopo_bridg.Store.Deliveries.{
  MarkError, update_delivery, delivered_row, failed_row, mark_delivered, mark_failed,
}
use mesthastic_caltopo_bridg.Store.Deliveries.Marks.{update_delivery_kinds}
use mesthastic_caltopo_bridg.Store.Nodes.{NodeError, upsert_node}
use mesthastic_caltopo_bridg.Store.Nodes.Names.{new_row, renamed, Named, upsert_node-Named}
use mesthastic_caltopo_bridg.Store.Tracks.{TrackError, save_track, taken, save_track_row}
use mesthastic_caltopo_bridg.Store.History.{
  Step, archives, names, tracks, delivers, postpones, Reach, here, next,
}
use mesthastic_caltopo_bridg.Store.History.Formed.{Step-WellFormed}
use mesthastic_caltopo_bridg.Store.Keys.{
  upsert_row_of-Distinct, taken-none, upsert_track-Distinct, source-IsKey, device-IsKey,
  track-IsKey,
}

-- One row for each node, and no two tracks with one source, one device or one track id.
pub record HasUniqueNames {S F : Type 0} (db : Db S F) : Type 0 where
  pub node_nums : Distinct (λ (n : NodeRow). n.node_num) db.nodes
  pub sources : Distinct (λ (t : TrackRow). t.source_id) db.tracks
  pub devices : Distinct (λ (t : TrackRow). t.device_id) db.tracks
  pub track_ids : Distinct (λ (t : TrackRow). t.track_id) db.tracks

module _ {S F : Type 0} where
  save_track_row-HasUniqueNames :
      (fails : TrackError → Bool) (now : Time) (source device track : Text) (db : Db S F)
      → HasUniqueNames db
      → HasUniqueNames (save_track_row fails now source device track db).0
  unfolding save_track_row
  save_track_row-HasUniqueNames fails now source device track db u =
      elim (Bool-cases (fails save_track || taken n db.tracks)) [
        | inl refused ↦ rw refused u
        | inr saved ↦
            let free = taken-none n db.tracks (ground arith) in
            rw saved (record {
              node_nums = u.node_nums;
              sources =
                  upsert_track-Distinct n (λ t. t.source_id) db.tracks (source-IsKey n) free
                    u.sources u.sources;
              devices =
                  upsert_track-Distinct n (λ t. t.device_id) db.tracks (device-IsKey n) free
                    u.sources u.devices;
              track_ids =
                  upsert_track-Distinct n (λ t. t.track_id) db.tracks (track-IsKey n) free u.sources
                    u.track_ids;
            })
      ]
    where
      n : TrackRow
      n = record {
        source_id = source;
        device_id = device;
        track_id = track;
        created_at = format_time now;
      }

  -- Only the nodes and the tracks count.
  HasUniqueNames-same :
      {db db' : Db S F}
      → db'.nodes ≡ db.nodes
      → db'.tracks ≡ db.tracks
      → HasUniqueNames db
      → HasUniqueNames db'
  HasUniqueNames-same n t u = record {
    node_nums = subst (Distinct (λ (m : NodeRow). m.node_num)) (sym n) u.node_nums;
    sources = subst (Distinct (λ (r : TrackRow). r.source_id)) (sym t) u.sources;
    devices = subst (Distinct (λ (r : TrackRow). r.device_id)) (sym t) u.devices;
    track_ids = subst (Distinct (λ (r : TrackRow). r.track_id)) (sym t) u.track_ids;
  }

  update_delivery-HasUniqueNames :
      (fails : MarkError → Bool) (id : ℕ) (f : DeliveryRow → DeliveryRow) (db : Db S F)
      → HasUniqueNames db
      → HasUniqueNames (update_delivery fails id f db).0
  update_delivery-HasUniqueNames fails id f db u = elim (update_delivery_kinds id f db fails) [
    | inl left ↦ subst HasUniqueNames (sym left) u
    | inr made ↦
        HasUniqueNames-same (ap (λ (e : Db S F). e.nodes) made) (ap (λ (e : Db S F). e.tracks) made)
          u
  ]

  upsert_node-HasUniqueNames :
      (fails : NodeError → Bool) (now : Time) (node : ℕ) (short_name long_name : Text) (db : Db S F)
      → HasUniqueNames db
      → HasUniqueNames (upsert_node fails now node short_name long_name db).0
  upsert_node-HasUniqueNames fails now node short_name long_name db u =
      by_result (upsert_node fails now node short_name long_name db)
        (upsert_node-Named now node short_name long_name fails db)
    where
      stored : HasUniqueNames (renamed now node short_name long_name db)
      stored = record {
        node_nums =
            upsert_row_of-Distinct (new_row now node short_name long_name) db.nodes u.node_nums;
        sources = u.sources;
        devices = u.devices;
        track_ids = u.track_ids;
      }

      by_result :
          (r : Db S F × Result NodeError (Unit {0}))
          → Named now node short_name long_name db r
          → HasUniqueNames r.0
      by_result (db', err e) h = subst HasUniqueNames (sym h) u
      by_result (db', ok x) h = subst HasUniqueNames (sym h) stored

  module _ (env : Env F) where
    Archived-same :
        {now : Time} {packet : Packet S} {enqueue : Bool} {db db' : Db S F}
        {o : Option (Position F)} {x : ℕ × ℕ × Bool}
        → Archived env now packet enqueue db o db' x
        → (db'.nodes ≡ db.nodes) × (db'.tracks ≡ db.tracks)
    Archived-same packet_only = (refl, refl)
    Archived-same (repeated p existing found) = (refl, refl)
    Archived-same {enqueue = true} (fresh p missing fits) = (refl, refl)
    Archived-same {enqueue = false} (fresh p missing fits) = (refl, refl)

    archive-HasUniqueNames :
        (fails : ArchiveError → Bool) (now : Time) (packet : Packet S) (enqueue : Bool)
        (o : Option (Position F)) (db : Db S F)
        → HasUniqueNames db
        → HasUniqueNames (archive env fails now packet enqueue o db).0
    archive-HasUniqueNames fails now packet enqueue o db u =
        by_outcome (archive env fails now packet enqueue o db)
          (archive-Outcome env now packet enqueue fails db o)
      where
        by_outcome :
            (r : Db S F × Result ArchiveError (ℕ × ℕ × Bool))
            → Outcome env now packet enqueue fails db o r
            → HasUniqueNames r.0
        by_outcome (db', err e) h = subst HasUniqueNames (sym h) u
        by_outcome (db', ok x) h = let s = Archived-same h in HasUniqueNames-same s.0 s.1 u

    Step-HasUniqueNames : {u v : Db S F} → Step env u v → HasUniqueNames u → HasUniqueNames v
    unfolding mark_delivered mark_failed
    Step-HasUniqueNames {u} (archives fails now packet enqueue o e) h =
        subst HasUniqueNames (sym e) (archive-HasUniqueNames fails now packet enqueue o u h)
    Step-HasUniqueNames {u} (names fails now node short_name long_name e) h =
        subst HasUniqueNames (sym e)
          (upsert_node-HasUniqueNames fails now node short_name long_name u h)
    Step-HasUniqueNames {u} (tracks fails now source device track e) h =
        subst HasUniqueNames (sym e)
          (save_track_row-HasUniqueNames fails now source device track u h)
    Step-HasUniqueNames {u} (delivers fails now id e) h =
        subst HasUniqueNames (sym e)
          (update_delivery-HasUniqueNames fails id (delivered_row now) u h)
    Step-HasUniqueNames {u} (postpones fails id attempts time terminal error e) h =
        subst HasUniqueNames (sym e)
          (update_delivery-HasUniqueNames fails id (failed_row attempts time terminal error) u h)

    -- Every database that calls of the store make of a new one has growing keys with the counters not
    -- below them, unique keys of positions and deliveries, no reference to a row that is not there,
    -- one row for each node, and no two tracks with one source, device or track id.
    pub Reach-keys : {db : Db S F} → Reach env created db → WellFormed db × HasUniqueNames db
    Reach-keys here =
        (created-WellFormed, record { node_nums = tt; sources = tt; devices = tt; track_ids = tt })
    Reach-keys (next r st) =
        let (w, u) = Reach-keys r in (Step-WellFormed env st w, Step-HasUniqueNames st u)
