-- ===== src/Store/History/Kept.antt =====
-- What the life of a database never loses.
use mesthastic_caltopo_bridg.Prelude.{
  ℕ, ◌+◌, refl, sym, subst, Bool, true, false, ◌||◌, Option, [], ◌∷◌, append-nil, In-append_left,
  Bool-cases, inl, inr,
}
use mesthastic_caltopo_bridg.Go.Float.{Env}
use mesthastic_caltopo_bridg.Go.Text.{Text}
use mesthastic_caltopo_bridg.Go.Time.{Time, format_time}
use mesthastic_caltopo_bridg.Model.{Packet, Position}
use mesthastic_caltopo_bridg.Store.Tables.{TrackRow, Db, Result, ok, err}
use mesthastic_caltopo_bridg.Store.Archive.{ArchiveError, packet_row, archive}
use mesthastic_caltopo_bridg.Store.Archive.Outcome.{
  with_packet, with_new, Archived, packet_only, repeated, fresh, Outcome, archive-Outcome,
}
use mesthastic_caltopo_bridg.Store.Deliveries.{
  delivered_row, failed_row, mark_delivered, mark_failed,
}
use mesthastic_caltopo_bridg.Store.Nodes.{NodeError, upsert_node}
use mesthastic_caltopo_bridg.Store.Nodes.Names.{Named, upsert_node-Named}
use mesthastic_caltopo_bridg.Store.Tracks.{TrackError, save_track, taken, save_track_row}
use mesthastic_caltopo_bridg.Store.History.{
  Step, archives, names, tracks, delivers, postpones, Reach, here, next,
}
use mesthastic_caltopo_bridg.Store.History.Keeping.{
  Keeps, Keeps-refl, Keeps-trans, renamed-Keeps, update_delivery-Keeps,
}

module _ {S F : Type 0} where
  save_track_row-Keeps :
      (failing : TrackError → Bool) (now : Time) (source device track : Text) (db : Db S F)
      → Keeps db (save_track_row failing now source device track db).0
  unfolding save_track_row
  save_track_row-Keeps failing now source device track db =
      elim (Bool-cases (failing save_track || taken n db.tracks)) [
        | inl refused ↦ rw refused (Keeps-refl db)
        | inr saved ↦ rw saved (record {
          packets = ([], sym (append-nil db.packets));
          positions = λ p i. (p.callsign, i);
          deliveries = λ d i. (d, i, refl, refl);
          settled = λ d i h. i;
        })
      ]
    where
      n : TrackRow
      n = record {
        source_id = source;
        device_id = device;
        track_id = track;
        created_at = format_time now;
      }

  module _ (env : Env F) where
    with_packet-Keeps :
        (packet : Packet S) (db : Db S F) (now : Time) (enqueue : Bool)
        → Keeps db (with_packet env now packet enqueue db)
    with_packet-Keeps packet db now enqueue = record {
      packets = (packet_row (db.packet_seq + 1) packet ∷ [], refl);
      positions = λ p i. (p.callsign, i);
      deliveries = λ d i. (d, i, refl, refl);
      settled = λ d i h. i;
    }

    with_new-Keeps :
        (now : Time) (packet : Packet S) (enqueue : Bool) (p : Position F) (db : Db S F)
        → Keeps db (with_new env now packet enqueue p db)
    with_new-Keeps now packet true p db = record {
      packets = (packet_row (db.packet_seq + 1) packet ∷ [], refl);
      positions = λ q i. (q.callsign, In-append_left q db.positions _ i);
      deliveries = λ d i. (d, In-append_left d db.deliveries _ i, refl, refl);
      settled = λ d i h. In-append_left d db.deliveries _ i;
    }
    with_new-Keeps now packet false p db = record {
      packets = (packet_row (db.packet_seq + 1) packet ∷ [], refl);
      positions = λ q i. (q.callsign, In-append_left q db.positions _ i);
      deliveries = λ d i. (d, i, refl, refl);
      settled = λ d i h. i;
    }

    Archived-Keeps :
        {now : Time} {packet : Packet S} {enqueue : Bool} {db db' : Db S F}
        {o : Option (Position F)} {x : ℕ × ℕ × Bool}
        → Archived env now packet enqueue db o db' x
        → Keeps db db'
    Archived-Keeps {now} {packet} {enqueue} {db} packet_only =
        with_packet-Keeps packet db now enqueue
    Archived-Keeps {now} {packet} {enqueue} {db} (repeated p existing found) =
        with_packet-Keeps packet db now enqueue
    Archived-Keeps {now} {packet} {enqueue} {db} (fresh p missing fits) =
        with_new-Keeps now packet enqueue p db

    archive-Keeps :
        (failing : ArchiveError → Bool) (now : Time) (packet : Packet S) (enqueue : Bool)
        (o : Option (Position F)) (db : Db S F)
        → Keeps db (archive env failing now packet enqueue o db).0
    archive-Keeps failing now packet enqueue o db =
        by_outcome (archive env failing now packet enqueue o db)
          (archive-Outcome env now packet enqueue failing db o)
      where
        by_outcome :
            (r : Db S F × Result ArchiveError (ℕ × ℕ × Bool))
            → Outcome env now packet enqueue failing db o r
            → Keeps db r.0
        by_outcome (db', err e) h = subst (Keeps db) (sym h) (Keeps-refl db)
        by_outcome (db', ok x) h = Archived-Keeps h

    upsert_node-Keeps :
        (failing : NodeError → Bool) (now : Time) (node : ℕ) (short_name long_name : Text)
        (db : Db S F)
        → Keeps db (upsert_node failing now node short_name long_name db).0
    upsert_node-Keeps failing now node short_name long_name db =
        by_result (upsert_node failing now node short_name long_name db)
          (upsert_node-Named now node short_name long_name failing db)
      where
        by_result :
            (r : Db S F × Result NodeError (Unit {0}))
            → Named now node short_name long_name db r
            → Keeps db r.0
        by_result (db', err e) h = subst (Keeps db) (sym h) (Keeps-refl db)
        by_result (db', ok x) h =
            subst (Keeps db) (sym h) (renamed-Keeps now node short_name long_name db)

    Step-Keeps : {u v : Db S F} → Step env u v → Keeps u v
    unfolding mark_delivered mark_failed
    Step-Keeps {u} (archives failing now packet enqueue o e) =
        subst (Keeps u) (sym e) (archive-Keeps failing now packet enqueue o u)
    Step-Keeps {u} (names failing now node short_name long_name e) =
        subst (Keeps u) (sym e) (upsert_node-Keeps failing now node short_name long_name u)
    Step-Keeps {u} (tracks failing now source device track e) =
        subst (Keeps u) (sym e) (save_track_row-Keeps failing now source device track u)
    Step-Keeps {u} (delivers failing now id e) =
        subst (Keeps u) (sym e)
          (update_delivery-Keeps failing id (delivered_row now) u (λ d. (refl, refl)))
    Step-Keeps {u} (postpones failing id attempts time terminal error e) = subst (Keeps u) (sym e) (
        update_delivery-Keeps failing id (failed_row attempts time terminal error) u
          (λ d. (refl, refl)))

    -- Over any sequence of calls, packets are only added behind the ones there are; no position is lost
    -- or changed but for its callsign; no delivery is lost or given another position; and a delivery
    -- that is settled never changes again.
    pub Reach-Keeps : {u v : Db S F} → Reach env u v → Keeps u v
    Reach-Keeps {u} here = Keeps-refl u
    Reach-Keeps (next r st) = Keeps-trans (Reach-Keeps r) (Step-Keeps st)
