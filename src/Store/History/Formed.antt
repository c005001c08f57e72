-- ===== src/Store/History/Formed.antt =====
-- Every method that writes keeps the tables well formed.
use mesthastic_caltopo_bridg.Prelude.{sym, subst, Bool, true, ◌||◌, [], Bool-cases, inl, inr}
use mesthastic_caltopo_bridg.Go.Float.{Env}
use mesthastic_caltopo_bridg.Go.Text.{Text}
use mesthastic_caltopo_bridg.Go.Time.{Time, format_time}
use mesthastic_caltopo_bridg.Store.Tables.{TrackRow, Db}
use mesthastic_caltopo_bridg.Store.Invariant.{WellFormed, archive-WellFormed}
use mesthastic_caltopo_bridg.Store.Deliveries.Settle.{mark-WellFormed}
use mesthastic_caltopo_bridg.Store.Nodes.Keys.{upsert_node-WellFormed}
use mesthastic_caltopo_bridg.Store.Tracks.{TrackError, save_track, taken, save_track_row}
use mesthastic_caltopo_bridg.Store.History.{Step, archives, names, tracks, delivers, postpones}

module _ {S F : Type 0} where
  -- `SaveTrack` changes no key and no reference.
  save_track_row-WellFormed :
      (fails : TrackError → Bool) (now : Time) (source device track : Text) (db : Db S F)
      → WellFormed db
      → WellFormed (save_track_row fails now source device track db).0
  unfolding save_track_row
  save_track_row-WellFormed fails now source device track db w =
      elim (Bool-cases (fails save_track || taken n db.tracks)) [
        | inl refused ↦ rw refused w
        | inr saved ↦ rw saved (record {
          packet_ids = w.packet_ids;
          packet_top = w.packet_top;
          position_ids = w.position_ids;
          position_top = w.position_top;
          delivery_ids = w.delivery_ids;
          delivery_top = w.delivery_top;
          dedupe_keys = w.dedupe_keys;
          one_delivery = w.one_delivery;
          position_packet = w.position_packet;
          delivery_position = w.delivery_position;
        })
      ]
    where
      n : TrackRow
      n = record {
        source_id = source;
        device_id = device;
        track_id = track;
        created_at = format_time now;
      }

  module _ (env : Env F) where
    pub Step-WellFormed : {u v : Db S F} → Step env u v → WellFormed u → WellFormed v
    Step-WellFormed {u} (archives fails now packet enqueue o e) w =
        subst WellFormed (sym e) (archive-WellFormed env now packet enqueue fails u o w)
    Step-WellFormed {u} (names fails now node short_name long_name e) w =
        subst WellFormed (sym e) (upsert_node-WellFormed now node short_name long_name fails u w)
    Step-WellFormed {u} (tracks fails now source device track e) w =
        subst WellFormed (sym e) (save_track_row-WellFormed fails now source device track u w)
    Step-WellFormed {u} (delivers fails now id e) w =
        subst WellFormed (sym e) (mark-WellFormed u fails id now now 0 true [] w).0
    Step-WellFormed {u} (postpones fails id attempts time terminal error e) w =
        subst WellFormed (sym e) (mark-WellFormed u fails id time time attempts terminal error w).1
