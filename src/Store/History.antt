-- ===== src/Store/History.antt =====
-- The life of the database of internal/store/store.go: sequences of calls of the methods that write,
-- one after the other, since the store holds one connection.
pub mod Formed
pub mod Keeping
pub mod Kept
pub mod Unique
use mesthastic_caltopo_bridg.Prelude.{ℕ, ◌≡◌, refl, subst, sym, Bool, Option}
use mesthastic_caltopo_bridg.Go.Float.{Env}
use mesthastic_caltopo_bridg.Go.Text.{Text}
use mesthastic_caltopo_bridg.Go.Time.{Time}
use mesthastic_caltopo_bridg.Model.{Packet, Position}
use mesthastic_caltopo_bridg.Store.Tables.{Db, created}
use mesthastic_caltopo_bridg.Store.Archive.{ArchiveError, archive}
use mesthastic_caltopo_bridg.Store.Deliveries.{MarkError, mark_delivered, mark_failed}
use mesthastic_caltopo_bridg.Store.Nodes.{NodeError, upsert_node}
use mesthastic_caltopo_bridg.Store.Tracks.{TrackError, save_track_row}

-- A call, by any caller, with any calls of the driver failing.
pub data Step {S F : Type 0} (env : Env F) (db db' : Db S F) : Type 0 where
  archives :
      (fails : ArchiveError → Bool) (now : Time) (packet : Packet S) (enqueue : Bool)
      (position : Option (Position F))
      → db' ≡ (archive env fails now packet enqueue position db).0
      → Step env db db'
  names :
      (fails : NodeError → Bool) (now : Time) (node : ℕ) (short_name long_name : Text)
      → db' ≡ (upsert_node fails now node short_name long_name db).0
      → Step env db db'
  tracks :
      (fails : TrackError → Bool) (now : Time) (source device track : Text)
      → db' ≡ (save_track_row fails now source device track db).0
      → Step env db db'
  delivers :
      (fails : MarkError → Bool) (now : Time) (id : ℕ)
      → db' ≡ (mark_delivered fails now id db).0
      → Step env db db'
  postpones :
      (fails : MarkError → Bool) (id attempts : ℕ) (next : Time) (terminal : Bool) (error : Text)
      → db' ≡ (mark_failed fails id attempts next terminal error db).0
      → Step env db db'

pub data Reach {S F : Type 0} (env : Env F) (db : Db S F) : Db S F → Type 0 where
  here : Reach env db db
  next : {u v : Db S F} → Reach env db u → Step env u v → Reach env db v
