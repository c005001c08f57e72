-- ===== src/Store/Tracks.antt =====
-- `TrackID` and `SaveTrack` of internal/store/store.go.
use mesthastic_caltopo_bridg.Prelude.{
  Bool, false, ◌&&◌, ◌||◌, not, Option, none, some, List, [], ◌∷◌, if◌then◌else◌,
}
use mesthastic_caltopo_bridg.Go.Text.{Text, text_eq}
use mesthastic_caltopo_bridg.Go.Time.{Time, format_time}
use mesthastic_caltopo_bridg.Store.Tables.{TrackRow, Db, Result, ok, err}

pub data TrackError : Type 0 where
  query_track save_track : TrackError

unfoldable pub find_track : Text → List TrackRow → Option Text
find_track source_id [] = none
find_track source_id (t ∷ ts) =
    let rest = find_track source_id ts in
    if text_eq t.source_id source_id then some t.track_id else rest

-- The UNIQUE columns: another source has the device or the track.
unfoldable pub taken : TrackRow → List TrackRow → Bool
taken n [] = false
taken n (t ∷ ts) =
    let rest = taken n ts in
    (not (text_eq t.source_id n.source_id)
      && (text_eq t.device_id n.device_id || text_eq t.track_id n.track_id))
    || rest

-- `INSERT … ON CONFLICT(source_id) DO UPDATE`, which keeps the time of creation.
unfoldable pub upsert_track : TrackRow → List TrackRow → List TrackRow
upsert_track n [] = n ∷ []
upsert_track n (t ∷ ts) =
    let rest = upsert_track n ts in
    if text_eq t.source_id n.source_id
    then record t { device_id = n.device_id; track_id = n.track_id } ∷ ts
    else t ∷ rest

module _ {S F : Type 0} where
  unfoldable pub track_id : (TrackError → Bool) → Text → Db S F → Result TrackError (Option Text)
  unfolding find_track
  track_id fails source_id db =
      if fails query_track then err query_track else ok (find_track source_id db.tracks)

  unfoldable pub save_track_row :
      (TrackError → Bool)
      → Time
      → Text
      → Text
      → Text
      → Db S F
      → Db S F × Result TrackError (Unit {0})
  unfolding taken upsert_track
  save_track_row fails now source_id device_id track db =
      let n : TrackRow = record {
        source_id = source_id;
        device_id = device_id;
        track_id = track;
        created_at = format_time now;
      } in
      if fails save_track || taken n db.tracks
      then (db, err save_track)
      else (record db { tracks = upsert_track n db.tracks }, ok tt)
