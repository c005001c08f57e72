-- ===== src/Caltopo/Adapter/Published.antt =====
-- What holds when `Publish` returns without an error.
use mesthastic_caltopo_bridg.Prelude.{
  ◌≡◌, refl, Bool, true, false, ◌||◌, Option, none, some, List, [], ◌∷◌, arith, Bool-cases, inl,
  inr, if◌then◌else◌,
}
use mesthastic_caltopo_bridg.Go.Text.{Text, text_eq, text_eq_iff}
use mesthastic_caltopo_bridg.Go.Time.{Time, format_time}
use mesthastic_caltopo_bridg.Model.{Position}
use mesthastic_caltopo_bridg.Model.NodeId.{node_id}
use mesthastic_caltopo_bridg.Store.Tables.{TrackRow, Db, Result, ok, err}
use mesthastic_caltopo_bridg.Store.Tracks.{
  TrackError, query_track, save_track, find_track, upsert_track, taken, track_id, save_track_row,
}
use mesthastic_caltopo_bridg.Caltopo.Adapter.{
  Client, UpdateError, track_error, update_error, open_error, track_not_found, other_error,
  PublishError, Adapter, ensure_open, reconcile_or_create, device_of, save, create_and_save_track,
  update, update_new, update_or_replace, publish_track, publish,
}

find_track-upsert :
    (n : TrackRow) (ts : List TrackRow)
    → find_track n.source_id (upsert_track n ts) ≡ some n.track_id
unfolding find_track upsert_track
find_track-upsert n [] = ground (arith, text_eq_iff n.source_id n.source_id)
find_track-upsert n (t ∷ ts) = elim (Bool-cases (text_eq t.source_id n.source_id)) [
  | inl same ↦ rw same (rw same refl)
  | inr other ↦ rw other (rw other (find_track-upsert n ts))
]

module _ {C S F : Type 0} (client : Client C F) (fails : TrackError → Bool) (now : Time)
    (group : Text) where
  -- A track that was made is the stored one.
  abbrev IsSaved : Text → Adapter C S F × Result PublishError Text → Type 0
  IsSaved source (a, err e) = Unit
  IsSaved source (a, ok track) = find_track source a.db.tracks ≡ some track

  save-IsSaved :
      (source track : Text) (a : Adapter C S F)
      → IsSaved source (save client fails now group source track a)
  unfolding save save_track_row
  save-IsSaved source track a = by_test (fails save_track || taken n a.db.tracks)
    where
      n : TrackRow
      n = record {
        source_id = source;
        device_id = device_of group source;
        track_id = track;
        created_at = format_time now;
      }

      by_test :
          (b : Bool)
          → IsSaved source (
              let (db, r) : Db S F × Result TrackError (Unit {0}) =
                (if b
                  then (a.db, err save_track)
                  else (record a.db { tracks = upsert_track n a.db.tracks }, ok tt)) in
              elim r [
                | ok _ ↦ (record a { db = db }, ok track)
                | err e ↦ (record a { db = db }, err (track_error e))
              ])
      by_test true = tt
      by_test false = find_track-upsert n a.db.tracks

  create_and_save_track-IsSaved :
      (source title : Text) (a : Adapter C S F)
      → IsSaved source (create_and_save_track client fails now group source title a)
  unfolding create_and_save_track
  create_and_save_track-IsSaved source title a =
      by_result (reconcile_or_create client (device_of group source) title a.client)
    where
      by_result :
          (r : C × Result PublishError Text)
          → IsSaved source (elim r.1 as (λ _. Adapter C S F × Result PublishError Text) [
            | err e ↦ (record a { client = r.0 }, err e)
            | ok track ↦ save client fails now group source track (record a { client = r.0 })
          ])
      by_result (c, err e) = tt
      by_result (c, ok track) = save-IsSaved source track (record a { client = c })

  -- The last call of the client was an update of the stored track, and it gave no error.
  abbrev pub IsPublished : Position F → Adapter C S F × Option PublishError → Type 0
  IsPublished p (a, some e) = Unit
  IsPublished p (a, none) =
      (track : Text) × (c : C) × (find_track (node_id p.source_node) a.db.tracks ≡ some track)
      × (update client p track c ≡ (a.client, none))

  updated :
      (p : Position F) (track : Text) (a : Adapter C S F) (r : C × Option UpdateError)
      → find_track (node_id p.source_node) a.db.tracks ≡ some track
      → update client p track a.client ≡ r
      → IsPublished p (elim r.1 as (λ _. Adapter C S F × Option PublishError) [
        | none ↦ (record a { client = r.0 }, none)
        | some e ↦ (record a { client = r.0 }, some (update_error e))
      ])
  updated p track a (c, none) h e = (track, a.client, h, e)
  updated p track a (c, some x) h e = tt

  update_new-IsPublished :
      (p : Position F) (r : Adapter C S F × Result PublishError Text)
      → IsSaved (node_id p.source_node) r
      → IsPublished p (update_new client fails now group p r)
  unfolding update_new
  update_new-IsPublished p (a, err e) h = tt
  update_new-IsPublished p (a, ok track) h =
      updated p track a (update client p track a.client) h refl

  update_or_replace-IsPublished :
      (p : Position F) (r : Adapter C S F × Result PublishError Text)
      → IsSaved (node_id p.source_node) r
      → IsPublished p (update_or_replace client fails now group p r)
  unfolding update_or_replace
  update_or_replace-IsPublished p (a, err e) h = tt
  update_or_replace-IsPublished p (a, ok track) h = by_update (update client p track a.client) refl
    where
      by_update :
          (r : C × Option UpdateError)
          → update client p track a.client ≡ r
          → IsPublished p (elim r.1 as (λ _. Adapter C S F × Option PublishError) [
            | none ↦ (record a { client = r.0 }, none)
            | some (other_error m) ↦
                (record a { client = r.0 }, some (update_error (other_error m)))
            | some track_not_found ↦ update_new client fails now group p (
                create_and_save_track client fails now group
                  (node_id p.source_node)
                  p.callsign
                  (record a { client = r.0 }))
          ])
      by_update (c, none) e = (track, a.client, h, e)
      by_update (c, some (other_error m)) e = tt
      by_update (c, some track_not_found) e =
          update_new-IsPublished p
            (create_and_save_track client fails now group (node_id p.source_node) p.callsign
              (record a { client = c }))
            (create_and_save_track-IsSaved (node_id p.source_node) p.callsign
              (record a { client = c }))

  publish_track-IsPublished :
      (p : Position F) (a : Adapter C S F)
      → IsPublished p (publish_track client fails now group p a)
  unfolding publish_track track_id
  publish_track-IsPublished p a = by_query (fails query_track)
    where
      by_track :
          (o : Option Text)
          → find_track (node_id p.source_node) a.db.tracks ≡ o
          → IsPublished p (elim o as (λ _. Adapter C S F × Option PublishError) [
            | some track ↦ update_or_replace client fails now group p (a, ok track)
            | none ↦
                update_or_replace client fails now group p (
                  create_and_save_track client fails now group (node_id p.source_node) p.callsign a)
          ])
      by_track none e =
          update_or_replace-IsPublished p
            (create_and_save_track client fails now group (node_id p.source_node) p.callsign a)
            (create_and_save_track-IsSaved (node_id p.source_node) p.callsign a)
      by_track (some track) e = update_or_replace-IsPublished p (a, ok track) e

      by_query :
          (b : Bool)
          → IsPublished p
              (elim (if b
                  then err query_track
                  else ok (find_track (node_id p.source_node) a.db.tracks))
                as (λ _. Adapter C S F × Option PublishError) [
                  | err e ↦ (a, some (track_error e))
                  | ok (some track) ↦ update_or_replace client fails now group p (a, ok track)
                  | ok none ↦ update_or_replace client fails now group p (
                      create_and_save_track client fails now group
                        (node_id p.source_node)
                        p.callsign
                        a)
                ])
      by_query true = tt
      by_query false = by_track (find_track (node_id p.source_node) a.db.tracks) refl

  -- A publication without an error has ended with an update of one track by the client, with no
  -- error, and that track is the one stored for the node.
  pub publish-IsPublished :
      (opened_map : Text) (p : Position F) (a : Adapter C S F)
      → IsPublished p (publish client fails now group opened_map p a)
  unfolding publish
  publish-IsPublished opened_map p a = by_open (ensure_open client opened_map a.client)
    where
      by_open :
          (r : C × Option Text)
          → IsPublished p (elim r.1 as (λ _. Adapter C S F × Option PublishError) [
            | some e ↦ (record a { client = r.0 }, some (open_error e))
            | none ↦ publish_track client fails now group p (record a { client = r.0 })
          ])
      by_open (c, none) = publish_track-IsPublished p (record a { client = c })
      by_open (c, some e) = tt
