-- ===== src/Caltopo/Adapter.antt =====
-- The publisher: internal/caltopo/adapter.go, with the tracks in the store. The CalTopo client is a
-- parameter, a record of its methods on a state `C`.
pub mod Published
use mesthastic_caltopo_bridg.Prelude.{Bool, Option, none, some, List, [], ◌∷◌, ◌++◌, if◌then◌else◌}
use mesthastic_caltopo_bridg.Go.Text.{Text, text, text_eq, is_empty, trim_prefix, trim_space}
use mesthastic_caltopo_bridg.Go.Time.{Time}
use mesthastic_caltopo_bridg.Model.{Position}
use mesthastic_caltopo_bridg.Model.NodeId.{node_id}
use mesthastic_caltopo_bridg.Store.Tables.{Db, Result, ok, err}
use mesthastic_caltopo_bridg.Store.Tracks.{TrackError, track_id, save_track_row}

pub record Feature : Type 0 where
  pub id : Text
  pub device_id : Text

-- An error of an update: `gotopo.ErrNotFound`, or another.
pub data UpdateError : Type 0 where
  track_not_found : UpdateError
  other_error : Text → UpdateError

pub record Client (C F : Type 0) : Type 0 where
  pub map_id : C → Text
  pub open_map : Text → C → C × Option Text
  pub live_tracks : C → C × Result Text (List Feature)
  -- of a title and a device
  pub add_live_track : Text → Text → C → C × Result Text Text
  pub update_live_track : Text → F → F → Option F → C → C × Option UpdateError

pub data PublishError : Type 0 where
  open_error : Text → PublishError
  list_tracks_error : Text → PublishError
  create_error : Text → PublishError
  track_error : TrackError → PublishError
  update_error : UpdateError → PublishError

pub record Adapter (C S F : Type 0) : Type 0 where
  pub client : C
  pub db : Db S F

unfoldable pub find_device : Text → List Feature → Option Text
find_device device [] = none
find_device device (f ∷ fs) =
    let rest = find_device device fs in if text_eq f.device_id device then some f.id else rest

abbrev pub device_of : Text → Text → Text
device_of group source = group ++ (0x2d ∷ trim_prefix (text "!") source)

module _ {C F : Type 0} (client : Client C F) where
  unfoldable pub ensure_open : Text → C → C × Option Text
  ensure_open opened_map c =
      if text_eq (client.map_id c) opened_map then (c, none) else client.open_map opened_map c

  unfoldable pub create : Text → Text → C → C × Result PublishError Text
  unfolding trim_space
  create device title c =
      let (c', r) =
        client.add_live_track (if is_empty (trim_space title) then device else title) device c in
      elim r [ ok id ↦ (c', ok id) | err e ↦ (c', err (create_error e)) ]

  unfoldable pub reconcile_or_create : Text → Text → C → C × Result PublishError Text
  unfolding create find_device
  reconcile_or_create device title c =
      let (c', r) = client.live_tracks c in
      elim r [
        | err e ↦ (c', err (list_tracks_error e))
        | ok features ↦ elim (find_device (text "FLEET:" ++ device) features) [
          | some id ↦ (c', ok id)
          | none ↦ create device title c'
        ]
      ]

  abbrev pub update : Position F → Text → C → C × Option UpdateError
  update p track c = client.update_live_track track p.latitude p.longitude p.altitude c

module _ {C S F : Type 0} (client : Client C F) (fails : TrackError → Bool) (now : Time)
    (group : Text) where
  unfoldable pub save : Text → Text → Adapter C S F → Adapter C S F × Result PublishError Text
  unfolding save_track_row trim_prefix
  save source track a =
      let (db, r) = save_track_row fails now source (device_of group source) track a.db in
      elim r [
        | ok _ ↦ (record a { db = db }, ok track)
        | err e ↦ (record a { db = db }, err (track_error e))
      ]

  unfoldable pub create_and_save_track :
      Text → Text → Adapter C S F → Adapter C S F × Result PublishError Text
  unfolding reconcile_or_create save
  create_and_save_track source title a =
      let (c, r) = reconcile_or_create client (device_of group source) title a.client in
      elim r [
        | err e ↦ (record a { client = c }, err e)
        | ok track ↦ save source track (record a { client = c })
      ]

  -- The update of a track that was made anew.
  unfoldable pub update_new :
      Position F → Adapter C S F × Result PublishError Text → Adapter C S F × Option PublishError
  update_new p (a, err e) = (a, some e)
  update_new p (a, ok track) =
      let (c, e) = update client p track a.client in
      elim e [
        | none ↦ (record a { client = c }, none)
        | some e ↦ (record a { client = c }, some (update_error e))
      ]

  -- The update of a track; one that is not there any more is made anew.
  unfoldable pub update_or_replace :
      Position F → Adapter C S F × Result PublishError Text → Adapter C S F × Option PublishError
  unfolding update_new create_and_save_track node_id
  update_or_replace p (a, err e) = (a, some e)
  update_or_replace p (a, ok track) =
      let (c, e) = update client p track a.client in
      elim e [
        | none ↦ (record a { client = c }, none)
        | some (other_error m) ↦ (record a { client = c }, some (update_error (other_error m)))
        | some track_not_found ↦
            update_new p
              (create_and_save_track (node_id p.source_node) p.callsign (record a { client = c }))
      ]

  unfoldable pub publish_track : Position F → Adapter C S F → Adapter C S F × Option PublishError
  unfolding update_or_replace track_id
  publish_track p a = elim (track_id fails (node_id p.source_node) a.db) [
    | err e ↦ (a, some (track_error e))
    | ok (some track) ↦ update_or_replace p (a, ok track)
    | ok none ↦ update_or_replace p (create_and_save_track (node_id p.source_node) p.callsign a)
  ]

  unfoldable pub publish : Text → Position F → Adapter C S F → Adapter C S F × Option PublishError
  unfolding publish_track ensure_open
  publish opened_map p a =
      let (c, e) = ensure_open client opened_map a.client in
      elim e [
        | some e ↦ (record a { client = c }, some (open_error e))
        | none ↦ publish_track p (record a { client = c })
      ]
