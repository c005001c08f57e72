-- ===== src/Caltopo/Filter.antt =====
-- The position filter of internal/caltopo/worker.go. `none` stands for a run-time panic.
pub mod Maps
pub mod Decisions
pub mod Smoothing
pub mod Safety
use mesthastic_caltopo_bridg.Prelude.{
  ℕ, suc, ◌+◌, ◌-◌, ◌/◌, Bool, true, false, ◌&&◌, ◌||◌, not, Option, none, some, List, [], ◌∷◌,
  ◌++◌, map, length, drop, get_elem?, ltb, ◌==◌, if◌then◌else◌,
}
use mesthastic_caltopo_bridg.Prelude.Int.{pos, leb_ℤ}
use mesthastic_caltopo_bridg.Go.Float.{Float64}
use mesthastic_caltopo_bridg.Go.Time.{Duration, sub}
use mesthastic_caltopo_bridg.Go.Time.Parse.{◌>>=◌}
use mesthastic_caltopo_bridg.Model.{Position}
use mesthastic_caltopo_bridg.Store.Sql.{order_by}
use mesthastic_caltopo_bridg.Store.Deliveries.{Delivery}

-- A Go map whose keys are numbers.
abbrev pub NumberMap : Type 0 → Type 0
NumberMap V = List (ℕ × V)

module _ {V : Type 0} where
  unfoldable pub lookup : ℕ → NumberMap V → Option V
  lookup k [] = none
  lookup k ((j, v) ∷ m) = let rest = lookup k m in if j == k then some v else rest

  unfoldable pub insert : ℕ → V → NumberMap V → NumberMap V
  insert k v [] = (k, v) ∷ []
  insert k v ((j, w) ∷ m) = let rest = insert k v m in if j == k then (k, v) ∷ m else (j, w) ∷ rest

  unfoldable pub delete : ℕ → NumberMap V → NumberMap V
  delete k [] = []
  delete k ((j, w) ∷ m) = let rest = delete k m in if j == k then rest else (j, w) ∷ rest

pub record FilteredDelivery (F : Type 0) : Type 0 where
  pub position : Position F
  pub publish : Bool

-- `last_published` is the pointer of the source.
pub record PositionFilterState (F : Type 0) : Type 0 where
  pub samples : List (Position F)
  pub last_published : Option (Position F)

pub record PositionFilter (F : Type 0) : Type 0 where
  pub nodes : NumberMap (PositionFilterState F)
  pub prepared : NumberMap (FilteredDelivery F)
  pub movement_meters : F
  pub heartbeat : Duration

unfoldable pub new_position_filter : {F : Type 0} → F → Duration → PositionFilter F
new_position_filter movement_meters heartbeat = record {
  nodes = [];
  prepared = [];
  movement_meters = movement_meters;
  heartbeat = heartbeat;
}

-- `append`, and the cut to the last three.
unfoldable pub add_sample : {F : Type 0} → List (Position F) → Position F → List (Position F)
add_sample samples p =
    let all = samples ++ p ∷ [] in if ltb 3 (length all) then drop (length all - 3) all else all

-- `state := f.nodes[node]`, and a new state where there is none.
abbrev pub state_of : {F : Type 0} → ℕ → NumberMap (PositionFilterState F) → PositionFilterState F
state_of node nodes = elim (lookup node nodes) [
  | none ↦ record { samples = []; last_published = none }
  | some s ↦ s
]

module _ {F : Type 0} (float : Float64 F) where
  open float use {add, mul, div, sin, cos, sqrt, atan2, pi, minimum, of_int, lt, le, is_nan}

  -- The order of `slices.Sort`, which puts a NaN first.
  unfoldable pub less : F → F → Bool
  less a b = lt a b || (is_nan a && not (is_nan b))

  unfoldable pub median_coordinate : List (Position F) → (Position F → F) → Option F
  unfolding less order_by
  median_coordinate positions coordinate =
      get_elem? (order_by less (map coordinate positions)) (length positions / 2)

  abbrev half : F → F
  half x = div x (of_int (pos 2))

  abbrev radians : F → F
  radians x = div (mul x pi) (of_int (pos 180))

  unfoldable pub distance_meters : Position F → Position F → F
  distance_meters left right =
      let latitude1 = radians left.latitude in
      let latitude2 = radians right.latitude in
      let latitude_delta = radians (float.sub right.latitude left.latitude) in
      let longitude_delta = radians (float.sub right.longitude left.longitude) in
      let haversine = add (mul (sin (half latitude_delta)) (sin (half latitude_delta))) (
        mul (mul (mul (cos latitude1) (cos latitude2)) (sin (half longitude_delta)))
          (sin (half longitude_delta))) in
      let capped = minimum (of_int (pos 1)) haversine in
      mul (mul (of_int (pos 6371000)) (of_int (pos 2)))
        (atan2 (sqrt capped) (sqrt (float.sub (of_int (pos 1)) capped)))

  module _ (f : PositionFilter F) (delivery : Delivery F) where
    abbrev pub state : PositionFilterState F
    state = state_of delivery.position.source_node f.nodes

    abbrev pub samples : List (Position F)
    samples = add_sample state.samples delivery.position

    -- No position published yet, or the last one at least a heartbeat ago.
    unfoldable pub publish_by_time : Option (Position F) → Bool
    unfolding sub
    publish_by_time none = true
    publish_by_time (some last) =
        leb_ℤ f.heartbeat (sub delivery.position.source_time last.source_time)

    -- With three samples, `*state.lastPublished` is read unless the time has decided.
    unfoldable pub publish_by_distance : Position F → Option (Position F) → Option Bool
    unfolding publish_by_time distance_meters
    publish_by_distance position none = if publish_by_time none then some true else none
    publish_by_distance position (some last) =
        if publish_by_time (some last)
        then some true
        else some (le f.movement_meters (distance_meters last position))

    -- The median of three samples, or the delivered position.
    unfoldable pub decide : Option (Position F × Bool)
    unfolding median_coordinate publish_by_distance add_sample lookup
    decide =
        if length samples == 3
        then (do
          latitude ← median_coordinate samples (λ p. p.latitude)
          longitude ← median_coordinate samples (λ p. p.longitude)
          let position = record delivery.position { latitude = latitude; longitude = longitude }
          publish ← publish_by_distance position state.last_published
          some (position, publish))
        else some (delivery.position, publish_by_time state.last_published)

    unfoldable pub prepare_new : Option (PositionFilter F × Position F × Bool)
    unfolding decide insert
    prepare_new = do
      (position, publish) ← decide
      some (
        record f {
          nodes = insert delivery.position.source_node (record state { samples = samples }) f.nodes;
          prepared =
              insert delivery.id (record { position = position; publish = publish }) f.prepared;
        },
        position,
        publish,
      )

    unfoldable pub prepare : Option (PositionFilter F × Position F × Bool)
    unfolding prepare_new
    prepare = elim (lookup delivery.id f.prepared) [
      | some p ↦ some (f, p.position, p.publish)
      | none ↦ prepare_new
    ]

-- The zero value of a position, which a missing key of the map reads as.
abbrev pub zero_position : {F : Type 0} → Float64 F → Position F
zero_position float = record {
  packet_id = 0;
  source_node = 0;
  mesh_packet_id = 0;
  source_port = pos 0;
  callsign = [];
  device_callsign = [];
  latitude = float.of_int (pos 0);
  longitude = float.of_int (pos 0);
  altitude = none;
  speed = none;
  course = none;
  location_source = [];
  precision_bits = 0;
  source_time = 0;
  received_at = 0;
}

module _ {F : Type 0} where
  -- The write through the pointer that the map holds for the node.
  unfoldable pub set_published :
      Position F → NumberMap (PositionFilterState F) → Option (NumberMap (PositionFilterState F))
  unfolding lookup insert
  set_published position nodes = elim (lookup position.source_node nodes) [
    | none ↦ none
    | some s ↦
        some (insert position.source_node (record s { last_published = some position }) nodes)
  ]

  unfoldable pub complete : Float64 F → PositionFilter F → ℕ → Bool → Option (PositionFilter F)
  unfolding set_published delete
  complete float f delivery_id published =
      let position : Position F = elim (lookup delivery_id f.prepared) [
        | none ↦ zero_position float
        | some p ↦ p.position
      ] in
      if published
      then (do
        nodes ← set_published position f.nodes
        some (record f { nodes = nodes; prepared = delete delivery_id f.prepared }))
      else some (record f { prepared = delete delivery_id f.prepared })
