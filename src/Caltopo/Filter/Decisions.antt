-- ===== src/Caltopo/Filter/Decisions.antt =====
-- The decisions of the position filter.
use mesthastic_caltopo_bridg.Prelude.{
  ℕ, ◌-◌, ◌/◌, ◌≤◌, ◌<◌, ◌≡◌, refl, ap, ◌∙◌, inl, inr, ◌⊎◌, ◌≢◌, Bool, true, false, ◌&&◌, ◌||◌,
  Option, none, some, List, [], ◌∷◌, ◌++◌, map, length, drop, ltb, ◌==◌, arith, In, here, In-map,
  In-append_right, drop-append, get_elem?-some, length-append, length-drop, length-map, Bool-cases,
  if◌then◌else◌,
}
use mesthastic_caltopo_bridg.Prelude.Int.{leb_ℤ}
use mesthastic_caltopo_bridg.Go.Float.{Float64}
use mesthastic_caltopo_bridg.Go.Time.{sub}
use mesthastic_caltopo_bridg.Go.Time.Parse.{◌>>=◌}
use mesthastic_caltopo_bridg.Model.{Position}
use mesthastic_caltopo_bridg.Store.Sql.{order_by}
use mesthastic_caltopo_bridg.Store.Sql.Laws.{order_by-In, length-order_by}
use mesthastic_caltopo_bridg.Store.Deliveries.{Delivery}
use mesthastic_caltopo_bridg.Caltopo.Filter.{
  lookup, insert, FilteredDelivery, PositionFilter, add_sample, less, median_coordinate,
  distance_meters, samples, state, publish_by_time, publish_by_distance, decide, prepare_new,
  prepare,
}
use mesthastic_caltopo_bridg.Caltopo.Filter.Maps.{lookup-insert}

-- The samples are the last three, the new one among them.
add_sample-length :
    {F : Type 0} (ps : List (Position F)) (p : Position F)
    → (length (add_sample ps p) ≤ 3) × (0 < length (add_sample ps p))
unfolding add_sample
add_sample-length ps p =
    ground
      (arith, length-append ps (p ∷ []), length-drop (length (ps ++ p ∷ []) - 3) (ps ++ p ∷ []))

add_sample-In : {F : Type 0} (ps : List (Position F)) (p : Position F) → In p (add_sample ps p)
unfolding add_sample
add_sample-In ps p = elim (Bool-cases (ltb 3 (length (ps ++ p ∷ [])))) [
  | inl long ↦
      rw
        (
          long,
          drop-append (length (ps ++ p ∷ []) - 3) ps (p ∷ [])
              (ground (arith, length-append ps (p ∷ []))),
        )
        (In-append_right p (drop (length (ps ++ p ∷ []) - 3) ps) (p ∷ []) (here refl))
  | inr short ↦ rw short (In-append_right p ps (p ∷ []) (here refl))
]

if_same : {A : Type 0} (n : ℕ) (x y : A) → (if n == n then x else y) ≡ x
if_same n x y = ground arith

-- A delivery that is prepared keeps its decision, and the filter is left as it is.
pub prepare-seen :
    {F : Type 0} (float : Float64 F) (f : PositionFilter F) (d : Delivery F)
    (p : FilteredDelivery F)
    → lookup d.id f.prepared ≡ some p
    → prepare float f d ≡ some (f, p.position, p.publish)
unfolding prepare
prepare-seen {F} float f d p e = ap found e
  where
    found : Option (FilteredDelivery F) → Option (PositionFilter F × Position F × Bool)
    found o = elim o [ some p ↦ some (f, p.position, p.publish) | none ↦ prepare_new float f d ]

module _ {F : Type 0} (float : Float64 F) where
  -- The median coordinate of three samples is there, and is the coordinate of a sample.
  median_coordinate-In :
      (ps : List (Position F)) (coordinate : Position F → F)
      → length ps ≡ 3
      → (x : F) × (median_coordinate float ps coordinate ≡ some x) × In x (map coordinate ps)
  unfolding median_coordinate
  median_coordinate-In ps coordinate h =
      let r = get_elem?-some (order_by (less float) (map coordinate ps)) (length ps / 2) (
        omega
          (arith, length-order_by (less float) (map coordinate ps), length-map ps coordinate)) in
      (r.0, r.1, order_by-In (less float) (map coordinate ps) r.0 r.2)

  module _ (f : PositionFilter F) (d : Delivery F) where
    -- Published: nothing was published of the node, or the last time is a heartbeat ago, or there
    -- are three samples and the position is as far from the last one as the movement asks.
    abbrev pub should_publish : Option (Position F) → Position F → Bool
    should_publish none position = true
    should_publish (some last) position =
        leb_ℤ f.heartbeat (sub d.position.source_time last.source_time)
        || (length (samples float f d) == 3
            && float.le f.movement_meters (distance_meters float last position))

    -- The position that is delivered, but for its coordinates, which are those of recent samples: the
    -- medians where there are three.
    pub record IsSmoothed (position : Position F) : Type 0 where
      pub latitude : In position.latitude (map (λ p. p.latitude) (samples float f d))
      pub longitude : In position.longitude (map (λ p. p.longitude) (samples float f d))
      pub rest :
          position
          ≡ record d.position { latitude = position.latitude; longitude = position.longitude }
      pub medians :
          ((length (samples float f d) ≡ 3)
            × (median_coordinate float (samples float f d) (λ p. p.latitude)
                ≡ some position.latitude)
            × (median_coordinate float (samples float f d) (λ p. p.longitude)
                ≡ some position.longitude))
          ⊎ ((length (samples float f d) ≢ 3) × (position ≡ d.position))

    abbrev Decided : Option (Position F × Bool) → Type 0
    Decided none = ⊥
    Decided (some (position, publish)) =
        IsSmoothed position × (publish ≡ should_publish (state float f d).last_published position)

    by_distance :
        (position : Position F) (last : Option (Position F))
        → length (samples float f d) ≡ 3
        → publish_by_distance float f d position last ≡ some (should_publish last position)
    unfolding publish_by_distance
    by_distance position none h = refl
    by_distance position (some last) h = ground arith

    by_time :
        (position : Position F) (last : Option (Position F))
        → (length (samples float f d) == 3) ≡ false
        → publish_by_time float f d last ≡ should_publish last position
    unfolding publish_by_time
    by_time position none h = refl
    by_time position (some last) h = ground arith

    newest : In d.position (samples float f d)
    newest = add_sample-In (state float f d).samples d.position

    decide-Decided : Decided (decide float f d)
    unfolding decide
    decide-Decided = elim (Bool-cases (length (samples float f d) == 3)) [
      | inl three ↦
          let few : length (samples float f d) ≡ 3 = ground arith in
          let lat = median_coordinate-In (samples float f d) (λ p. p.latitude) few in
          let lon = median_coordinate-In (samples float f d) (λ p. p.longitude) few in
          rw (three, lat.1, lon.1)
            (rw
              (by_distance (record d.position { latitude = lat.0; longitude = lon.0 })
                (state float f d).last_published few)
              (
                record {
                  latitude = lat.2;
                  longitude = lon.2;
                  rest = refl;
                  medians = inl (few, lat.1, lon.1);
                },
                refl,
              ))
      | inr other ↦
          let few : length (samples float f d) ≢ 3 = λ e. ground arith in
          rw other (
            record {
              latitude =
                  In-map (λ (p : Position F). p.latitude) (samples float f d) d.position newest;
              longitude =
                  In-map (λ (p : Position F). p.longitude) (samples float f d) d.position newest;
              rest = refl;
              medians = inr (few, refl);
            },
            by_time d.position (state float f d).last_published other,
          )
    ]

    decided :
        (position : Position F) × (publish : Bool) × (decide float f d ≡ some (position, publish))
        × IsSmoothed position
        × (publish ≡ should_publish (state float f d).last_published position)
    decided = by_decision (decide float f d) refl decide-Decided
      where
        by_decision :
            (o : Option (Position F × Bool))
            → decide float f d ≡ o
            → Decided o
            → (position : Position F) × (publish : Bool) × (decide float f d
                ≡ some (position, publish))
              × IsSmoothed position
              × (publish ≡ should_publish (state float f d).last_published position)
        by_decision none e h = absurd h
        by_decision (some (position, publish)) e h = (position, publish, e, h.0, h.1)

    -- The filter that a decision leaves.
    abbrev pub decided_filter : Position F → Bool → PositionFilter F
    decided_filter position publish = record f {
      nodes =
          insert d.position.source_node (record (state float f d) { samples = samples float f d })
            f.nodes;
      prepared = insert d.id (record { position = position; publish = publish }) f.prepared;
    }

    prepare-unseen :
        (position : Position F) (publish : Bool)
        → lookup d.id f.prepared ≡ none
        → decide float f d ≡ some (position, publish)
        → prepare float f d ≡ some (decided_filter position publish, position, publish)
    unfolding prepare prepare_new
    prepare-unseen position publish unseen e = ap found unseen ∙ ap decision e
      where
        decision : Option (Position F × Bool) → Option (PositionFilter F × Position F × Bool)
        decision o = (o >>= λ r. some (decided_filter r.0 r.1, r.0, r.1))

        found : Option (FilteredDelivery F) → Option (PositionFilter F × Position F × Bool)
        found o = elim o [ some p ↦ some (f, p.position, p.publish) | none ↦ prepare_new float f d ]

    -- A delivery that the filter has not seen gets a decision, with no panic: its coordinates are
    -- those of at most three recent samples, and it is published just if nothing was published of
    -- its node, or the last time is a heartbeat ago, or it moved far enough. The decision is kept: the
    -- same delivery, prepared again, has the same one and is no new sample.
    pub prepare_decides :
        lookup d.id f.prepared ≡ none
        → (position : Position F) × (publish : Bool) × (prepare float f d
            ≡ some (decided_filter position publish, position, publish))
          × IsSmoothed position
          × (publish ≡ should_publish (state float f d).last_published position)
          × (prepare float (decided_filter position publish) d
              ≡ some (decided_filter position publish, position, publish))
    prepare_decides unseen =
        let r = decided in
        (
          r.0,
          r.1,
          prepare-unseen r.0 r.1 unseen r.2,
          r.3,
          r.4,
          prepare-seen float (decided_filter r.0 r.1) d (record { position = r.0; publish = r.1 })
              (lookup-insert d.id d.id (record { position = r.0; publish = r.1 }) f.prepared
                ∙ if_same d.id (some (record { position = r.0; publish = r.1 })) _),
        )
