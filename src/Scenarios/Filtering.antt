-- ===== src/Scenarios/Filtering.antt =====
-- The theorems on the position filter, on a filter that waits for its first delivery.
use mesthastic_caltopo_bridg.Prelude.{
  ◌≡◌, ◌==◌, refl, ap, subst, arith, if◌then◌else◌, Bool, true, false, Option, none, some, List, [],
  ◌∷◌,
}
use mesthastic_caltopo_bridg.Prelude.Int.{ℤ, pos, negsuc}
use mesthastic_caltopo_bridg.Go.Time.{unix}
use mesthastic_caltopo_bridg.Model.{Position}
use mesthastic_caltopo_bridg.Store.Deliveries.{Delivery}
use mesthastic_caltopo_bridg.Caltopo.Filter.{
  PositionFilter, PositionFilterState, FilteredDelivery, new_position_filter, lookup, prepare,
  insert, add_sample,
}
use mesthastic_caltopo_bridg.Caltopo.Filter.Decisions.{decided_filter}
use mesthastic_caltopo_bridg.Caltopo.Filter.Smoothing.{
  IsComparison, known, is_worth, IsFiltered, remembered, prepare-IsFiltered,
}
use mesthastic_caltopo_bridg.Caltopo.Filter.Safety.{HasStates}
use mesthastic_caltopo_bridg.Scenarios.{whole, position_at}

abbrev fresh_filter : PositionFilter ℤ
fresh_filter = new_position_filter (pos 5) (pos 600000000000)

abbrev first : Delivery ℤ
first = record {
  id = 4;
  position = position_at 7 104 (pos 40) (negsuc 104) (unix 40);
  attempts = 0;
}

-- Two positions of node 7 have been delivered, and the first was published.
abbrev used_filter : PositionFilter ℤ
used_filter = record fresh_filter {
  nodes =
      (
        7,
        record {
          samples =
              position_at 7 101 (pos 43) (negsuc 100) (unix 10)
              ∷ position_at 7 102 (pos 41) (negsuc 102) (unix 20)
              ∷ [];
          last_published = some (position_at 7 101 (pos 43) (negsuc 100) (unix 10));
        },
      )
      ∷ [];
}

unseen : lookup first.id used_filter.prepared ≡ none
unfolding lookup new_position_filter
unseen = refl

whole-asymmetric : (a b : ℤ) → whole.lt a b ≡ true → whole.lt b a ≡ false
whole-asymmetric a b h = ground arith

whole-IsComparison : IsComparison whole
whole-IsComparison = record {
  asymmetric = whole-asymmetric;
  left = λ a b h. refl;
  right = λ a b h. refl;
}

prepare-IsFiltered_example :
    (recent : List (Position ℤ)) × (position : Position ℤ) × (publish : Bool) × IsFiltered whole
      used_filter first recent position
    × (publish
        ≡ is_worth whole used_filter first recent
            (known whole used_filter first).last_published
            position)
    × (prepare whole used_filter first
        ≡ some (remembered whole used_filter first recent position publish, position, publish))
    × (prepare whole (remembered whole used_filter first recent position publish) first
        ≡ some (remembered whole used_filter first recent position publish, position, publish))
prepare-IsFiltered_example = prepare-IsFiltered whole used_filter first whole-IsComparison unseen

-- A filter with one prepared delivery.
abbrev one_prepared : PositionFilter ℤ
one_prepared = decided_filter whole fresh_filter first first.position true

is_prepared :
    lookup 4 one_prepared.prepared ≡ some (record { position = first.position; publish = true })
unfolding lookup insert new_position_filter
is_prepared = refl

one_prepared-HasStates : HasStates one_prepared
unfolding lookup insert new_position_filter add_sample
one_prepared-HasStates id p e = by_id (4 == id) e
  where
    only : FilteredDelivery ℤ
    only = record { position = first.position; publish = true }

    value : Option (FilteredDelivery ℤ) → FilteredDelivery ℤ
    value o = elim o [ none ↦ only | some q ↦ q ]

    by_id :
        (b : Bool)
        → (if b then some only else none) ≡ some p
        → (s : PositionFilterState ℤ) × (lookup p.position.source_node one_prepared.nodes ≡ some s)
    by_id true e =
        subst
          (λ (q : FilteredDelivery ℤ).
            (s : PositionFilterState ℤ) × (lookup q.position.source_node one_prepared.nodes
              ≡ some s))
          (ap value e) (record { samples = first.position ∷ []; last_published = none }, refl)
    by_id false e = absurd (ground arith)
