-- ===== src/Caltopo/Filter/Safety.antt =====
-- The pointers of the position filter of internal/caltopo/worker.go.
use mesthastic_caltopo_bridg.Prelude.{
  ℕ, ◌≡◌, refl, sym, ap, ◌∙◌, Bool, true, false, Option, none, some, ◌==◌, arith, inl, inr,
  Bool-cases, Option-cases,
}
use mesthastic_caltopo_bridg.Go.Float.{Float64}
use mesthastic_caltopo_bridg.Go.Time.{Duration}
use mesthastic_caltopo_bridg.Go.Time.Parse.{◌>>=◌}
use mesthastic_caltopo_bridg.Model.{Position}
use mesthastic_caltopo_bridg.Store.Deliveries.{Delivery}
use mesthastic_caltopo_bridg.Caltopo.Filter.{
  NumberMap, lookup, insert, delete, FilteredDelivery, PositionFilterState, PositionFilter,
  new_position_filter, prepare, set_published, complete, zero_position,
}
use mesthastic_caltopo_bridg.Caltopo.Filter.Maps.{lookup-insert, lookup-delete}
use mesthastic_caltopo_bridg.Caltopo.Filter.Decisions.{
  IsSmoothed, decided_filter, prepare_decides, prepare-seen,
}

-- The node of each prepared position has a state.
abbrev pub HasStates : {F : Type 0} → PositionFilter F → Type 0
HasStates {F} f =
    (id : ℕ) (p : FilteredDelivery F)
    → lookup id f.prepared ≡ some p
    → (s : PositionFilterState F) × (lookup p.position.source_node f.nodes ≡ some s)

pub new-HasStates :
    {F : Type 0} (movement : F) (heartbeat : Duration)
    → HasStates (new_position_filter movement heartbeat)
unfolding new_position_filter lookup
new-HasStates movement heartbeat id p e = cc

has_insert :
    {V : Type 0} (k j : ℕ) (v w : V) (m : NumberMap V)
    → lookup j m ≡ some w
    → (u : V) × (lookup j (insert k v m) ≡ some u)
has_insert k j v w m e = elim (Bool-cases (k == j)) [
  | inl same ↦ (v, rw (lookup-insert k j v m, same))
  | inr other ↦ (w, rw (lookup-insert k j v m, other) e)
]

lookup-insert_other :
    {V : Type 0} (k j : ℕ) (v : V) (m : NumberMap V)
    → (k == j) ≡ false
    → lookup j (insert k v m) ≡ lookup j m
lookup-insert_other k j v m h = lookup-insert k j v m ∙ rw h

lookup-insert_same :
    {V : Type 0} (k j : ℕ) (v : V) (m : NumberMap V)
    → (k == j) ≡ true
    → lookup j (insert k v m) ≡ some v
lookup-insert_same k j v m h = lookup-insert k j v m ∙ rw h

set_published-some :
    {F : Type 0} (position : Position F) (nodes : NumberMap (PositionFilterState F))
    (s : PositionFilterState F)
    → lookup position.source_node nodes ≡ some s
    → set_published position nodes
      ≡ some (insert position.source_node (record s { last_published = some position }) nodes)
unfolding set_published
set_published-some {F} position nodes s e = ap write e
  where
    write : Option (PositionFilterState F) → Option (NumberMap (PositionFilterState F))
    write o = elim o [
      | none ↦ none
      | some s ↦
          some (insert position.source_node (record s { last_published = some position }) nodes)
    ]

module _ {F : Type 0} (float : Float64 F) (f : PositionFilter F) where
  decided-HasStates :
      (d : Delivery F) (position : Position F) (publish : Bool)
      → IsSmoothed float f d position
      → HasStates f
      → HasStates (decided_filter float f d position publish)
  decided-HasStates d position publish s has id p e = elim (Bool-cases (d.id == id)) [
    | inl same ↦
        let entry : FilteredDelivery F = record { position = position; publish = publish } in
        let found : some entry ≡ some p =
          sym (lookup-insert_same d.id id entry f.prepared same) ∙ e in
        let node : p.position.source_node ≡ d.position.source_node = ground (arith, s.rest) in
        (
          _,
          lookup-insert_same d.position.source_node p.position.source_node _ f.nodes (ground arith),
        )
    | inr other ↦
        let r = has id p (sym (lookup-insert_other d.id id _ f.prepared other) ∙ e) in
        has_insert d.position.source_node p.position.source_node _ r.0 f.nodes r.1
  ]

  -- `prepare` does not panic, keeps a state for each prepared position, and leaves the delivery
  -- prepared.
  pub prepare-HasStates :
      (d : Delivery F)
      → HasStates f
      → (f' : PositionFilter F) × (position : Position F) × (publish : Bool) × (prepare float f d
          ≡ some (f', position, publish))
        × HasStates f'
        × (lookup d.id f'.prepared ≡ some (record { position = position; publish = publish }))
  prepare-HasStates d has = elim (Option-cases (lookup d.id f.prepared)) [
    | inl unseen ↦
        let r = prepare_decides float f d unseen in
        (
          decided_filter float f d r.0 r.1,
          r.0,
          r.1,
          r.2,
          decided-HasStates d r.0 r.1 r.3 has,
          lookup-insert_same d.id d.id _ f.prepared (ground arith),
        )
    | inr (p, seen) ↦ (f, p.position, p.publish, prepare-seen float f d p seen, has, seen)
  ]

  complete_false-HasStates :
      (id : ℕ) → HasStates f → HasStates (record f { prepared = delete id f.prepared })
  complete_false-HasStates id has j p e = elim (Bool-cases (id == j)) [
    | inl same ↦ absurd (ground (arith, lookup-delete id j f.prepared))
    | inr other ↦ has j p (sym (lookup-delete id j f.prepared ∙ rw other) ∙ e)
  ]

  -- `complete` of a prepared delivery does not panic, and keeps a state for each prepared position.
  pub complete-HasStates :
      (id : ℕ) (p : FilteredDelivery F) (published : Bool)
      → lookup id f.prepared ≡ some p
      → HasStates f
      → (f' : PositionFilter F) × (complete float f id published ≡ some f') × HasStates f'
  unfolding complete
  complete-HasStates id p false seen has =
      (record f { prepared = delete id f.prepared }, refl, complete_false-HasStates id has)
  complete-HasStates id p true seen has =
      let r = has id p seen in
      (
        record f {
          nodes =
              insert p.position.source_node (record r.0 { last_published = some p.position })
                f.nodes;
          prepared = delete id f.prepared;
        },
        ap published seen ∙ rw (set_published-some p.position f.nodes r.0 r.1),
        λ j q e.
            let u = complete_false-HasStates id has j q e in
            has_insert p.position.source_node q.position.source_node _ u.0 f.nodes u.1,
      )
    where
      published : Option (FilteredDelivery F) → Option (PositionFilter F)
      published o =
          set_published
            (elim o as (λ _. Position F) [ none ↦ zero_position float | some q ↦ q.position ])
            f.nodes
          >>= λ nodes. some (record f { nodes = nodes; prepared = delete id f.prepared })
