-- ===== src/Caltopo/Filter/Smoothing.antt =====
-- The three samples of the position filter, and the middle one of their coordinates.
use mesthastic_caltopo_bridg.Prelude.{
  ℕ, ◌+◌, ◌-◌, ◌≤◌, ◌<◌, ◌≡◌, ◌≢◌, refl, sym, ◌∙◌, subst, ◌⊎◌, inl, inr, Bool, true, false, ◌&&◌,
  ◌||◌, not, Option, none, some, List, [], ◌∷◌, ◌++◌, map, length, take, ltb, ◌==◌, arith, In,
  take-append-drop, length-drop, Bool-cases, if◌then◌else◌, get_elem?,
}
use mesthastic_caltopo_bridg.Prelude.Int.{leb_ℤ}
use mesthastic_caltopo_bridg.Go.Float.{Float64}
use mesthastic_caltopo_bridg.Go.Time.{sub}
use mesthastic_caltopo_bridg.Model.{Position}
use mesthastic_caltopo_bridg.Store.Sql.{insert_by, order_by}
use mesthastic_caltopo_bridg.Store.Deliveries.{Delivery}
use mesthastic_caltopo_bridg.Caltopo.Filter.{
  lookup, insert, PositionFilter, PositionFilterState, add_sample, less, median_coordinate,
  distance_meters, prepare,
}
use mesthastic_caltopo_bridg.Caltopo.Filter.Decisions.{IsSmoothed, should_publish, prepare_decides}

-- What the comparison of float64 values is known to do: it is asymmetric, and false on a NaN.
pub record IsComparison {F : Type 0} (float : Float64 F) : Type 0 where
  pub asymmetric : (a b : F) → float.lt a b ≡ true → float.lt b a ≡ false
  pub left : (a b : F) → float.lt a b ≡ true → float.is_nan a ≡ false
  pub right : (a b : F) → float.lt a b ≡ true → float.is_nan b ≡ false

-- How many elements pass the test.
pub count : {A : Type 0} → (A → Bool) → List A → ℕ
count test [] = 0
count test (x ∷ xs) = (if test x then 1 else 0) + count test xs

-- The element in the middle of three that are put in order.
module _ {A : Type 0} (lt : A → A → Bool) (asym : (a b : A) → lt a b ≡ true → lt b a ≡ false) where
  -- At most one before it and at most one behind it.
  abbrev IsCentral : A → List A → Type 0
  IsCentral x xs = (count (λ y. lt y x) xs ≤ 1) × (count (λ y. lt x y) xs ≤ 1)

  middle_of_three :
      (a b c x : A)
      → get_elem? (order_by lt (a ∷ b ∷ c ∷ [])) 1 ≡ some x
      → IsCentral x (a ∷ b ∷ c ∷ [])
  unfolding order_by insert_by count
  middle_of_three a b c x e = elim (Bool-cases (lt b c)) [
    | inl bc ↦ elim (Bool-cases (lt a b)) [
      | inl ab ↦ by b (ground arith) (ground (arith, asym a b, asym b c, asym b b))
      | inr ab ↦ elim (Bool-cases (lt a c)) [
        | inl ac ↦ by a (ground arith) (ground (arith, asym a c, asym a a))
        | inr ac ↦ by c (ground arith) (ground (arith, asym b c, asym c c))
      ]
    ]
    | inr bc ↦ elim (Bool-cases (lt a c)) [
      | inl ac ↦ by c (ground arith) (ground (arith, asym a c, asym c c))
      | inr ac ↦ elim (Bool-cases (lt a b)) [
        | inl ab ↦ by a (ground arith) (ground (arith, asym a b, asym a a))
        | inr ab ↦ by b (ground arith) (ground (arith, asym b b))
      ]
    ]
  ]
    where
      by : (m : A) → m ≡ x → IsCentral m (a ∷ b ∷ c ∷ []) → IsCentral x (a ∷ b ∷ c ∷ [])
      by m same h = subst (λ y. IsCentral y (a ∷ b ∷ c ∷ [])) same h

-- The last samples: three of them, or all if they are fewer.
pub record IsRecent {A : Type 0} (all recent : List A) : Type 0 where
  pub forgotten : List A
  pub split : all ≡ forgotten ++ recent
  pub size : (length recent ≡ 3) ⊎ ((length recent < 3) × (forgotten ≡ []))

add_sample-IsRecent :
    {F : Type 0} (ps : List (Position F)) (p : Position F)
    → IsRecent (ps ++ p ∷ []) (add_sample ps p)
unfolding add_sample
add_sample-IsRecent {F} ps p = elim (Bool-cases (ltb 3 (length all))) [
  | inl long ↦ rw long (record {
    forgotten = take (length all - 3) all;
    split = sym (take-append-drop (length all - 3) all);
    size = inl (ground (arith, length-drop (length all - 3) all));
  })
  | inr short ↦
      rw short
        (record { forgotten = []; split = refl; size = by_size (length all == 3) refl short })
]
  where
    all : List (Position F)
    all = ps ++ p ∷ []

    none_yet : List (Position F)
    none_yet = []

    by_size :
        (b : Bool)
        → (length all == 3) ≡ b
        → ltb 3 (length all) ≡ false
        → (length all ≡ 3) ⊎ ((length all < 3) × (none_yet ≡ []))
    by_size true e short = inl (ground arith)
    by_size false e short = inr (ground arith, refl)

module _ {F : Type 0} (float : Float64 F) where
  -- A NaN stands before the numbers.
  abbrev pub precedes : F → F → Bool
  precedes a b = float.lt a b || (float.is_nan a && not (float.is_nan b))

  -- One of the values, with at most one before it and at most one behind it.
  pub record IsMiddle (x : F) (xs : List F) : Type 0 where
    pub one_of : In x xs
    pub before : count (λ y. precedes y x) xs ≤ 1
    pub behind : count (λ y. precedes x y) xs ≤ 1

  precedes_asymmetric : IsComparison float → (a b : F) → precedes a b ≡ true → precedes b a ≡ false
  precedes_asymmetric c a b h =
      ground (arith, c.asymmetric a b, c.left b a, c.right b a, c.left a b, c.right a b)

  median_coordinate-IsMiddle :
      (ps : List (Position F)) (coordinate : Position F → F) (x : F)
      → IsComparison float
      → length ps ≡ 3
      → median_coordinate float ps coordinate ≡ some x
      → In x (map coordinate ps)
      → IsMiddle x (map coordinate ps)
  unfolding median_coordinate less
  median_coordinate-IsMiddle (a ∷ b ∷ c ∷ []) coordinate x l h e i =
      let central =
        middle_of_three precedes (precedes_asymmetric l) (coordinate a) (coordinate b)
          (coordinate c) x e in
      record { one_of = i; before = central.0; behind = central.1 }
  median_coordinate-IsMiddle [] coordinate x l h e i = absurd (omega arith)
  median_coordinate-IsMiddle (a ∷ []) coordinate x l h e i = absurd (omega arith)
  median_coordinate-IsMiddle (a ∷ b ∷ []) coordinate x l h e i = absurd (omega arith)
  median_coordinate-IsMiddle (a ∷ b ∷ c ∷ d ∷ ps) coordinate x l h e i = absurd (omega arith)

  module _ (f : PositionFilter F) (d : Delivery F) where
    -- What the filter knows of the node.
    abbrev pub known : PositionFilterState F
    known = elim (lookup d.position.source_node f.nodes) [
      | none ↦ record { samples = []; last_published = none }
      | some s ↦ s
    ]

    -- Nothing was published of the node, or the last time is a heartbeat ago, or there are three
    -- samples and the position is as far from the last one as the movement asks.
    abbrev pub is_worth : List (Position F) → Option (Position F) → Position F → Bool
    is_worth recent none position = true
    is_worth recent (some last) position =
        leb_ℤ f.heartbeat (sub d.position.source_time last.source_time)
        || (length recent == 3 && float.le f.movement_meters (distance_meters float last position))

    -- Three samples give the middle latitude and the middle longitude; fewer give the delivered
    -- position.
    pub record IsFiltered (recent : List (Position F)) (position : Position F) : Type 0 where
      pub samples : IsRecent (known.samples ++ d.position ∷ []) recent
      pub coordinates :
          ((length recent ≡ 3)
            × IsMiddle position.latitude (map (λ p. p.latitude) recent)
            × IsMiddle position.longitude (map (λ p. p.longitude) recent))
          ⊎ ((length recent ≢ 3) × (position ≡ d.position))
      pub rest :
          position
          ≡ record d.position { latitude = position.latitude; longitude = position.longitude }

    -- The filter with the samples and the decision.
    abbrev pub remembered : List (Position F) → Position F → Bool → PositionFilter F
    remembered recent position publish = record f {
      nodes = insert d.position.source_node (record known { samples = recent }) f.nodes;
      prepared = insert d.id (record { position = position; publish = publish }) f.prepared;
    }

    smoothed :
        (position : Position F)
        → IsComparison float
        → IsSmoothed float f d position
        → IsFiltered (add_sample known.samples d.position) position
    smoothed position l s = record {
      samples = add_sample-IsRecent known.samples d.position;
      coordinates = elim s.medians [
        | inl (three, lat, lon) ↦ inl (
          three,
          median_coordinate-IsMiddle _ (λ p. p.latitude) position.latitude l three lat s.latitude,
          median_coordinate-IsMiddle _ (λ p. p.longitude) position.longitude l three lon
              s.longitude,
        )
        | inr few ↦ inr few
      ];
      rest = s.rest;
    }

    -- A delivery that the filter has not seen gets a decision, with no panic. The samples of its node
    -- are then the last three positions delivered of it, this one included, or all if they are fewer.
    -- If they are three, the latitude and the longitude of the position are each the middle one of
    -- the samples, where a NaN stands before the numbers; if not, it is the delivered position. It is
    -- published just if nothing was published of its node, or the last time is a heartbeat ago, or
    -- there are three samples and it moved far enough. The decision is kept: the same delivery,
    -- prepared again, has the same one and is no new sample.
    pub prepare-IsFiltered :
        IsComparison float
        → lookup d.id f.prepared ≡ none
        → (recent : List (Position F)) × (position : Position F) × (publish : Bool) × IsFiltered
            recent position
          × (publish ≡ is_worth recent known.last_published position)
          × (prepare float f d ≡ some (remembered recent position publish, position, publish))
          × (prepare float (remembered recent position publish) d
              ≡ some (remembered recent position publish, position, publish))
    prepare-IsFiltered l unseen =
        let (position, publish, first, s, worth, again) = prepare_decides float f d unseen in
        (
          add_sample known.samples d.position,
          position,
          publish,
          smoothed position l s,
          worth ∙ same_test position known.last_published,
          first,
          again,
        )
      where
        same_test :
            (position : Position F) (last : Option (Position F))
            → should_publish float f d last position
              ≡ is_worth (add_sample known.samples d.position) last position
        same_test position none = refl
        same_test position (some last) = refl
