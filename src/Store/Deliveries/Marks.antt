-- ===== src/Store/Deliveries/Marks.antt =====
-- The update that `MarkDelivered` and `MarkFailed` share.
use mesthastic_caltopo_bridg.Prelude.{
  ℕ, ◌+◌, ◌≤◌, ◌≡◌, ◌≢◌, ◌⊎◌, inl, inr, refl, sym, ◌∙◌, subst, Bool, true, false, ◌&&◌, List, [],
  ◌∷◌, ◌==◌, arith, All, In, here, there, Bool-cases, Ascending, Ascending-In, Distinct,
  if◌then◌else◌,
}
use mesthastic_caltopo_bridg.Store.Tables.{PositionRow, DeliveryRow, Db, ok, err}
use mesthastic_caltopo_bridg.Store.Invariant.{WellFormed, Refers}
use mesthastic_caltopo_bridg.Store.Deliveries.{
  is_pending, MarkError, update, rows_affected, not_found, update_pending, update_delivery,
}

-- The change keeps a row's key and its position.
abbrev pub KeepsKeys : (DeliveryRow → DeliveryRow) → Type 0
KeepsKeys f = (d : DeliveryRow) → ((f d).id ≡ d.id) × ((f d).position_id ≡ d.position_id)

module _ (id : ℕ) (f : DeliveryRow → DeliveryRow) where
  -- The rows that the WHERE clause takes.
  abbrev pub is_hit : DeliveryRow → Bool
  is_hit d = d.id == id && is_pending d.state

  abbrev pub changed : DeliveryRow → DeliveryRow
  changed d = if is_hit d then f d else d

  update_pending-cons :
      (x : DeliveryRow) (ds : List DeliveryRow)
      → ((update_pending id f (x ∷ ds)).0 ≡ changed x ∷ (update_pending id f ds).0)
        × ((update_pending id f (x ∷ ds)).1
            ≡ (if is_hit x then (update_pending id f ds).1 + 1 else (update_pending id f ds).1))
  unfolding update_pending
  update_pending-cons x ds = elim (Bool-cases (is_hit x)) [
    | inl p ↦ rw p (refl, refl)
    | inr p ↦ rw p (refl, refl)
  ]

  pub In-changed :
      (ds : List DeliveryRow) (d : DeliveryRow)
      → In d ds
      → In (changed d) (update_pending id f ds).0
  In-changed [] d i = elim i [ ]
  In-changed (x ∷ ds) d (here p) =
      subst (In (changed d)) (sym (update_pending-cons x ds).0)
        (here (subst (λ y. changed d ≡ changed y) p refl))
  In-changed (x ∷ ds) d (there i) =
      subst (In (changed d)) (sym (update_pending-cons x ds).0) (there (In-changed ds d i))

  count-above :
      (lo : ℕ) (ds : List DeliveryRow)
      → id ≤ lo
      → Ascending (λ (d : DeliveryRow). d.id) lo ds
      → (update_pending id f ds).1 ≡ 0
  count-above lo [] h asc = unfold update_pending in refl
  count-above lo (x ∷ ds) h asc =
      ground (arith, (update_pending-cons x ds).1, count-above x.id ds (omega arith) asc.1)

  count-hit :
      (lo : ℕ) (ds : List DeliveryRow) (d : DeliveryRow)
      → Ascending (λ (d : DeliveryRow). d.id) lo ds
      → In d ds
      → is_hit d ≡ true
      → (update_pending id f ds).1 ≡ 1
  count-hit lo [] d asc i h = elim i [ ]
  count-hit lo (x ∷ ds) d asc (here p) h =
      let hit = subst (λ y. is_hit y ≡ true) p h in
      ground (arith, (update_pending-cons x ds).1, count-above x.id ds (ground arith) asc.1)
  count-hit lo (x ∷ ds) d asc (there i) h = ground (
    arith,
    (update_pending-cons x ds).1,
    count-hit x.id ds d asc.1 i h,
    Ascending-In (λ (y : DeliveryRow). y.id) x.id ds d asc.1 i,
  )

  no_hit :
      (ds : List DeliveryRow)
      → ((d : DeliveryRow) → In d ds → is_hit d ≡ false)
      → update_pending id f ds ≡ (ds, 0)
  unfolding update_pending
  no_hit [] h = refl
  no_hit (x ∷ ds) h = ground (arith, h x (here refl), no_hit ds (λ d i. h d (there i)))

  module _ {S F : Type 0} (db : Db S F) where
    -- The update is made or not.
    pub update_delivery_kinds :
        (fails : MarkError → Bool)
        → ((update_delivery fails id f db).0 ≡ db)
          ⊎ ((update_delivery fails id f db).0
              ≡ record db { deliveries = (update_pending id f db.deliveries).0 })
    unfolding update_delivery
    update_delivery_kinds fails = elim (Bool-cases (fails update)) [
      | inl p ↦ rw p (inl refl)
      | inr p ↦ rw p (elim (Bool-cases (fails rows_affected)) [
        | inl q ↦ rw q (inr refl)
        | inr q ↦ rw q (elim (Bool-cases ((update_pending id f db.deliveries).1 == 1)) [
          | inl r ↦ rw r (inr refl)
          | inr r ↦ rw r (inr refl)
        ])
      ])
    ]

  module _ (keeps : KeepsKeys f) where
    pub changed-keys :
        (d : DeliveryRow) → ((changed d).id ≡ d.id) × ((changed d).position_id ≡ d.position_id)
    changed-keys d = elim (Bool-cases (is_hit d)) [
      | inl p ↦ rw p (keeps d)
      | inr p ↦ rw p (refl, refl)
    ]

    Ascending-rows :
        (lo : ℕ) (ds : List DeliveryRow)
        → Ascending (λ (d : DeliveryRow). d.id) lo ds
        → Ascending (λ (d : DeliveryRow). d.id) lo (update_pending id f ds).0
    Ascending-rows lo [] h = unfold update_pending in tt
    Ascending-rows lo (x ∷ ds) h =
        subst (Ascending (λ (d : DeliveryRow). d.id) lo) (sym (update_pending-cons x ds).0) (
          omega (arith, (changed-keys x).0),
          subst (λ n. Ascending (λ (d : DeliveryRow). d.id) n (update_pending id f ds).0)
              (sym (changed-keys x).0) (Ascending-rows x.id ds h.1),
        )

    All-rows {ℓ} :
        (P : DeliveryRow → Type ℓ) (ds : List DeliveryRow)
        → ((d : DeliveryRow) → P d → P (changed d))
        → All P ds
        → All P (update_pending id f ds).0
    All-rows P [] step h = unfold update_pending in tt
    All-rows P (x ∷ ds) step h =
        subst (All P) (sym (update_pending-cons x ds).0) (step x h.0, All-rows P ds step h.1)

    Distinct-rows :
        (ds : List DeliveryRow)
        → Distinct (λ (d : DeliveryRow). d.position_id) ds
        → Distinct (λ (d : DeliveryRow). d.position_id) (update_pending id f ds).0
    Distinct-rows [] h = unfold update_pending in tt
    Distinct-rows (x ∷ ds) h =
        subst (Distinct (λ (d : DeliveryRow). d.position_id)) (sym (update_pending-cons x ds).0) (
          All-rows (λ y. (changed x).position_id ≢ y.position_id) ds
              (λ y n e. n (e ∙ (changed-keys y).1))
              (subst (λ p. All (λ (y : DeliveryRow). p ≢ y.position_id) ds) (sym (changed-keys x).1)
                h.0),
          Distinct-rows ds h.1,
        )

    module _ {S F : Type 0} (db : Db S F) where
      updated-WellFormed :
          WellFormed db
          → WellFormed (record db { deliveries = (update_pending id f db.deliveries).0 })
      updated-WellFormed w = record {
        packet_ids = w.packet_ids;
        packet_top = w.packet_top;
        position_ids = w.position_ids;
        position_top = w.position_top;
        delivery_ids = Ascending-rows 0 db.deliveries w.delivery_ids;
        delivery_top =
            All-rows (λ d. d.id ≤ db.delivery_seq) db.deliveries
              (λ d h. omega (arith, (changed-keys d).0)) w.delivery_top;
        dedupe_keys = w.dedupe_keys;
        one_delivery = Distinct-rows db.deliveries w.one_delivery;
        position_packet = w.position_packet;
        delivery_position =
            All-rows (λ d. Refers (λ (p : PositionRow F). p.id) db.positions d.position_id)
              db.deliveries
              (λ d.
                subst (Refers (λ (p : PositionRow F). p.id) db.positions) (sym (changed-keys d).1))
              w.delivery_position;
      }

      pub update_delivery-WellFormed :
          (fails : MarkError → Bool) → WellFormed db → WellFormed (update_delivery fails id f db).0
      update_delivery-WellFormed fails w = elim (update_delivery_kinds db fails) [
        | inl left ↦ subst WellFormed (sym left) w
        | inr made ↦ subst WellFormed (sym made) (updated-WellFormed w)
      ]

  module _ {S F : Type 0} (db : Db S F) where
    -- With no call failing, the one pending row with the key is changed.
    pub update_delivery-hit :
        (d : DeliveryRow)
        → WellFormed db
        → In d db.deliveries
        → is_hit d ≡ true
        → update_delivery (λ _. false) id f db
          ≡ (record db { deliveries = (update_pending id f db.deliveries).0 }, ok tt)
    unfolding update_delivery
    update_delivery-hit d w i h = rw (count-hit 0 db.deliveries d w.delivery_ids i h)

    -- With no pending row with the key nothing is changed, and that is an error.
    pub update_delivery-miss :
        ((d : DeliveryRow) → In d db.deliveries → is_hit d ≡ false)
        → update_delivery (λ _. false) id f db ≡ (db, err not_found)
    unfolding update_delivery
    update_delivery-miss h = rw (no_hit db.deliveries h)

    -- Whatever fails, a row that the update does not take is still there.
    pub update_delivery-others :
        (fails : MarkError → Bool) (d : DeliveryRow)
        → In d db.deliveries
        → is_hit d ≡ false
        → In d (update_delivery fails id f db).0.deliveries
    update_delivery-others fails d i h = elim (update_delivery_kinds db fails) [
      | inl left ↦ subst (λ (e : Db S F). In d e.deliveries) (sym left) i
      | inr made ↦
          subst (λ (e : Db S F). In d e.deliveries) (sym made)
            (subst (λ b. In (if b then f d else d) (update_pending id f db.deliveries).0) h
              (In-changed db.deliveries d i))
    ]
