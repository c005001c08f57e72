-- ===== src/Store/History/Keeping.antt =====
-- What a change of the database keeps, and the changes of names and of deliveries.
use mesthastic_caltopo_bridg.Prelude.{
  ℕ, ◌≡◌, refl, sym, ap, ◌∙◌, subst, Bool, true, false, ◌&&◌, List, [], ◌∷◌, ◌++◌, ◌==◌, arith,
  append-nil, append_assoc, In, Bool-cases, inl, inr, if◌then◌else◌,
}
use mesthastic_caltopo_bridg.Go.Text.{Text, text_eq, is_empty}
use mesthastic_caltopo_bridg.Go.Time.{Time}
use mesthastic_caltopo_bridg.Model.NodeId.{node_id}
use mesthastic_caltopo_bridg.Store.Tables.{PacketRow, PositionRow, DeliveryRow, Db}
use mesthastic_caltopo_bridg.Store.Deliveries.{
  is_pending, MarkError, update_pending, update_delivery,
}
use mesthastic_caltopo_bridg.Store.Deliveries.Marks.{
  KeepsKeys, is_hit, changed, changed-keys, In-changed, update_delivery_kinds,
}
use mesthastic_caltopo_bridg.Store.Nodes.{rename_positions}
use mesthastic_caltopo_bridg.Store.Nodes.Names.{new_callsign, renamed}

-- The packets are the old ones with more behind them; each position is there, but for its callsign;
-- each delivery is there by its keys, and unchanged if it was settled.
pub record Keeps {S F : Type 0} (db db' : Db S F) : Type 0 where
  pub packets : (more : List (PacketRow S)) × (db'.packets ≡ db.packets ++ more)
  pub positions :
      (p : PositionRow F)
      → In p db.positions
      → (callsign : Text) × In (record p { callsign = callsign }) db'.positions
  pub deliveries :
      (d : DeliveryRow)
      → In d db.deliveries
      → (d' : DeliveryRow) × In d' db'.deliveries
        × (d'.id ≡ d.id)
        × (d'.position_id ≡ d.position_id)
  pub settled :
      (d : DeliveryRow) → In d db.deliveries → is_pending d.state ≡ false → In d db'.deliveries

module _ {F : Type 0} where
  rename_positions-Keeps :
      (callsign : Text) (node : ℕ) (ps : List (PositionRow F)) (p : PositionRow F)
      → In p ps
      → (c : Text) × In (record p { callsign = c }) (rename_positions callsign node ps)
  unfolding rename_positions
  rename_positions-Keeps callsign node [] p i = elim i [ ]
  rename_positions-Keeps callsign node (q ∷ qs) p (In.here e) =
      elim (Bool-cases (q.source_node == node && text_eq q.callsign (node_id node))) [
        | inl hit ↦ (
          callsign,
          rw hit (In.here (ap (λ (r : PositionRow F). record r { callsign = callsign }) e)),
        )
        | inr miss ↦ (p.callsign, rw miss (In.here e))
      ]
  rename_positions-Keeps callsign node (q ∷ qs) p (In.there i) =
      let r = rename_positions-Keeps callsign node qs p i in (r.0, In.there r.1)

module _ {S F : Type 0} where
  pub Keeps-refl : (db : Db S F) → Keeps db db
  Keeps-refl db = record {
    packets = ([], sym (append-nil db.packets));
    positions = λ p i. (p.callsign, i);
    deliveries = λ d i. (d, i, refl, refl);
    settled = λ d i h. i;
  }

  pub Keeps-trans : {u v w : Db S F} → Keeps u v → Keeps v w → Keeps u w
  Keeps-trans {u} k l = record {
    packets = (
      k.packets.0 ++ l.packets.0,
      l.packets.1
          ∙ ap (λ (ps : List (PacketRow S)). ps ++ l.packets.0) k.packets.1
          ∙ append_assoc u.packets k.packets.0 l.packets.0,
    );
    positions = λ p i.
        let a = k.positions p i in
        let b = l.positions (record p { callsign = a.0 }) a.1 in (b.0, b.1);
    deliveries = λ d i.
        let a = k.deliveries d i in
        let b = l.deliveries a.0 a.1 in (b.0, b.1, b.2 ∙ a.2, b.3 ∙ a.3);
    settled = λ d i h. l.settled d (k.settled d i h) h;
  }

  pub renamed-Keeps :
      (now : Time) (node : ℕ) (short_name long_name : Text) (db : Db S F)
      → Keeps db (renamed now node short_name long_name db)
  renamed-Keeps now node short_name long_name db = record {
    packets = ([], sym (append-nil db.packets));
    positions = λ p i. by_name (is_empty (new_callsign now node short_name long_name)) p i;
    deliveries = λ d i. (d, i, refl, refl);
    settled = λ d i h. i;
  }
    where
      by_name :
          (b : Bool) (p : PositionRow F)
          → In p db.positions
          → (c : Text) × In
              (record p { callsign = c })
              (if b
                then db.positions
                else rename_positions
                    (new_callsign now node short_name long_name)
                    node
                    db.positions)
      by_name true p i = (p.callsign, i)
      by_name false p i =
          rename_positions-Keeps (new_callsign now node short_name long_name) node db.positions p i

  pub update_delivery-Keeps :
      (failing : MarkError → Bool) (id : ℕ) (f : DeliveryRow → DeliveryRow) (db : Db S F)
      → KeepsKeys f
      → Keeps db (update_delivery failing id f db).0
  update_delivery-Keeps failing id f db keys = elim (update_delivery_kinds id f db failing) [
    | inl left ↦ subst (Keeps db) (sym left) (Keeps-refl db)
    | inr made ↦ subst (Keeps db) (sym made) (record {
      packets = ([], sym (append-nil db.packets));
      positions = λ p i. (p.callsign, i);
      deliveries = λ d i. (
        changed id f d,
        In-changed id f db.deliveries d i,
        (changed-keys id f keys d).0,
        (changed-keys id f keys d).1,
      );
      settled = λ d i h.
          let miss : is_hit id f d ≡ false = ground arith in
          subst (λ b. In (if b then f d else d) (update_pending id f db.deliveries).0) miss
            (In-changed id f db.deliveries d i);
    })
  ]
