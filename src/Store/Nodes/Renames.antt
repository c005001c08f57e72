-- ===== src/Store/Nodes/Renames.antt =====
-- What `UpsertNode` has done to the two tables when it returns.
use mesthastic_caltopo_bridg.Prelude.{
  ℕ, ◌≡◌, ◌≢◌, refl, sym, subst, ◌⊎◌, inl, inr, Bool, some, List, [], ◌∷◌, arith, Bool-cases, ◌==◌,
  ◌&&◌, if◌then◌else◌,
}
use mesthastic_caltopo_bridg.Go.Text.{Text, trim_space, is_empty, text_eq, text_eq_iff}
use mesthastic_caltopo_bridg.Go.Time.{Time, format_time}
use mesthastic_caltopo_bridg.Model.NodeId.{node_id}
use mesthastic_caltopo_bridg.Store.Tables.{PositionRow, Db, Result, ok, err}
use mesthastic_caltopo_bridg.Store.Nodes.{
  NodeError, find_node, preferred, rename_positions, upsert_node,
}
use mesthastic_caltopo_bridg.Store.Nodes.Names.{
  find_node-upsert_self, find_node-upsert_ne, new_row, new_callsign, renamed, Named,
  upsert_node-Named,
}

-- The short name if there is one, and else the long name.
abbrev pub IsPreferred : Text → Text → Text → Type 0
IsPreferred short_name long_name c =
    ((short_name ≢ []) × (c ≡ short_name)) ⊎ ((short_name ≡ []) × (c ≡ long_name))

preferred-IsPreferred : (s l : Text) → IsPreferred s l (preferred s l)
preferred-IsPreferred [] l = inr (refl, refl)
preferred-IsPreferred (b ∷ s) l = inl ((λ e. cc e), refl)

module _ {F : Type 0} (c : Text) (node : ℕ) where
  -- A position of the node that still has the node's id as its name gets the name `c`; any other is
  -- left as it is.
  abbrev pub Renamed : PositionRow F → PositionRow F → Type 0
  Renamed p q =
      ((p.source_node ≡ node) × (p.callsign ≡ node_id node) × (q ≡ record p { callsign = c }))
      ⊎ (((p.source_node ≢ node) ⊎ (p.callsign ≢ node_id node)) × (q ≡ p))

  -- Row by row.
  pub AllRenamed : List (PositionRow F) → List (PositionRow F) → Type 0
  AllRenamed [] [] = Unit
  AllRenamed [] (q ∷ qs) = ⊥
  AllRenamed (p ∷ ps) [] = ⊥
  AllRenamed (p ∷ ps) (q ∷ qs) = Renamed p q × AllRenamed ps qs

  rename_one :
      (p : PositionRow F)
      → Renamed p (
          if p.source_node == node && text_eq p.callsign (node_id node)
          then record p { callsign = c }
          else p)
  rename_one p = elim (Bool-cases (p.source_node == node)) [
    | inl same ↦ elim (Bool-cases (text_eq p.callsign (node_id node))) [
      | inl named ↦
          rw (same, named)
            (inl (ground arith, ground (arith, text_eq_iff p.callsign (node_id node)), refl))
      | inr other ↦
          rw (same, other)
            (inr (inr (λ e. ground (arith, text_eq_iff p.callsign (node_id node))), refl))
    ]
    | inr other ↦ rw other (inr (inl (λ e. ground arith), refl))
  ]

  rename_positions-AllRenamed :
      (ps : List (PositionRow F)) → AllRenamed ps (rename_positions c node ps)
  unfolding rename_positions AllRenamed
  rename_positions-AllRenamed [] = tt
  rename_positions-AllRenamed (p ∷ ps) = (rename_one p, rename_positions-AllRenamed ps)

module _ {S F : Type 0} (now : Time) (node : ℕ) (short_name long_name : Text) where
  -- The database after a success in which the node's name is `c`.
  pub record IsStored (c : Text) (db db' : Db S F) : Type 0 where
    pub name : IsPreferred (trim_space short_name) (trim_space long_name) c
    pub row :
        find_node node db'.nodes
        ≡ some (record {
          node_num = node;
          short_name = trim_space short_name;
          long_name = trim_space long_name;
          updated_at = format_time now;
        })
    pub others : (other : ℕ) → other ≢ node → find_node other db'.nodes ≡ find_node other db.nodes
    pub positions :
        ((c ≡ []) × (db'.positions ≡ db.positions))
        ⊎ ((c ≢ []) × AllRenamed c node db.positions db'.positions)
    pub rest : db' ≡ record db { nodes = db'.nodes; positions = db'.positions }

  abbrev pub Stored : Db S F → Db S F × Result NodeError (Unit {0}) → Type 0
  Stored db (db', err e) = db' ≡ db
  Stored db (db', ok u) = (c : Text) × IsStored c db db'

  renamed-IsStored :
      (db : Db S F)
      → IsStored
          (new_callsign now node short_name long_name)
          db
          (renamed now node short_name long_name db)
  renamed-IsStored db = record {
    name = preferred-IsPreferred (trim_space short_name) (trim_space long_name);
    row = find_node-upsert_self (new_row now node short_name long_name) db.nodes;
    others = λ other h.
        find_node-upsert_ne (new_row now node short_name long_name) other db.nodes (λ e. h (sym e));
    positions = by_name (new_callsign now node short_name long_name);
    rest = refl;
  }
    where
      by_name :
          (c : Text)
          → (let ps : List (PositionRow F) =
                if is_empty c then db.positions else rename_positions c node db.positions in
              ((c ≡ []) × (ps ≡ db.positions)) ⊎ ((c ≢ []) × AllRenamed c node db.positions ps))
      by_name [] = inl (refl, refl)
      by_name (b ∷ c) = inr ((λ e. cc e), rename_positions-AllRenamed (b ∷ c) node db.positions)

  -- `UpsertNode` either fails and leaves the database as it was, or has stored the names without the
  -- space around them for the node and left the names of the other nodes. If it has a name, the short
  -- one or else the long one, that is the callsign of each position of the node that had the node's
  -- id for a callsign; the other positions and tables are left as they were, and so are all if it has
  -- no name.
  pub upsert_node-Stored :
      (fails : NodeError → Bool) (db : Db S F)
      → Stored db (upsert_node fails now node short_name long_name db)
  upsert_node-Stored fails db =
      by_result (upsert_node fails now node short_name long_name db)
        (upsert_node-Named now node short_name long_name fails db)
    where
      by_result :
          (r : Db S F × Result NodeError (Unit {0}))
          → Named now node short_name long_name db r
          → Stored db r
      by_result (db', err e) h = h
      by_result (db', ok u) h = (
        new_callsign now node short_name long_name,
        subst (IsStored (new_callsign now node short_name long_name) db) (sym h)
            (renamed-IsStored db),
      )
