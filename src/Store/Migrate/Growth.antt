-- ===== src/Store/Migrate/Growth.antt =====
-- What the steps of `initialize` keep and make.
use mesthastic_caltopo_bridg.Prelude.{
  ℕ, ◌≡◌, refl, sym, ap, ◌∙◌, true, ◌||◌, List, [], ◌∷◌, ◌++◌, map, arith, append-nil, append_assoc,
  length, All, Bool-cases, inl, inr,
}
use mesthastic_caltopo_bridg.Go.Text.{Text, text_eq_iff}
use mesthastic_caltopo_bridg.Store.Migrate.{
  Cell, integer, null, Schema, has_column, has_version, source_port, location_source,
  precision_bits, position_columns, create_positions, insert_version, with_column,
}
use mesthastic_caltopo_bridg.Store.Migrate.Stages.{added, begun, with_columns, upgraded}

abbrev pub HasNewColumns : List Text → Type 0
HasNewColumns cs =
    (has_column source_port cs ≡ true)
    × (has_column location_source cs ≡ true)
    × (has_column precision_bits cs ≡ true)

pub has_version-append :
    (n : ℕ) (vs ws : List ℕ) → has_version n (vs ++ ws) ≡ (has_version n vs || has_version n ws)
has_version-append n [] ws = refl
has_version-append n (v ∷ vs) ws = ground (arith, has_version-append n vs ws)

pub has_column-append :
    (n : Text) (cs ds : List Text) → has_column n (cs ++ ds) ≡ (has_column n cs || has_column n ds)
has_column-append n [] ds = refl
has_column-append n (c ∷ cs) ds = ground (arith, has_column-append n cs ds)

module _ {V : Type 0} where
  -- A table that is not there has no rows, each row has a cell for each column, and where version 2 is
  -- recorded its columns are there.
  pub record IsSound (s : Schema V) : Type 0 where
    pub no_table : s.columns ≡ [] → s.rows ≡ []
    pub width : All (λ (row : List (Cell V)). length row ≡ length s.columns) s.rows
    pub second : has_version 2 s.versions ≡ true → HasNewColumns s.columns

  -- The columns and the cells of each row are the old ones with the same new ones behind them, and no
  -- version is lost.
  pub record Grows (s t : Schema V) : Type 0 where
    pub columns : (names : List Text) × (t.columns ≡ s.columns ++ names)
    pub rows : (cells : List (Cell V)) × (t.rows ≡ map (λ row. row ++ cells) s.rows)
    pub versions : (n : ℕ) → has_version n s.versions ≡ true → has_version n t.versions ≡ true

  map-append-nil : (rows : List (List (Cell V))) → map (λ row. row ++ []) rows ≡ rows
  map-append-nil [] = refl
  map-append-nil (row ∷ rows) = simp (append-nil, map-append-nil rows)

  map-append-append :
      (a b : List (Cell V)) (rows : List (List (Cell V)))
      → map (λ row. row ++ b) (map (λ row. row ++ a) rows) ≡ map (λ row. row ++ (a ++ b)) rows
  map-append-append a b [] = refl
  map-append-append a b (row ∷ rows) = simp (append_assoc, map-append-append a b rows)

  pub Grows-refl : (s : Schema V) → Grows s s
  Grows-refl s = record {
    columns = ([], sym (append-nil s.columns));
    rows = ([], sym (map-append-nil s.rows));
    versions = λ n h. h;
  }

  pub Grows-trans : (s t u : Schema V) → Grows s t → Grows t u → Grows s u
  Grows-trans s t u g h = record {
    columns = (
      g.columns.0 ++ h.columns.0,
      h.columns.1
          ∙ ap (λ cs. cs ++ h.columns.0) g.columns.1
          ∙ append_assoc s.columns g.columns.0 h.columns.0,
    );
    rows = (
      g.rows.0 ++ h.rows.0,
      h.rows.1
          ∙ ap (map (λ row. row ++ h.rows.0)) g.rows.1
          ∙ map-append-append g.rows.0 h.rows.0 s.rows,
    );
    versions = λ n k. h.versions n (g.versions n k);
  }

  pub insert_version-Grows : (n : ℕ) (s : Schema V) → Grows s (insert_version n s)
  unfolding insert_version
  insert_version-Grows n s = elim (Bool-cases (has_version n s.versions)) [
    | inl h ↦ rw h (Grows-refl s)
    | inr h ↦ rw h (record {
      columns = ([], sym (append-nil s.columns));
      rows = ([], sym (map-append-nil s.rows));
      versions = λ m k. has_version-append m s.versions (n ∷ []) ∙ rw k refl;
    })
  ]

  pub create_positions-Grows : (s : Schema V) → IsSound s → Grows s (create_positions s)
  unfolding create_positions
  create_positions-Grows s sound = by_columns s.columns refl
    where
      by_columns :
          (cs : List Text)
          → s.columns ≡ cs
          → Grows s (elim cs as (λ _. Schema V) [
            | [] ↦ record s { columns = position_columns; rows = [] }
            | _ ∷ _ ↦ s
          ])
      by_columns [] e = record {
        columns = (position_columns, rw e refl);
        rows = ([], rw (sound.no_table e) refl);
        versions = λ n h. h;
      }
      by_columns (c ∷ cs) e = Grows-refl s

  pub with_column-Grows :
      (name : Text) (default : Cell V) (s : Schema V) → Grows s (with_column name default s)
  unfolding with_column
  with_column-Grows name default s = record {
    columns = (name ∷ [], refl);
    rows = (default ∷ [], refl);
    versions = λ n h. h;
  }

  pub added-Grows : (name : Text) (default : Cell V) (s : Schema V) → Grows s (added name default s)
  unfolding added
  added-Grows name default s = elim (Bool-cases (has_column name s.columns)) [
    | inl h ↦ rw h (Grows-refl s)
    | inr h ↦ rw h (with_column-Grows name default s)
  ]

  pub begun-Grows : (s : Schema V) → IsSound s → Grows s (begun s)
  unfolding begun
  begun-Grows s sound =
      Grows-trans s (create_positions s) (insert_version 1 (create_positions s))
        (create_positions-Grows s sound) (insert_version-Grows 1 (create_positions s))

  pub with_columns-Grows : (s : Schema V) → Grows s (with_columns s)
  unfolding with_columns
  with_columns-Grows s =
      let a = added source_port (integer 72) s in
      let b = added location_source null a in
      Grows-trans s b (added precision_bits (integer 0) b)
        (Grows-trans s a b (added-Grows source_port (integer 72) s)
          (added-Grows location_source null a))
        (added-Grows precision_bits (integer 0) b)

  pub upgraded-Grows : (s : Schema V) → Grows s (upgraded s)
  unfolding upgraded
  upgraded-Grows s = elim (Bool-cases (has_version 2 s.versions)) [
    | inl h ↦ rw h (Grows-refl s)
    | inr h ↦ rw h (
        Grows-trans s (with_columns s) (insert_version 2 (with_columns s)) (with_columns-Grows s)
          (insert_version-Grows 2 (with_columns s)))
  ]

  -- A column stays when others come.
  pub Grows-has_column :
      (name : Text) (s t : Schema V)
      → Grows s t
      → has_column name s.columns ≡ true
      → has_column name t.columns ≡ true
  Grows-has_column name s t g h =
      rw g.columns.1 (has_column-append name s.columns g.columns.0 ∙ rw h refl)

  added-has_column :
      (name : Text) (default : Cell V) (s : Schema V)
      → has_column name (added name default s).columns ≡ true
  unfolding added with_column
  added-has_column name default s = elim (Bool-cases (has_column name s.columns)) [
    | inl h ↦ rw h h
    | inr h ↦
        rw h (
          has_column-append name s.columns (name ∷ [])
          ∙ rw (h, (text_eq_iff name name).1 refl) refl)
  ]

  pub with_columns-HasNewColumns : (s : Schema V) → HasNewColumns (with_columns s).columns
  unfolding with_columns
  with_columns-HasNewColumns s =
      let a = added source_port (integer 72) s in
      let b = added location_source null a in
      let c = added precision_bits (integer 0) b in
      let ab = added-Grows location_source null a in
      let bc = added-Grows precision_bits (integer 0) b in
      (
        Grows-has_column source_port b c bc
            (Grows-has_column source_port a b ab (added-has_column source_port (integer 72) s)),
        Grows-has_column location_source b c bc (added-has_column location_source null a),
        added-has_column precision_bits (integer 0) b,
      )
