-- ===== src/Store/Migrate/Sound.antt =====
-- The steps of `initialize` keep a schema sound.
use mesthastic_caltopo_bridg.Prelude.{
  ℕ, ◌+◌, ◌≡◌, refl, sym, ap, ◌∙◌, Bool, true, false, ◌||◌, List, [], ◌∷◌, ◌++◌, map, ◌==◌, arith,
  length, length-append, All, Bool-cases, inl, inr,
}
use mesthastic_caltopo_bridg.Go.Text.{Text, text_eq}
use mesthastic_caltopo_bridg.Store.Migrate.{
  Cell, integer, null, Schema, has_column, has_version, source_port, location_source,
  precision_bits, position_columns, create_positions, insert_version, with_column,
}
use mesthastic_caltopo_bridg.Store.Migrate.Stages.{added, begun, with_columns, upgraded}
use mesthastic_caltopo_bridg.Store.Migrate.Growth.{
  HasNewColumns, IsSound, Grows, has_version-append, with_column-Grows, Grows-has_column,
  with_columns-HasNewColumns,
}

module _ {V : Type 0} where
  pub Grows-HasNewColumns :
      (s t : Schema V) → Grows s t → HasNewColumns s.columns → HasNewColumns t.columns
  Grows-HasNewColumns s t g (a, b, c) = (
    Grows-has_column source_port s t g a,
    Grows-has_column location_source s t g b,
    Grows-has_column precision_bits s t g c,
  )

  pub create_positions-IsSound : (s : Schema V) → IsSound s → IsSound (create_positions s)
  unfolding create_positions text_eq
  create_positions-IsSound s sound = by_columns s.columns
    where
      by_columns :
          (cs : List Text)
          → IsSound (elim cs as (λ _. Schema V) [
            | [] ↦ record s { columns = position_columns; rows = [] }
            | _ ∷ _ ↦ s
          ])
      by_columns [] = record { no_table = λ e. refl; width = tt; second = λ h. (refl, refl, refl) }
      by_columns (c ∷ cs) = sound

  pub insert_version-IsSound :
      (n : ℕ) (s : Schema V)
      → ((n == 2) ≡ true → HasNewColumns s.columns)
      → IsSound s
      → IsSound (insert_version n s)
  unfolding insert_version
  insert_version-IsSound n s new sound = elim (Bool-cases (has_version n s.versions)) [
    | inl h ↦ rw h sound
    | inr h ↦ rw h (record {
      no_table = sound.no_table;
      width = sound.width;
      second = λ k.
          by_old (has_version 2 s.versions) refl
            (sym (has_version-append 2 s.versions (n ∷ [])) ∙ k);
    })
  ]
    where
      by_old :
          (b : Bool)
          → has_version 2 s.versions ≡ b
          → (b || (n == 2 || false)) ≡ true
          → HasNewColumns s.columns
      by_old true e k = sound.second e
      by_old false e k = new (ground arith)

  wider :
      (cell : Cell V) (k : ℕ) (rows : List (List (Cell V)))
      → All (λ (row : List (Cell V)). length row ≡ k) rows
      → All (λ (row : List (Cell V)). length row ≡ k + 1) (map (λ row. row ++ cell ∷ []) rows)
  wider cell k [] h = tt
  wider cell k (row ∷ rows) h =
      (omega (arith, length-append row (cell ∷ []), h.0), wider cell k rows h.1)

  with_column-IsSound :
      (name : Text) (default : Cell V) (s : Schema V)
      → IsSound s
      → IsSound (with_column name default s)
  unfolding with_column
  with_column-IsSound name default s sound = record {
    no_table = λ e. absurd (omega (arith, ap length e, length-append s.columns (name ∷ [])));
    width =
        rw (length-append s.columns (name ∷ []))
          (wider default (length s.columns) s.rows sound.width);
    second = λ h.
        Grows-HasNewColumns s (with_column name default s) (with_column-Grows name default s)
          (sound.second h);
  }

  added-IsSound :
      (name : Text) (default : Cell V) (s : Schema V) → IsSound s → IsSound (added name default s)
  unfolding added
  added-IsSound name default s sound = elim (Bool-cases (has_column name s.columns)) [
    | inl h ↦ rw h sound
    | inr h ↦ rw h (with_column-IsSound name default s sound)
  ]

  with_columns-IsSound : (s : Schema V) → IsSound s → IsSound (with_columns s)
  unfolding with_columns
  with_columns-IsSound s sound =
      let a = added source_port (integer 72) s in
      let b = added location_source null a in
      added-IsSound precision_bits (integer 0) b
        (added-IsSound location_source null a (added-IsSound source_port (integer 72) s sound))

  pub upgraded-IsSound : (s : Schema V) → IsSound s → IsSound (upgraded s)
  unfolding upgraded
  upgraded-IsSound s sound = elim (Bool-cases (has_version 2 s.versions)) [
    | inl h ↦ rw h sound
    | inr h ↦ rw h (
        insert_version-IsSound 2 (with_columns s) (λ _. with_columns-HasNewColumns s)
          (with_columns-IsSound s sound))
  ]

  pub begun-IsSound : (s : Schema V) → IsSound s → IsSound (begun s)
  unfolding begun
  begun-IsSound s sound =
      insert_version-IsSound 1 (create_positions s) (λ e. absurd (ground arith))
        (create_positions-IsSound s sound)
