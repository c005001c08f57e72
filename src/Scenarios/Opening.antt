-- ===== src/Scenarios/Opening.antt =====
-- The start of the store, on a database of the first version and on a current one.
use mesthastic_caltopo_bridg.Prelude.{ℕ, ◌≡◌, refl, Bool, false, [], ◌∷◌}
use mesthastic_caltopo_bridg.Go.Text.{text, text_eq}
use mesthastic_caltopo_bridg.Store.Migrate.{
  InitError, add_column, location_source, value, Schema, position_columns, initialize,
}
use mesthastic_caltopo_bridg.Store.Migrate.Growth.{IsSound}
use mesthastic_caltopo_bridg.Store.Migrate.Complete.{
  IsCurrent, Initialized, initialize-Initialized, initialize-same,
}

-- A position of two columns.
abbrev old : Schema ℕ
old = record {
  columns = text "id" ∷ text "latitude" ∷ [];
  rows = (value 1 ∷ value 40 ∷ []) ∷ (value 2 ∷ value 41 ∷ []) ∷ [];
  versions = 1 ∷ [];
}

old-IsSound : IsSound old
old-IsSound = record { no_table = λ e. cc e; width = (refl, (refl, tt)); second = λ h. cc h }

-- The second of the new columns cannot be added.
abbrev failing : InitError → Bool
failing (add_column name) = text_eq name location_source
failing _ = false

initialize-Initialized_example : Initialized failing old (initialize failing old)
initialize-Initialized_example = initialize-Initialized failing old old-IsSound

abbrev current : Schema ℕ
current = record { columns = position_columns; rows = []; versions = 1 ∷ 2 ∷ 3 ∷ [] }

current-IsCurrent : IsCurrent current
unfolding text_eq
current-IsCurrent = record {
  columns = (refl, refl, refl);
  first = refl;
  second = refl;
  third = refl;
}

initialize-same_example : (initialize failing current).0 ≡ current
initialize-same_example = initialize-same failing current current-IsCurrent
