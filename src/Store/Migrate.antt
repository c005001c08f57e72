-- ===== src/Store/Migrate.antt =====
-- The start of the store of internal/store/store.go: `initialize`, `migrate` and `tableHasColumn`. Of
-- the schema's tables the one of the positions and the one of the migrations are here; the other
-- statements of the schema make tables and indexes that are not there yet.
pub mod Stages
pub mod Growth
pub mod Sound
pub mod Complete
use mesthastic_caltopo_bridg.Prelude.{
  ℕ, Bool, true, false, ◌||◌, Option, none, some, List, [], ◌∷◌, ◌++◌, map, ◌==◌, if◌then◌else◌,
}
use mesthastic_caltopo_bridg.Go.Text.{Text, text, text_eq}
use mesthastic_caltopo_bridg.Store.Tables.{Result, ok, err, Tx, ◌>>=◌, ◌>>◌, pure, call, transact}

-- The errors, one for each call that can fail.
pub data InitError : Type 0 where
  pragma create_tables record_first : InitError
  query_migration begin_migration commit_second : InitError
  inspect add_column : Text → InitError
  record_second record_third : InitError

-- A cell of a row: a value that was stored, or the default of an added column.
pub data Cell (V : Type 0) : Type 0 where
  value : V → Cell V
  integer : ℕ → Cell V
  null : Cell V

-- The columns of `tak_positions`, none if there is no such table; its rows; and the versions of
-- `schema_migrations`.
pub record Schema (V : Type 0) : Type 0 where
  pub columns : List Text
  pub rows : List (List (Cell V))
  pub versions : List ℕ

abbrev pub has_column : Text → List Text → Bool
has_column name [] = false
has_column name (c ∷ cs) = text_eq c name || has_column name cs

abbrev pub has_version : ℕ → List ℕ → Bool
has_version n [] = false
has_version n (v ∷ vs) = v == n || has_version n vs

abbrev pub source_port : Text
source_port = text "source_port"

abbrev pub location_source : Text
location_source = text "location_source"

abbrev pub precision_bits : Text
precision_bits = text "precision_bits"

-- The columns of `CREATE TABLE IF NOT EXISTS tak_positions`.
abbrev pub position_columns : List Text
position_columns =
    text "id"
    ∷ text "packet_id"
    ∷ text "dedupe_key"
    ∷ text "source_node"
    ∷ text "mesh_packet_id"
    ∷ source_port
    ∷ text "callsign"
    ∷ text "device_callsign"
    ∷ text "latitude"
    ∷ text "longitude"
    ∷ text "altitude"
    ∷ text "speed"
    ∷ text "course"
    ∷ location_source
    ∷ precision_bits
    ∷ text "source_time"
    ∷ text "received_at"
    ∷ []

module _ {V : Type 0} where
  -- A statement outside a transaction, and what follows it if it succeeds.
  unfoldable pub statement :
      (InitError → Bool)
      → InitError
      → (Schema V → Schema V)
      → Schema V
      → Schema V × Result InitError (Unit {0})
  statement fails e f s = if fails e then (s, err e) else (f s, ok tt)

  unfoldable pub and_then :
      Schema V × Result InitError (Unit {0})
      → (Schema V → Schema V × Result InitError (Unit {0}))
      → Schema V × Result InitError (Unit {0})
  and_then (s, err e) next = (s, err e)
  and_then (s, ok _) next = next s

  unfoldable pub create_positions : Schema V → Schema V
  create_positions s = elim s.columns [
    | [] ↦ record s { columns = position_columns; rows = [] }
    | _ ∷ _ ↦ s
  ]

  -- `INSERT OR IGNORE`, and `ON CONFLICT(version) DO NOTHING`.
  unfoldable pub insert_version : ℕ → Schema V → Schema V
  insert_version n s =
      if has_version n s.versions then s else record s { versions = s.versions ++ n ∷ [] }

  -- `ALTER TABLE tak_positions ADD COLUMN`.
  unfoldable pub with_column : Text → Cell V → Schema V → Schema V
  with_column name default s = record s {
    columns = s.columns ++ name ∷ [];
    rows = map (λ row. row ++ default ∷ []) s.rows;
  }

  module _ (fails : InitError → Bool) where
    -- One turn of the loop over the migrations of version 2.
    unfoldable pub add_missing : Text → Cell V → Tx (Schema V) InitError (Unit {0})
    unfolding with_column
    add_missing name default = do
      call fails (inspect name)
      λ s.
          if has_column name s.columns
          then ok (tt, s)
          else (call fails (add_column name) >> λ s. ok (tt, with_column name default s)) s

    unfoldable pub second_migration : Tx (Schema V) InitError (Unit {0})
    unfolding add_missing insert_version
    second_migration = do
      call fails begin_migration
      add_missing source_port (integer 72)
      add_missing location_source null
      add_missing precision_bits (integer 0)
      call fails record_second
      λ s. if has_version 2 s.versions then err record_second else ok (tt, insert_version 2 s)
      call fails commit_second

    -- `if !applied { … }`
    unfoldable pub upgrade : Schema V → Schema V × Result InitError (Unit {0})
    unfolding transact
    upgrade s = if has_version 2 s.versions then (s, ok tt) else transact second_migration s

    unfoldable pub migrate : Schema V → Schema V × Result InitError (Unit {0})
    migrate s =
        if fails query_migration
        then (s, err query_migration)
        else and_then (upgrade s) (statement fails record_third (insert_version 3))

    unfoldable pub initialize : Schema V → Schema V × Result InitError (Unit {0})
    initialize s =
        and_then
          (and_then
            (and_then (statement fails pragma (λ s. s) s)
              (statement fails create_tables create_positions))
            (statement fails record_first (insert_version 1)))
          migrate
