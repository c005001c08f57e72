-- ===== src/Store/Positions.antt =====
-- `Positions` of internal/store/store.go: the newest position of each node.
pub mod Latest
use mesthastic_caltopo_bridg.Prelude.{
  ℕ, Bool, not, ◌&&◌, ◌||◌, Option, none, some, List, [], ◌∷◌, ltb, ◌==◌, if◌then◌else◌,
}
use mesthastic_caltopo_bridg.Go.Text.{Text, text_eq, text_lt}
use mesthastic_caltopo_bridg.Model.{Position}
use mesthastic_caltopo_bridg.Store.Sql.{exists_row, rows_where, order_by}
use mesthastic_caltopo_bridg.Store.Tables.{PositionRow, Db, Result, ok, err}
use mesthastic_caltopo_bridg.Store.Deliveries.{
  QueryError, query, scan, parse, iterate, scan_position,
}

module _ {F : Type 0} where
  -- `ORDER BY p.source_time, p.id`, and the test of the subquery with its sides exchanged.
  unfoldable pub older : PositionRow F → PositionRow F → Bool
  older a b =
      text_lt a.source_time b.source_time || (text_eq a.source_time b.source_time && ltb a.id b.id)

  -- A newer row of the same node.
  unfoldable pub outdates : PositionRow F → PositionRow F → Bool
  unfolding older
  outdates newer p = newer.source_node == p.source_node && older p newer

  -- The rows with no newer one of their node, in the order of the query.
  unfoldable pub latest_rows : List (PositionRow F) → List (PositionRow F)
  unfolding outdates exists_row rows_where order_by
  latest_rows table =
      order_by older (rows_where (λ p. not (exists_row (λ newer. outdates newer p) table)) table)

  unfoldable pub scan_positions :
      (QueryError → Bool) → List (PositionRow F) → Result QueryError (List (Position F))
  unfolding scan_position
  scan_positions fails [] = if fails iterate then err iterate else ok []
  scan_positions fails (p ∷ ps) =
      let rest = scan_positions fails ps in
      if fails scan then err scan else elim (scan_position p) [
        | none ↦ err parse
        | some v ↦ elim rest [ ok vs ↦ ok (v ∷ vs) | err e ↦ err e ]
      ]

  unfoldable pub positions :
      {S : Type 0} → (QueryError → Bool) → Db S F → Result QueryError (List (Position F))
  unfolding latest_rows scan_positions
  positions fails db =
      if fails query then err query else scan_positions fails (latest_rows db.positions)
