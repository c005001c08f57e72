-- ===== src/Store/Nodes.antt =====
-- `UpsertNode` and `NodeCallsign` of internal/store/store.go.
pub mod Names
pub mod Keys
pub mod Renames
use mesthastic_caltopo_bridg.Prelude.{
  ℕ, Bool, ◌&&◌, Option, none, some, List, [], ◌∷◌, ◌==◌, if◌then◌else◌,
}
use mesthastic_caltopo_bridg.Go.Text.{Text, text_eq, trim_space, is_empty}
use mesthastic_caltopo_bridg.Go.Time.{Time, format_time}
use mesthastic_caltopo_bridg.Model.NodeId.{node_id}
use mesthastic_caltopo_bridg.Store.Tables.{
  NodeRow, PositionRow, Db, Result, ok, err, Tx, ◌>>=◌, ◌>>◌, pure, call, transact,
}

pub data NodeError : Type 0 where
  begin_node upsert_row update_callsigns commit_node query_node : NodeError

-- `INSERT … ON CONFLICT(node_num) DO UPDATE`
unfoldable pub upsert_row_of : NodeRow → List NodeRow → List NodeRow
upsert_row_of n [] = n ∷ []
upsert_row_of n (m ∷ ms) =
    let rest = upsert_row_of n ms in if m.node_num == n.node_num then n ∷ ms else m ∷ rest

unfoldable pub find_node : ℕ → List NodeRow → Option NodeRow
find_node node [] = none
find_node node (m ∷ ms) =
    let rest = find_node node ms in if m.node_num == node then some m else rest

-- The short name, or else the long one.
abbrev pub preferred : Text → Text → Text
preferred short_name long_name = if is_empty short_name then long_name else short_name

-- `UPDATE tak_positions SET callsign = ? WHERE source_node = ? AND callsign = ?`
unfoldable pub rename_positions :
    {F : Type 0} → Text → ℕ → List (PositionRow F) → List (PositionRow F)
unfolding node_id text_eq
rename_positions callsign node [] = []
rename_positions callsign node (p ∷ ps) =
    (if p.source_node == node && text_eq p.callsign (node_id node)
      then record p { callsign = callsign }
      else p)
    ∷ rename_positions callsign node ps

module _ {S F : Type 0} where
  put_node : NodeRow → Tx (Db S F) NodeError (Unit {0})
  unfolding upsert_row_of
  put_node n db = ok (tt, record db { nodes = upsert_row_of n db.nodes })

  put_callsign : Text → ℕ → Tx (Db S F) NodeError (Unit {0})
  unfolding rename_positions
  put_callsign callsign node db =
      ok (tt, record db { positions = rename_positions callsign node db.positions })

  rename_node : (NodeError → Bool) → ℕ → Text → Tx (Db S F) NodeError (Unit {0})
  unfolding put_callsign
  rename_node fails node callsign =
      if is_empty callsign
      then pure tt
      else (call fails update_callsigns >> put_callsign callsign node)

  upsert_body : (NodeError → Bool) → Time → ℕ → Text → Text → Tx (Db S F) NodeError (Unit {0})
  unfolding put_node rename_node
  upsert_body fails now node short_name long_name = do
    call fails begin_node
    call fails upsert_row
    put_node (record {
      node_num = node;
      short_name = short_name;
      long_name = long_name;
      updated_at = format_time now;
    })
    rename_node fails node (preferred short_name long_name)
    call fails commit_node
    pure tt

  unfoldable pub upsert_node :
      (NodeError → Bool) → Time → ℕ → Text → Text → Db S F → Db S F × Result NodeError (Unit {0})
  unfolding upsert_body transact
  upsert_node fails now node short_name long_name =
      transact (upsert_body fails now node (trim_space short_name) (trim_space long_name))

  unfoldable pub node_callsign : (NodeError → Bool) → ℕ → Db S F → Result NodeError Text
  unfolding find_node
  node_callsign fails node db =
      if fails query_node then err query_node else elim (find_node node db.nodes) [
        | none ↦ ok []
        | some n ↦ ok (preferred n.short_name n.long_name)
      ]
