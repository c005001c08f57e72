-- ===== src/Store/Nodes/Names.antt =====
-- What `UpsertNode` has done when it returns, and what `NodeCallsign` then says.
use mesthastic_caltopo_bridg.Prelude.{
  ℕ, ◌≡◌, ◌≢◌, refl, sym, Bool, true, false, some, List, [], ◌∷◌, arith, if◌then◌else◌,
}
use mesthastic_caltopo_bridg.Go.Text.{Text, trim_space, is_empty}
use mesthastic_caltopo_bridg.Go.Time.{Time, format_time}
use mesthastic_caltopo_bridg.Store.Tables.{
  NodeRow, Db, Result, ok, err, transact, call, call-case, Tx, ◌>>◌, ◌>>=◌, pure,
}
use mesthastic_caltopo_bridg.Store.Nodes.{
  NodeError, begin_node, upsert_row, update_callsigns, commit_node, upsert_row_of, find_node,
  preferred, rename_positions, upsert_node, node_callsign, put_callsign,
}

pub find_node-upsert_self :
    (n : NodeRow) (ms : List NodeRow) → find_node n.node_num (upsert_row_of n ms) ≡ some n
unfolding find_node upsert_row_of
find_node-upsert_self n [] = ground arith
find_node-upsert_self n (m ∷ ms) = ground (arith, find_node-upsert_self n ms)

pub find_node-upsert_ne :
    (n : NodeRow) (node : ℕ) (ms : List NodeRow)
    → n.node_num ≢ node
    → find_node node (upsert_row_of n ms) ≡ find_node node ms
unfolding find_node upsert_row_of
find_node-upsert_ne n node [] h = ground arith
find_node-upsert_ne n node (m ∷ ms) h = ground (arith, find_node-upsert_ne n node ms h)

module _ (now : Time) (node : ℕ) (short_name long_name : Text) where
  abbrev pub new_row : NodeRow
  new_row = record {
    node_num = node;
    short_name = trim_space short_name;
    long_name = trim_space long_name;
    updated_at = format_time now;
  }

  abbrev pub new_callsign : Text
  new_callsign = preferred (trim_space short_name) (trim_space long_name)

module _ {S F : Type 0} (now : Time) (node : ℕ) (short_name long_name : Text) where
  -- The name stored, and, if there is one, given to the positions that had the node's number.
  abbrev pub renamed : Db S F → Db S F
  renamed db = record db {
    nodes = upsert_row_of (new_row now node short_name long_name) db.nodes;
    positions =
        if is_empty (new_callsign now node short_name long_name)
        then db.positions
        else rename_positions (new_callsign now node short_name long_name) node db.positions;
  }

  -- An error leaves the database as it was.
  abbrev pub Named : Db S F → Db S F × Result NodeError (Unit {0}) → Type 0
  Named db (db', err e) = db' ≡ db
  Named db (db', ok u) = db' ≡ renamed db

  -- `UpsertNode` either fails and leaves the database as it was, or has made `renamed` of it.
  pub upsert_node-Named :
      (fails : NodeError → Bool) (db : Db S F)
      → Named db (upsert_node fails now node short_name long_name db)
  unfolding upsert_node
  upsert_node-Named fails db =
      call-case (λ r. Named db (transact (λ _. r) db)) fails begin_node _ db refl
        λ _.
          call-case (λ r. Named db (transact (λ _. r) db)) fails upsert_row _ db refl
            λ _. by_name (is_empty name) refl
    where
      name : Text
      name = new_callsign now node short_name long_name

      stored : Db S F
      stored = record db { nodes = upsert_row_of (new_row now node short_name long_name) db.nodes }

      commit : Tx (Db S F) NodeError (Unit {0})
      commit = call fails commit_node >> pure tt

      by_name :
          (b : Bool)
          → is_empty name ≡ b
          → Named db (
              transact
                (λ _.
                  ((if b then pure tt else (call fails update_callsigns >> put_callsign name node))
                      >> commit)
                    stored)
                db)
      by_name true e =
          call-case (λ r. Named db (transact (λ _. r) db)) fails commit_node _ stored refl λ _. rw e
      by_name false e =
          call-case (λ r. Named db (transact (λ _. ◌>>=◌ (λ _. r) (λ _. commit) stored) db)) fails
            update_callsigns (put_callsign name node) stored refl
            λ _.
              call-case (λ r. Named db (transact (λ _. r) db)) fails commit_node _ _ refl λ _. rw e

  upsert_node-ok :
      (db : Db S F)
      → upsert_node (λ _. false) now node short_name long_name db ≡ (renamed db, ok tt)
  unfolding upsert_node
  upsert_node-ok db = ground arith

  -- After an `UpsertNode` in which no call fails, the node's callsign is its short name, or else its
  -- long name, and every other node has the callsign that it had.
  pub node_callsign-upsert :
      (db : Db S F) (other : ℕ)
      → other ≢ node
      → let db' = (upsert_node (λ _. false) now node short_name long_name db).0 in
        (node_callsign (λ _. false) node db' ≡ ok (new_callsign now node short_name long_name))
        × (node_callsign (λ _. false) other db' ≡ node_callsign (λ _. false) other db)
  unfolding node_callsign
  node_callsign-upsert db other h = rw (upsert_node-ok db) (
    rw (find_node-upsert_self (new_row now node short_name long_name) db.nodes) refl,
    rw (find_node-upsert_ne (new_row now node short_name long_name) other db.nodes (λ e. h (sym e)))
        refl,
  )
