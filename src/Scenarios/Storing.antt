-- ===== src/Scenarios/Storing.antt =====
-- The theorems on the store's tables, on the stored deliveries.
use mesthastic_caltopo_bridg.Prelude.{◌≡◌, refl, Bool, true, false, some, arith, In, here}
use mesthastic_caltopo_bridg.Prelude.Int.{ℤ, pos, negsuc}
use mesthastic_caltopo_bridg.Go.Text.{text}
use mesthastic_caltopo_bridg.Go.Time.{unix, format_time}
use mesthastic_caltopo_bridg.Go.Time.Parse.{parse_time}
use mesthastic_caltopo_bridg.Go.Time.RoundTrip.{parse_time-format_time}
use mesthastic_caltopo_bridg.Store.Tables.{ok, PositionRow}
use mesthastic_caltopo_bridg.Store.Archive.{ArchiveError, archive, enqueue_delivery}
use mesthastic_caltopo_bridg.Store.Archive.Outcome.{Outcome, archive-Outcome}
use mesthastic_caltopo_bridg.Store.Invariant.{WellFormed, archive-WellFormed}
use mesthastic_caltopo_bridg.Store.Nodes.{upsert_node, node_callsign}
use mesthastic_caltopo_bridg.Store.Nodes.Names.{new_callsign, node_callsign-upsert}
use mesthastic_caltopo_bridg.Store.Nodes.Renames.{Stored, upsert_node-Stored}
use mesthastic_caltopo_bridg.Store.Positions.{latest_rows}
use mesthastic_caltopo_bridg.Store.Positions.Latest.{latest_rows_one_per_node}
use mesthastic_caltopo_bridg.Scenarios.{
  env, packet, position_at, position_of, stored, stored-WellFormed,
}

-- The enqueueing fails.
abbrev full : ArchiveError → Bool
full enqueue_delivery = true
full _ = false

archive-Outcome_example :
    Outcome env
      (unix 50)
      packet
      true
      full
      stored
      (some (position_at 7 104 (pos 40) (negsuc 104) (unix 40)))
      (archive env full
        (unix 50)
        packet
        true
        (some (position_at 7 104 (pos 40) (negsuc 104) (unix 40)))
        stored)
archive-Outcome_example =
    archive-Outcome env (unix 50) packet true full stored
      (some (position_at 7 104 (pos 40) (negsuc 104) (unix 40)))

archive-WellFormed_example :
    WellFormed
      (archive env
        (λ _. false)
        (unix 50)
        packet
        true
        (some (position_at 7 104 (pos 40) (negsuc 104) (unix 40)))
        stored).0
archive-WellFormed_example =
    archive-WellFormed env (unix 50) packet true (λ _. false) stored
      (some (position_at 7 104 (pos 40) (negsuc 104) (unix 40))) stored-WellFormed

upsert_node-Stored_example :
    Stored
      (unix 50)
      7
      (text " BRV ")
      (text "Bravo")
      stored
      (upsert_node (λ _. false) (unix 50) 7 (text " BRV ") (text "Bravo") stored)
upsert_node-Stored_example =
    upsert_node-Stored (unix 50) 7 (text " BRV ") (text "Bravo") (λ _. false) stored

node_callsign-upsert_example :
    (node_callsign
        (λ _. false)
        7
        (upsert_node (λ _. false) (unix 50) 7 (text "BRV") (text "Bravo") stored).0
      ≡ ok (new_callsign (unix 50) 7 (text "BRV") (text "Bravo")))
    × (node_callsign
          (λ _. false)
          9
          (upsert_node (λ _. false) (unix 50) 7 (text "BRV") (text "Bravo") stored).0
        ≡ node_callsign (λ _. false) 9 stored)
node_callsign-upsert_example =
    node_callsign-upsert (unix 50) 7 (text "BRV") (text "Bravo") stored 9 (λ e. ground arith)

latest_rows_one_per_node_example :
    ((p : PositionRow ℤ) × In p (latest_rows stored.positions) × (p.source_node ≡ 7))
    × ((a b : PositionRow ℤ)
        → In a (latest_rows stored.positions)
        → In b (latest_rows stored.positions)
        → a.source_node ≡ b.source_node
        → a.id ≡ b.id)
latest_rows_one_per_node_example =
    latest_rows_one_per_node stored.positions (position_of 1 7) (here refl)

parse_time-format_time_example :
    parse_time (format_time 63839404799050000000) ≡ some 63839404799050000000
parse_time-format_time_example = parse_time-format_time 63839404799050000000 (omega arith)
