-- ===== src/Scenarios/Showing.antt =====
-- The position list of the map, on the stored positions.
use mesthastic_caltopo_bridg.Prelude.{false}
use mesthastic_caltopo_bridg.Store.Positions.{positions}
use mesthastic_caltopo_bridg.Web.Shown.{Replies, serve_positions-Replies}
use mesthastic_caltopo_bridg.Scenarios.{stored}

serve_positions-Replies_example : Replies stored (positions (λ _. false) stored)
serve_positions-Replies_example = serve_positions-Replies (λ _. false) stored
