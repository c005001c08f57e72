-- ===== src/Scenarios/Commanding.antt =====
-- The command, on a configuration that publishes and a source that fails.
use mesthastic_caltopo_bridg.Prelude.{none, some, [], ◌∷◌}
use mesthastic_caltopo_bridg.Prelude.Int.{ℤ}
use mesthastic_caltopo_bridg.Go.Text.{text}
use mesthastic_caltopo_bridg.Store.Tables.{ok}
use mesthastic_caltopo_bridg.Bridge.{System, run}
use mesthastic_caltopo_bridg.Bridge.Shutdown.{IsClean, run-IsClean}
use mesthastic_caltopo_bridg.Scenarios.Configuring.{hosted}

abbrev system : System ℤ
system = record {
  list_devices = ok (text "/dev/ttyUSB0" ∷ []);
  stat = λ path. none;
  open_store = λ path. none;
  new_client = λ c. none;
  stopped = some (text "EOF");
  shutdown = some (text "context deadline exceeded");
}

run-IsClean_example : IsClean system.shutdown (run system (ok (hosted, []))).0
run-IsClean_example = run-IsClean system (ok (hosted, []))
