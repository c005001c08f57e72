-- ===== src/Tak/Ports.antt =====
-- The port numbers of Meshtastic that the decoder tells apart; README.md gives them.
use mesthastic_caltopo_bridg.Prelude.{ℕ, Bool, false, ◌==◌}
use mesthastic_caltopo_bridg.Prelude.Int.{ℤ, pos, negsuc}

abbrev pub position_app : ℕ
position_app = 3

abbrev pub nodeinfo_app : ℕ
nodeinfo_app = 4

abbrev pub atak_plugin : ℕ
atak_plugin = 72

abbrev pub atak_plugin_v2 : ℕ
atak_plugin_v2 = 78

abbrev pub atak_forwarder : ℕ
atak_forwarder = 257

abbrev pub is_port : ℤ → ℕ → Bool
is_port (pos n) port = n == port
is_port (negsuc n) port = false
