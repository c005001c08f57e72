-- ===== src/Scenarios/Configuring.antt =====
-- The check of a configuration, on one for a hosted map.
use mesthastic_caltopo_bridg.Prelude.{
  ◌≡◌, refl, true, false, Option, none, some, List, [], ◌∷◌, if◌then◌else◌,
}
use mesthastic_caltopo_bridg.Prelude.Int.{ℤ, pos}
use mesthastic_caltopo_bridg.Go.Text.{Text, text, text_eq, is_empty, contains_byte, strip_prefix}
use mesthastic_caltopo_bridg.Config.{
  Config, no_map, no_credentials, validate, not_positive, is_hosted,
}
use mesthastic_caltopo_bridg.Config.Checked.{IsUsable, validate-IsUsable}
use mesthastic_caltopo_bridg.Store.Tables.{ok}
use mesthastic_caltopo_bridg.Config.Parse.{
  Setting, serial_device_flag, caltopo_enabled_flag, System, env_text, env_value, from_env, parse,
}
use mesthastic_caltopo_bridg.Config.Parse.Environment.{FromEnv}
use mesthastic_caltopo_bridg.Config.Parse.Precedence.{Precedence, parse-Precedence}
use mesthastic_caltopo_bridg.Scenarios.{whole}

abbrev pub hosted : Config ℤ
hosted = record {
  serial_device = text "/dev/ttyUSB0";
  serial_baud = pos 115200;
  database_path = text "bridge.db";
  http_listen_address = text "127.0.0.1:8080";
  debug = false;
  decode_position_app = true;
  list_devices = false;
  version = false;
  caltopo = record {
    enabled = true;
    endpoint = text "HTTPS://CalTopo.com:443/m";
    map_id = text "ABC12";
    group = text "TEAM";
    credential_id = text "ID";
    key = text "KEY";
    account_id = [];
    timeout = pos 10000000000;
    movement = pos 25;
    heartbeat = pos 300000000000;
  };
}

hosted_found : is_hosted hosted.caltopo.endpoint ≡ true
unfolding is_hosted text_eq strip_prefix
hosted_found = refl

accepted : validate whole hosted ≡ []
unfolding validate is_hosted text_eq strip_prefix contains_byte
accepted = refl

validate-IsUsable_example :
    (is_empty hosted.serial_device ≡ false)
    × (not_positive hosted.serial_baud ≡ false)
    × (is_empty hosted.database_path ≡ false)
    × (is_empty hosted.http_listen_address ≡ false)
    × (hosted.caltopo.enabled ≡ true → IsUsable whole hosted.caltopo)
validate-IsUsable_example = validate-IsUsable whole hosted refl refl accepted

-- One variable is set; the flags name a device twice and enable the publishing.
abbrev lookup_env : Text → Option Text
lookup_env key = if text_eq key (text "CALTOPO_KEY") then some (text "SECRET") else none

abbrev settings : List (Setting ℤ)
settings =
    serial_device_flag (text "/dev/a")
    ∷ caltopo_enabled_flag true
    ∷ serial_device_flag (text "/dev/b")
    ∷ []

abbrev system : System ℤ
system = record {
  lookup_env = lookup_env;
  atoi = λ t. none;
  parse_float = λ t. none;
  parse_bool = λ t. none;
  parse_duration = λ t. none;
  parse_args = λ args. ok (settings, []);
}

abbrev configured : Config ℤ
configured = record {
  serial_device = text "/dev/b";
  serial_baud = pos 115200;
  database_path = text "bridge.db";
  http_listen_address = text "127.0.0.1:8080";
  debug = false;
  decode_position_app = true;
  list_devices = false;
  version = false;
  caltopo = record {
    enabled = true;
    endpoint = text "caltopo.com";
    map_id = [];
    group = text "mesh";
    credential_id = [];
    key = text "SECRET";
    account_id = [];
    timeout = pos 10000000000;
    movement = pos 25;
    heartbeat = pos 300000000000;
  };
}

parsed : parse system whole [] ≡ ok (configured, no_map ∷ no_credentials ∷ [])
unfolding parse from_env env_value env_text text_eq strip_prefix is_hosted contains_byte
parsed = refl

parse-Precedence_example :
    (ss : List (Setting ℤ)) × (base : Config ℤ) × (system.parse_args [] ≡ ok (ss, []))
    × FromEnv system whole base
    × Precedence ss base configured
    × (no_map ∷ no_credentials ∷ [] ≡ validate whole configured)
parse-Precedence_example =
    parse-Precedence system whole [] configured (no_map ∷ no_credentials ∷ []) parsed
