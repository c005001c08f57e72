-- ===== src/Config/Parse.antt =====
-- `Parse` of internal/config/config.go: the environment, then the flags, then the checks.
pub mod Flags
pub mod Environment
pub mod Precedence
use mesthastic_caltopo_bridg.Prelude.{ℕ, ◌*◌, Bool, true, false, Option, none, some, List, [], ◌∷◌}
use mesthastic_caltopo_bridg.Prelude.Int.{ℤ, pos}
use mesthastic_caltopo_bridg.Go.Float.{Float64}
use mesthastic_caltopo_bridg.Go.Text.{Text, text}
use mesthastic_caltopo_bridg.Go.Time.{Duration, second, minute}
use mesthastic_caltopo_bridg.Store.Tables.{Result, ok, err}
use mesthastic_caltopo_bridg.Config.{CalTopo, Config, ConfigError, validate}

-- The flags of the set, each with the value that it is given.
pub data Setting (F : Type 0) : Type 0 where
  serial_device_flag : Text → Setting F
  serial_baud_flag : ℤ → Setting F
  database_path_flag : Text → Setting F
  http_listen_address_flag : Text → Setting F
  debug_flag : Bool → Setting F
  list_devices_flag : Bool → Setting F
  version_flag : Bool → Setting F
  caltopo_enabled_flag : Bool → Setting F
  caltopo_endpoint_flag : Text → Setting F
  caltopo_map_id_flag : Text → Setting F
  caltopo_group_flag : Text → Setting F
  caltopo_movement_flag : F → Setting F
  caltopo_heartbeat_flag : Duration → Setting F

-- What the program takes from `os`, `strconv`, `time` and `flag`. `parse_args` gives the settings in
-- the order of the arguments, and the arguments that are left.
pub record System (F : Type 0) : Type 0 where
  pub lookup_env : Text → Option Text
  pub atoi : Text → Option ℤ
  pub parse_float : Text → Option F
  pub parse_bool : Text → Option Bool
  pub parse_duration : Text → Option Duration
  pub parse_args : List Text → Result Text (List (Setting F) × List Text)

-- The errors: of a variable, by its name; of the flags; and of arguments that are left.
pub data ParseError : Type 0 where
  not_integer not_number not_boolean not_duration : Text → ParseError
  bad_flags : Text → ParseError
  unexpected_arguments : List Text → ParseError

infixl 5 ◌>>=◌
abbrev pub ◌>>=◌ :
    {A B : Type 0} → Result ParseError A → (A → Result ParseError B) → Result ParseError B
err e >>= rest = err e
ok v >>= rest = rest v

module _ {F : Type 0} where
  unfoldable pub apply : Setting F → Config F → Config F
  apply (serial_device_flag v) c = record c { serial_device = v }
  apply (serial_baud_flag v) c = record c { serial_baud = v }
  apply (database_path_flag v) c = record c { database_path = v }
  apply (http_listen_address_flag v) c = record c { http_listen_address = v }
  apply (debug_flag v) c = record c { debug = v }
  apply (list_devices_flag v) c = record c { list_devices = v }
  apply (version_flag v) c = record c { version = v }
  apply (caltopo_enabled_flag v) c = record c { caltopo = record c.caltopo { enabled = v } }
  apply (caltopo_endpoint_flag v) c = record c { caltopo = record c.caltopo { endpoint = v } }
  apply (caltopo_map_id_flag v) c = record c { caltopo = record c.caltopo { map_id = v } }
  apply (caltopo_group_flag v) c = record c { caltopo = record c.caltopo { group = v } }
  apply (caltopo_movement_flag v) c = record c { caltopo = record c.caltopo { movement = v } }
  apply (caltopo_heartbeat_flag v) c = record c { caltopo = record c.caltopo { heartbeat = v } }

  unfoldable pub apply_all : List (Setting F) → Config F → Config F
  unfolding apply
  apply_all [] c = c
  apply_all (s ∷ ss) c = apply_all ss (apply s c)

  module _ (system : System F) where
    open system use {lookup_env, atoi, parse_float, parse_bool, parse_duration, parse_args}

    unfoldable pub env_text : Text → Text → Text
    env_text key fallback = elim (lookup_env key) [ none ↦ fallback | some v ↦ v ]

    -- `envInt`, `envFloat`, `envBool` and `envDuration`, which differ in the function that reads the
    -- value and in the error.
    unfoldable pub env_value :
        {A : Type 0} → (Text → Option A) → (Text → ParseError) → Text → A → Result ParseError A
    env_value read wrong key fallback = elim (lookup_env key) [
      | none ↦ ok fallback
      | some v ↦ elim (read v) [ none ↦ err (wrong key) | some a ↦ ok a ]
    ]

    module _ (float : Float64 F) where
      unfoldable pub from_env : Result ParseError (Config F)
      from_env = do
        serial_baud ← env_value atoi not_integer (text "MESHTASTIC_SERIAL_BAUD") (pos 115200)
        enabled ← env_value parse_bool not_boolean (text "CALTOPO_ENABLED") false
        timeout ← env_value parse_duration not_duration (text "CALTOPO_TIMEOUT") (pos (10 * second))
        movement ←
            env_value parse_float not_number (text "CALTOPO_MOVEMENT_METERS")
              (float.of_int (pos 25))
        heartbeat ←
            env_value parse_duration not_duration (text "CALTOPO_HEARTBEAT") (pos (5 * minute))
        debug ← env_value parse_bool not_boolean (text "BRIDGE_DEBUG") false
        decode_position_app ← env_value parse_bool not_boolean (text "DECODE_POSITION_APP") true
        ok (record {
          serial_device = env_text (text "MESHTASTIC_SERIAL_DEVICE") [];
          serial_baud = serial_baud;
          database_path = env_text (text "BRIDGE_DATABASE_PATH") (text "bridge.db");
          http_listen_address = env_text (text "HTTP_LISTEN_ADDRESS") (text "127.0.0.1:8080");
          debug = debug;
          decode_position_app = decode_position_app;
          list_devices = false;
          version = false;
          caltopo = record {
            enabled = enabled;
            endpoint = env_text (text "CALTOPO_ENDPOINT") (text "caltopo.com");
            map_id = env_text (text "CALTOPO_MAP_ID") [];
            group = env_text (text "CALTOPO_GROUP") (text "mesh");
            credential_id = env_text (text "CALTOPO_CREDENTIAL_ID") [];
            key = env_text (text "CALTOPO_KEY") [];
            account_id = env_text (text "CALTOPO_ACCOUNT_ID") [];
            timeout = timeout;
            movement = movement;
            heartbeat = heartbeat;
          };
        })

      -- The configuration, with the errors that `Validate` joins.
      unfoldable pub parse : List Text → Result ParseError (Config F × List ConfigError)
      unfolding apply_all validate
      parse args = from_env >>= λ c. elim (parse_args args) [
        | err e ↦ err (bad_flags e)
        | ok (settings, []) ↦ let c' : Config F = apply_all settings c in ok (c', validate float c')
        | ok (settings, rest ∷ more) ↦ err (unexpected_arguments (rest ∷ more))
      ]
