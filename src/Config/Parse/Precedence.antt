-- ===== src/Config/Parse/Precedence.antt =====
-- Which value wins: a flag, the environment, or the default of internal/config/config.go.
use mesthastic_caltopo_bridg.Prelude.{◌≡◌, refl, ◌∙◌, subst, Option, List, [], ◌∷◌, arith}
use mesthastic_caltopo_bridg.Go.Float.{Float64}
use mesthastic_caltopo_bridg.Go.Text.{Text}
use mesthastic_caltopo_bridg.Store.Tables.{Result, ok, err}
use mesthastic_caltopo_bridg.Config.{Config, ConfigError, validate}
use mesthastic_caltopo_bridg.Config.Parse.{
  Setting, System, ParseError, bad_flags, unexpected_arguments, apply, apply_all, from_env, parse,
}
use mesthastic_caltopo_bridg.Config.Parse.Flags.{
  or_else, last, given_serial_device, given_serial_baud, given_database_path,
  given_http_listen_address, given_debug, given_list_devices, given_version, given_enabled,
  given_endpoint, given_map_id, given_group, given_movement, given_heartbeat, serial_device-apply,
  serial_baud-apply, database_path-apply, http_listen_address-apply, debug-apply,
  list_devices-apply, version-apply, enabled-apply, endpoint-apply, map_id-apply, group-apply,
  movement-apply, heartbeat-apply, decode_position_app-apply, credential_id-apply, key-apply,
  account_id-apply, timeout-apply,
}
use mesthastic_caltopo_bridg.Config.Parse.Environment.{FromEnv, from_env-FromEnv, >>=-read}

module _ {F : Type 0} where
  -- A field that a setting sets.
  apply_all-last :
      {A : Type 0} (field : Config F → A) (given : Setting F → Option A)
      → ((s : Setting F) (c : Config F) → field (apply s c) ≡ or_else (given s) (field c))
      → (ss : List (Setting F)) (c : Config F)
      → field (apply_all ss c) ≡ or_else (last given ss) (field c)
  unfolding apply_all
  apply_all-last field given set [] c = refl
  apply_all-last field given set (s ∷ ss) c =
      apply_all-last field given set ss (apply s c) ∙ ground (arith, set s c)

  -- A field that no setting sets.
  apply_all-kept :
      {A : Type 0} (field : Config F → A)
      → ((s : Setting F) (c : Config F) → field (apply s c) ≡ field c)
      → (ss : List (Setting F)) (c : Config F) → field (apply_all ss c) ≡ field c
  unfolding apply_all
  apply_all-kept field set [] c = refl
  apply_all-kept field set (s ∷ ss) c = apply_all-kept field set ss (apply s c) ∙ set s c

  -- The configuration `c` is `base` with the settings, of which the last of each flag counts.
  pub record Precedence (ss : List (Setting F)) (base c : Config F) : Type 0 where
    pub serial_device : c.serial_device ≡ or_else (last given_serial_device ss) base.serial_device
    pub serial_baud : c.serial_baud ≡ or_else (last given_serial_baud ss) base.serial_baud
    pub database_path : c.database_path ≡ or_else (last given_database_path ss) base.database_path
    pub http_listen_address :
        c.http_listen_address ≡ or_else (last given_http_listen_address ss) base.http_listen_address
    pub debug : c.debug ≡ or_else (last given_debug ss) base.debug
    pub list_devices : c.list_devices ≡ or_else (last given_list_devices ss) base.list_devices
    pub version : c.version ≡ or_else (last given_version ss) base.version
    pub enabled : c.caltopo.enabled ≡ or_else (last given_enabled ss) base.caltopo.enabled
    pub endpoint : c.caltopo.endpoint ≡ or_else (last given_endpoint ss) base.caltopo.endpoint
    pub map_id : c.caltopo.map_id ≡ or_else (last given_map_id ss) base.caltopo.map_id
    pub group : c.caltopo.group ≡ or_else (last given_group ss) base.caltopo.group
    pub movement : c.caltopo.movement ≡ or_else (last given_movement ss) base.caltopo.movement
    pub heartbeat : c.caltopo.heartbeat ≡ or_else (last given_heartbeat ss) base.caltopo.heartbeat
    pub decode_position_app : c.decode_position_app ≡ base.decode_position_app
    pub credential_id : c.caltopo.credential_id ≡ base.caltopo.credential_id
    pub key : c.caltopo.key ≡ base.caltopo.key
    pub account_id : c.caltopo.account_id ≡ base.caltopo.account_id
    pub timeout : c.caltopo.timeout ≡ base.caltopo.timeout

  apply_all-Precedence :
      (ss : List (Setting F)) (base : Config F) → Precedence ss base (apply_all ss base)
  apply_all-Precedence ss base = record {
    serial_device =
        apply_all-last (λ c. c.serial_device) given_serial_device serial_device-apply ss base;
    serial_baud = apply_all-last (λ c. c.serial_baud) given_serial_baud serial_baud-apply ss base;
    database_path =
        apply_all-last (λ c. c.database_path) given_database_path database_path-apply ss base;
    http_listen_address =
        apply_all-last (λ c. c.http_listen_address) given_http_listen_address
          http_listen_address-apply ss base;
    debug = apply_all-last (λ c. c.debug) given_debug debug-apply ss base;
    list_devices =
        apply_all-last (λ c. c.list_devices) given_list_devices list_devices-apply ss base;
    version = apply_all-last (λ c. c.version) given_version version-apply ss base;
    enabled = apply_all-last (λ c. c.caltopo.enabled) given_enabled enabled-apply ss base;
    endpoint = apply_all-last (λ c. c.caltopo.endpoint) given_endpoint endpoint-apply ss base;
    map_id = apply_all-last (λ c. c.caltopo.map_id) given_map_id map_id-apply ss base;
    group = apply_all-last (λ c. c.caltopo.group) given_group group-apply ss base;
    movement = apply_all-last (λ c. c.caltopo.movement) given_movement movement-apply ss base;
    heartbeat = apply_all-last (λ c. c.caltopo.heartbeat) given_heartbeat heartbeat-apply ss base;
    decode_position_app =
        apply_all-kept (λ c. c.decode_position_app) decode_position_app-apply ss base;
    credential_id = apply_all-kept (λ c. c.caltopo.credential_id) credential_id-apply ss base;
    key = apply_all-kept (λ c. c.caltopo.key) key-apply ss base;
    account_id = apply_all-kept (λ c. c.caltopo.account_id) account_id-apply ss base;
    timeout = apply_all-kept (λ c. c.caltopo.timeout) timeout-apply ss base;
  }

  module _ (system : System F) (float : Float64 F) where
    -- If `Parse` gives a configuration, there were no arguments but flags; each field that has a flag
    -- has the value of its last setting or, if there is none, the value of its variable or, if that is
    -- not set, its default; the credentials, the account, the timeout and the decoding of positions
    -- come from the environment alone; and the errors are those that `Validate` joins.
    pub parse-Precedence :
        (args : List Text) (c : Config F) (errs : List ConfigError)
        → parse system float args ≡ ok (c, errs)
        → (ss : List (Setting F)) × (base : Config F) × (system.parse_args args ≡ ok (ss, []))
          × FromEnv system float base
          × Precedence ss base c
          × (errs ≡ validate float c)
    unfolding parse
    parse-Precedence args c errs e =
        let (base, f, read) = >>=-read system (from_env system float) _ e in
        by_flags base read (system.parse_args args) refl f
      where
        by_flags :
            (base : Config F)
            → from_env system float ≡ ok base
            → (o : Result Text (List (Setting F) × List Text)) → system.parse_args args ≡ o
            → (let r : Result ParseError (Config F × List ConfigError) = elim o [
              | err e ↦ err (bad_flags e)
              | ok (settings, []) ↦
                  ok (apply_all settings base, validate float (apply_all settings base))
              | ok (settings, rest ∷ more) ↦ err (unexpected_arguments (rest ∷ more))
            ] in
                r)
              ≡ ok (c, errs)
            → (ss : List (Setting F)) × (base : Config F) × (system.parse_args args ≡ ok (ss, []))
              × FromEnv system float base
              × Precedence ss base c
              × (errs ≡ validate float c)
        by_flags base read (err x) p f = cc
        by_flags base read (ok (ss, rest ∷ more)) p f = cc
        by_flags base read (ok (ss, [])) p f =
            let same : apply_all ss base ≡ c = cc f in
            (
              ss,
              base,
              p,
              from_env-FromEnv system float base read,
              subst (Precedence ss base) same (apply_all-Precedence ss base),
              cc (f, same),
            )
