-- ===== src/Config/Parse/Flags.antt =====
-- The flags of internal/config/config.go, and the field that each sets.
use mesthastic_caltopo_bridg.Prelude.{◌≡◌, refl, Bool, Option, none, some, List, [], ◌∷◌}
use mesthastic_caltopo_bridg.Prelude.Int.{ℤ}
use mesthastic_caltopo_bridg.Go.Text.{Text}
use mesthastic_caltopo_bridg.Go.Time.{Duration}
use mesthastic_caltopo_bridg.Config.{Config}
use mesthastic_caltopo_bridg.Config.Parse.{
  Setting, serial_device_flag, serial_baud_flag, database_path_flag, http_listen_address_flag,
  debug_flag, list_devices_flag, version_flag, caltopo_enabled_flag, caltopo_endpoint_flag,
  caltopo_map_id_flag, caltopo_group_flag, caltopo_movement_flag, caltopo_heartbeat_flag, apply,
}

abbrev pub or_else : {A : Type 0} → Option A → A → A
or_else none a = a
or_else (some b) a = b

-- What the last setting of a flag gives.
abbrev pub last : {F A : Type 0} → (Setting F → Option A) → List (Setting F) → Option A
last get [] = none
last get (s ∷ ss) = elim (last get ss) [ some a ↦ some a | none ↦ get s ]

module _ {F : Type 0} where
  abbrev pub given_serial_device : Setting F → Option Text
  given_serial_device (serial_device_flag v) = some v
  given_serial_device _ = none

  abbrev pub given_serial_baud : Setting F → Option ℤ
  given_serial_baud (serial_baud_flag v) = some v
  given_serial_baud _ = none

  abbrev pub given_database_path : Setting F → Option Text
  given_database_path (database_path_flag v) = some v
  given_database_path _ = none

  abbrev pub given_http_listen_address : Setting F → Option Text
  given_http_listen_address (http_listen_address_flag v) = some v
  given_http_listen_address _ = none

  abbrev pub given_debug : Setting F → Option Bool
  given_debug (debug_flag v) = some v
  given_debug _ = none

  abbrev pub given_list_devices : Setting F → Option Bool
  given_list_devices (list_devices_flag v) = some v
  given_list_devices _ = none

  abbrev pub given_version : Setting F → Option Bool
  given_version (version_flag v) = some v
  given_version _ = none

  abbrev pub given_enabled : Setting F → Option Bool
  given_enabled (caltopo_enabled_flag v) = some v
  given_enabled _ = none

  abbrev pub given_endpoint : Setting F → Option Text
  given_endpoint (caltopo_endpoint_flag v) = some v
  given_endpoint _ = none

  abbrev pub given_map_id : Setting F → Option Text
  given_map_id (caltopo_map_id_flag v) = some v
  given_map_id _ = none

  abbrev pub given_group : Setting F → Option Text
  given_group (caltopo_group_flag v) = some v
  given_group _ = none

  abbrev pub given_movement : Setting F → Option F
  given_movement (caltopo_movement_flag v) = some v
  given_movement _ = none

  abbrev pub given_heartbeat : Setting F → Option Duration
  given_heartbeat (caltopo_heartbeat_flag v) = some v
  given_heartbeat _ = none

  pub serial_device-apply :
      (s : Setting F) (c : Config F)
      → (apply s c).serial_device ≡ or_else (given_serial_device s) c.serial_device
  unfolding apply
  serial_device-apply (serial_device_flag v) c = refl
  serial_device-apply _ c = refl

  pub serial_baud-apply :
      (s : Setting F) (c : Config F)
      → (apply s c).serial_baud ≡ or_else (given_serial_baud s) c.serial_baud
  unfolding apply
  serial_baud-apply (serial_baud_flag v) c = refl
  serial_baud-apply _ c = refl

  pub database_path-apply :
      (s : Setting F) (c : Config F)
      → (apply s c).database_path ≡ or_else (given_database_path s) c.database_path
  unfolding apply
  database_path-apply (database_path_flag v) c = refl
  database_path-apply _ c = refl

  pub http_listen_address-apply :
      (s : Setting F) (c : Config F)
      → (apply s c).http_listen_address
        ≡ or_else (given_http_listen_address s) c.http_listen_address
  unfolding apply
  http_listen_address-apply (http_listen_address_flag v) c = refl
  http_listen_address-apply _ c = refl

  pub debug-apply :
      (s : Setting F) (c : Config F) → (apply s c).debug ≡ or_else (given_debug s) c.debug
  unfolding apply
  debug-apply (debug_flag v) c = refl
  debug-apply _ c = refl

  pub list_devices-apply :
      (s : Setting F) (c : Config F)
      → (apply s c).list_devices ≡ or_else (given_list_devices s) c.list_devices
  unfolding apply
  list_devices-apply (list_devices_flag v) c = refl
  list_devices-apply _ c = refl

  pub version-apply :
      (s : Setting F) (c : Config F) → (apply s c).version ≡ or_else (given_version s) c.version
  unfolding apply
  version-apply (version_flag v) c = refl
  version-apply _ c = refl

  pub enabled-apply :
      (s : Setting F) (c : Config F)
      → (apply s c).caltopo.enabled ≡ or_else (given_enabled s) c.caltopo.enabled
  unfolding apply
  enabled-apply (caltopo_enabled_flag v) c = refl
  enabled-apply _ c = refl

  pub endpoint-apply :
      (s : Setting F) (c : Config F)
      → (apply s c).caltopo.endpoint ≡ or_else (given_endpoint s) c.caltopo.endpoint
  unfolding apply
  endpoint-apply (caltopo_endpoint_flag v) c = refl
  endpoint-apply _ c = refl

  pub map_id-apply :
      (s : Setting F) (c : Config F)
      → (apply s c).caltopo.map_id ≡ or_else (given_map_id s) c.caltopo.map_id
  unfolding apply
  map_id-apply (caltopo_map_id_flag v) c = refl
  map_id-apply _ c = refl

  pub group-apply :
      (s : Setting F) (c : Config F)
      → (apply s c).caltopo.group ≡ or_else (given_group s) c.caltopo.group
  unfolding apply
  group-apply (caltopo_group_flag v) c = refl
  group-apply _ c = refl

  pub movement-apply :
      (s : Setting F) (c : Config F)
      → (apply s c).caltopo.movement ≡ or_else (given_movement s) c.caltopo.movement
  unfolding apply
  movement-apply (caltopo_movement_flag v) c = refl
  movement-apply _ c = refl

  pub heartbeat-apply :
      (s : Setting F) (c : Config F)
      → (apply s c).caltopo.heartbeat ≡ or_else (given_heartbeat s) c.caltopo.heartbeat
  unfolding apply
  heartbeat-apply (caltopo_heartbeat_flag v) c = refl
  heartbeat-apply _ c = refl

  pub decode_position_app-apply :
      (s : Setting F) (c : Config F) → (apply s c).decode_position_app ≡ c.decode_position_app
  unfolding apply
  decode_position_app-apply (debug_flag v) c = refl
  decode_position_app-apply _ c = refl

  pub credential_id-apply :
      (s : Setting F) (c : Config F) → (apply s c).caltopo.credential_id ≡ c.caltopo.credential_id
  unfolding apply
  credential_id-apply (debug_flag v) c = refl
  credential_id-apply _ c = refl

  pub key-apply : (s : Setting F) (c : Config F) → (apply s c).caltopo.key ≡ c.caltopo.key
  unfolding apply
  key-apply (debug_flag v) c = refl
  key-apply _ c = refl

  pub account_id-apply :
      (s : Setting F) (c : Config F) → (apply s c).caltopo.account_id ≡ c.caltopo.account_id
  unfolding apply
  account_id-apply (debug_flag v) c = refl
  account_id-apply _ c = refl

  pub timeout-apply :
      (s : Setting F) (c : Config F) → (apply s c).caltopo.timeout ≡ c.caltopo.timeout
  unfolding apply
  timeout-apply (debug_flag v) c = refl
  timeout-apply _ c = refl
