-- ===== src/Config.antt =====
-- The configuration of internal/config/config.go, and the checks on it. `to_lower` is `strings.ToLower` on ASCII.
pub mod Checked
pub mod Parse
use mesthastic_caltopo_bridg.Prelude.{
  ℕ, Bool, true, false, ◌&&◌, ◌||◌, not, List, [], ◌∷◌, ◌++◌, length, ltb, ◌==◌, if◌then◌else◌,
}
use mesthastic_caltopo_bridg.Prelude.Int.{ℤ, pos, leb_ℤ}
use mesthastic_caltopo_bridg.Go.Float.{Float64}
use mesthastic_caltopo_bridg.Go.Text.{
  Text, text, text_eq, is_empty, trim_prefix, contains_byte, before_byte, to_lower,
}
use mesthastic_caltopo_bridg.Go.Time.{Duration}

pub record CalTopo (F : Type 0) : Type 0 where
  pub enabled : Bool
  pub endpoint : Text
  pub map_id : Text
  pub group : Text
  pub credential_id : Text
  pub key : Text
  pub account_id : Text
  pub timeout : Duration
  pub movement : F
  pub heartbeat : Duration

pub record Config (F : Type 0) : Type 0 where
  pub serial_device : Text
  pub serial_baud : ℤ
  pub database_path : Text
  pub http_listen_address : Text
  pub debug : Bool
  pub decode_position_app : Bool
  pub list_devices : Bool
  pub version : Bool
  pub caltopo : CalTopo F

-- The errors, in the order in which they are joined.
pub data ConfigError : Type 0 where
  no_serial_device bad_baud no_database no_listen_address no_map map_length : ConfigError
  bad_group no_credentials bad_timeout bad_movement bad_heartbeat : ConfigError

unfoldable pub host_of : Text → Text
unfolding trim_prefix before_byte to_lower
host_of endpoint = before_byte 0x3a (
    before_byte 0x2f
      (trim_prefix (text "http://") (trim_prefix (text "https://") (to_lower endpoint))))

unfoldable pub is_hosted : Text → Bool
unfolding host_of text_eq
is_hosted endpoint =
    let host = host_of endpoint in
    text_eq host (text "caltopo.com")
    || (text_eq host (text "sartopo.com") || text_eq host (text "testing.caltopo.com"))

abbrev pub not_positive : ℤ → Bool
not_positive n = leb_ℤ n (pos 0)

-- `if bad { errs = append(errs, e) }`
abbrev pub report : Bool → ConfigError → List ConfigError
report bad e = if bad then e ∷ [] else []

module _ {F : Type 0} (float : Float64 F) where
  unfoldable pub validate_caltopo : CalTopo F → List ConfigError
  unfolding is_hosted contains_byte
  validate_caltopo c =
      (if is_empty c.map_id
        then no_map ∷ []
        else report (ltb (length c.map_id) 3 || ltb 7 (length c.map_id)) map_length)
      ++ (report (is_empty c.group || contains_byte 0x2d c.group) bad_group
          ++ (report (is_hosted c.endpoint && (is_empty c.credential_id || is_empty c.key))
                no_credentials
              ++ (report (not_positive c.timeout) bad_timeout
                  ++ (report
                        (float.le c.movement (float.of_int (pos 0))
                          || (float.is_nan c.movement || float.is_inf c.movement))
                        bad_movement
                      ++ report (not_positive c.heartbeat) bad_heartbeat))))

  unfoldable pub validate : Config F → List ConfigError
  unfolding validate_caltopo
  validate c =
      if c.list_devices || c.version
      then []
      else report (is_empty c.serial_device) no_serial_device
        ++ (report (not_positive c.serial_baud) bad_baud
            ++ (report (is_empty c.database_path) no_database
                ++ (report (is_empty c.http_listen_address) no_listen_address
                    ++ (if c.caltopo.enabled then validate_caltopo c.caltopo else []))))
