-- ===== src/Config/Checked.antt =====
-- The configurations that `Validate` of internal/config/config.go accepts.
use mesthastic_caltopo_bridg.Prelude.{
  ◌≤◌, ◌≡◌, refl, Bool, true, false, ◌&&◌, ◌||◌, List, [], ◌∷◌, ◌++◌, length, ltb, arith,
  if◌then◌else◌,
}
use mesthastic_caltopo_bridg.Prelude.Int.{pos}
use mesthastic_caltopo_bridg.Go.Float.{Float64}
use mesthastic_caltopo_bridg.Go.Text.{Text, is_empty, contains_byte}
use mesthastic_caltopo_bridg.Config.{
  CalTopo, Config, ConfigError, no_serial_device, bad_baud, no_database, no_listen_address, no_map,
  map_length, bad_group, no_credentials, bad_timeout, bad_movement, bad_heartbeat, is_hosted,
  not_positive, report, validate_caltopo, validate,
}

report-append :
    (b : Bool) (e : ConfigError) (xs : List ConfigError)
    → report b e ++ xs ≡ []
    → (b ≡ false) × (xs ≡ [])
report-append true e xs h = absurd (ground arith)
report-append false e xs h = (refl, h)

report_none : (b : Bool) (e : ConfigError) → report b e ≡ [] → b ≡ false
report_none true e h = absurd (ground arith)
report_none false e h = refl

module _ {F : Type 0} (float : Float64 F) where
  -- What the worker and the client can rely on.
  pub record IsUsable (c : CalTopo F) : Type 0 where
    pub map_short : length c.map_id ≤ 7
    pub map_long : 3 ≤ length c.map_id
    pub group_named : is_empty c.group ≡ false
    pub group_plain : contains_byte 0x2d c.group ≡ false
    pub credentials :
        is_hosted c.endpoint ≡ true → (is_empty c.credential_id ≡ false) × (is_empty c.key ≡ false)
    pub timeout : not_positive c.timeout ≡ false
    pub movement :
        (float.le c.movement (float.of_int (pos 0)) ≡ false)
        × (float.is_nan c.movement ≡ false)
        × (float.is_inf c.movement ≡ false)
    pub heartbeat : not_positive c.heartbeat ≡ false

  map_checked :
      (map_id : Text) (xs : List ConfigError)
      → (if is_empty map_id
            then no_map ∷ []
            else report (ltb (length map_id) 3 || ltb 7 (length map_id)) map_length)
          ++ xs
        ≡ []
      → (length map_id ≤ 7) × (3 ≤ length map_id) × (xs ≡ [])
  map_checked [] xs h = absurd (ground arith)
  map_checked (b ∷ bs) xs h =
      let r = report-append (ltb (length (b ∷ bs)) 3 || ltb 7 (length (b ∷ bs))) map_length xs h in
      (ground (arith, r.0), ground (arith, r.0), r.1)

  validate_caltopo-IsUsable : (c : CalTopo F) → validate_caltopo float c ≡ [] → IsUsable c
  unfolding validate_caltopo
  validate_caltopo-IsUsable c h =
      let m = map_checked c.map_id _ h in
      let g = report-append (is_empty c.group || contains_byte 0x2d c.group) bad_group _ m.2 in
      let k =
        report-append (is_hosted c.endpoint && (is_empty c.credential_id || is_empty c.key))
          no_credentials _ g.1 in
      let t = report-append (not_positive c.timeout) bad_timeout _ k.1 in
      let v =
        report-append
          (float.le c.movement (float.of_int (pos 0))
            || (float.is_nan c.movement || float.is_inf c.movement))
          bad_movement _ t.1 in
      record {
        map_short = m.0;
        map_long = m.1;
        group_named = ground (arith, g.0);
        group_plain = ground (arith, g.0);
        credentials = λ hosted. (ground (arith, k.0, hosted), ground (arith, k.0, hosted));
        timeout = t.0;
        movement = (ground (arith, v.0), ground (arith, v.0), ground (arith, v.0));
        heartbeat = report_none (not_positive c.heartbeat) bad_heartbeat v.1;
      }

  -- A configuration that `Validate` accepts and that is to run the bridge has a serial device, a
  -- positive baud rate, a database and a listen address; and if CalTopo is enabled, a map id of 3 to 7
  -- bytes, a group with no `-`, credentials if the endpoint is hosted, a positive timeout and
  -- heartbeat, and a movement that is positive and finite.
  pub validate-IsUsable :
      (c : Config F)
      → c.list_devices ≡ false
      → c.version ≡ false
      → validate float c ≡ []
      → (is_empty c.serial_device ≡ false)
        × (not_positive c.serial_baud ≡ false)
        × (is_empty c.database_path ≡ false)
        × (is_empty c.http_listen_address ≡ false)
        × (c.caltopo.enabled ≡ true → IsUsable c.caltopo)
  unfolding validate
  validate-IsUsable c l v h =
      let s = report-append (is_empty c.serial_device) no_serial_device _ (rw (l, v) at h) in
      let b = report-append (not_positive c.serial_baud) bad_baud _ s.1 in
      let d = report-append (is_empty c.database_path) no_database _ b.1 in
      let a = report-append (is_empty c.http_listen_address) no_listen_address _ d.1 in
      (s.0, b.0, d.0, a.0, λ on. validate_caltopo-IsUsable c.caltopo (rw on at a.1))
