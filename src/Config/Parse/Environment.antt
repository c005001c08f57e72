-- ===== src/Config/Parse/Environment.antt =====
-- The environment of internal/config/config.go, and the defaults.
use mesthastic_caltopo_bridg.Prelude.{
  ◌*◌, ◌≡◌, refl, subst, ◌⊎◌, inl, inr, true, false, Option, none, some, [],
}
use mesthastic_caltopo_bridg.Prelude.Int.{pos}
use mesthastic_caltopo_bridg.Go.Float.{Float64}
use mesthastic_caltopo_bridg.Go.Text.{Text, text}
use mesthastic_caltopo_bridg.Go.Time.{second, minute}
use mesthastic_caltopo_bridg.Store.Tables.{Result, ok, err}
use mesthastic_caltopo_bridg.Config.{Config}
use mesthastic_caltopo_bridg.Config.Parse.{
  System, ParseError, not_integer, not_number, not_boolean, not_duration, ◌>>=◌, env_text,
  env_value, from_env,
}

module _ {F : Type 0} where
  module _ (system : System F) where
    -- The value of a variable: what its text reads as, or the default if it is not set.
    abbrev pub ReadsAs : {A : Type 0} → (Text → Option A) → Text → A → A → Type 0
    ReadsAs read key fallback a =
        ((system.lookup_env key ≡ none) × (a ≡ fallback))
        ⊎ ((v : Text) × (system.lookup_env key ≡ some v) × (read v ≡ some a))

    env_value-ReadsAs :
        {A : Type 0} (read : Text → Option A) (wrong : Text → ParseError) (key : Text)
        (fallback a : A)
        → env_value system read wrong key fallback ≡ ok a
        → ReadsAs read key fallback a
    unfolding env_value
    env_value-ReadsAs {A} read wrong key fallback a e = by_text (system.lookup_env key) refl e
      where
        by_value :
            (v : Text) (o : Option A)
            → system.lookup_env key ≡ some v
            → read v ≡ o
            → (let r : Result ParseError A = elim o [ none ↦ err (wrong key) | some a ↦ ok a ] in r)
              ≡ ok a
            → ReadsAs read key fallback a
        by_value v none l r e = cc
        by_value v (some b) l r e = inr (v, l, cc (r, e))

        by_text :
            (o : Option Text)
            → system.lookup_env key ≡ o
            → (let r : Result ParseError A = elim o [
              | none ↦ ok fallback
              | some v ↦ elim (read v) [ none ↦ err (wrong key) | some a ↦ ok a ]
            ] in
                r)
              ≡ ok a
            → ReadsAs read key fallback a
        by_text none l e = inl (l, cc e)
        by_text (some v) l e = by_value v (read v) l refl e

    abbrev pub TextAs : Text → Text → Text → Type 0
    TextAs = ReadsAs some

    env_text-ReadsAs : (key fallback : Text) → TextAs key fallback (env_text system key fallback)
    unfolding env_text
    env_text-ReadsAs key fallback = by_text (system.lookup_env key) refl
      where
        by_text :
            (o : Option Text)
            → system.lookup_env key ≡ o
            → TextAs key fallback (elim o [ none ↦ fallback | some v ↦ v ])
        by_text none l = inl (l, refl)
        by_text (some v) l = inr (v, l, refl)

    -- The configuration before the flags.
    pub record FromEnv (float : Float64 F) (c : Config F) : Type 0 where
      pub serial_device : TextAs (text "MESHTASTIC_SERIAL_DEVICE") [] c.serial_device
      pub serial_baud :
          ReadsAs system.atoi (text "MESHTASTIC_SERIAL_BAUD") (pos 115200) c.serial_baud
      pub database_path : TextAs (text "BRIDGE_DATABASE_PATH") (text "bridge.db") c.database_path
      pub http_listen_address :
          TextAs (text "HTTP_LISTEN_ADDRESS") (text "127.0.0.1:8080") c.http_listen_address
      pub debug : ReadsAs system.parse_bool (text "BRIDGE_DEBUG") false c.debug
      pub decode_position_app :
          ReadsAs system.parse_bool (text "DECODE_POSITION_APP") true c.decode_position_app
      pub list_devices : c.list_devices ≡ false
      pub version : c.version ≡ false
      pub enabled : ReadsAs system.parse_bool (text "CALTOPO_ENABLED") false c.caltopo.enabled
      pub endpoint : TextAs (text "CALTOPO_ENDPOINT") (text "caltopo.com") c.caltopo.endpoint
      pub map_id : TextAs (text "CALTOPO_MAP_ID") [] c.caltopo.map_id
      pub group : TextAs (text "CALTOPO_GROUP") (text "mesh") c.caltopo.group
      pub credential_id : TextAs (text "CALTOPO_CREDENTIAL_ID") [] c.caltopo.credential_id
      pub key : TextAs (text "CALTOPO_KEY") [] c.caltopo.key
      pub account_id : TextAs (text "CALTOPO_ACCOUNT_ID") [] c.caltopo.account_id
      pub timeout :
          ReadsAs system.parse_duration
            (text "CALTOPO_TIMEOUT")
            (pos (10 * second))
            c.caltopo.timeout
      pub movement :
          ReadsAs system.parse_float
            (text "CALTOPO_MOVEMENT_METERS")
            (float.of_int (pos 25))
            c.caltopo.movement
      pub heartbeat :
          ReadsAs system.parse_duration
            (text "CALTOPO_HEARTBEAT")
            (pos (5 * minute))
            c.caltopo.heartbeat

    -- A variable that was read, and what came of its value.
    pub >>=-read :
        {A B : Type 0} (read : Result ParseError A) (rest : A → Result ParseError B) {made : B}
        → (read >>= rest) ≡ ok made
        → (v : A) × (rest v ≡ ok made) × (read ≡ ok v)
    >>=-read (err wrong) rest made = cc
    >>=-read (ok v) rest made = (v, made, refl)

    module _ (float : Float64 F) where
      pub from_env-FromEnv : (c : Config F) → from_env system float ≡ ok c → FromEnv float c
      unfolding from_env
      from_env-FromEnv c e =
          let (serial_baud, f0, e0) =
            >>=-read
              (env_value system system.atoi not_integer (text "MESHTASTIC_SERIAL_BAUD")
                (pos 115200))
              _ e in
          let (enabled, f1, e1) =
            >>=-read (env_value system system.parse_bool not_boolean (text "CALTOPO_ENABLED") false)
              _ f0 in
          let (timeout, f2, e2) =
            >>=-read
              (env_value system system.parse_duration not_duration (text "CALTOPO_TIMEOUT")
                (pos (10 * second)))
              _ f1 in
          let (movement, f3, e3) =
            >>=-read
              (env_value system system.parse_float not_number (text "CALTOPO_MOVEMENT_METERS")
                (float.of_int (pos 25)))
              _ f2 in
          let (heartbeat, f4, e4) =
            >>=-read
              (env_value system system.parse_duration not_duration (text "CALTOPO_HEARTBEAT")
                (pos (5 * minute)))
              _ f3 in
          let (debug, f5, e5) =
            >>=-read (env_value system system.parse_bool not_boolean (text "BRIDGE_DEBUG") false) _
              f4 in
          let (decode_position_app, f6, e6) =
            >>=-read
              (env_value system system.parse_bool not_boolean (text "DECODE_POSITION_APP") true) _
              f5 in
          subst (FromEnv float) (cc f6) (record {
            serial_device = env_text-ReadsAs (text "MESHTASTIC_SERIAL_DEVICE") [];
            database_path = env_text-ReadsAs (text "BRIDGE_DATABASE_PATH") (text "bridge.db");
            http_listen_address =
                env_text-ReadsAs (text "HTTP_LISTEN_ADDRESS") (text "127.0.0.1:8080");
            endpoint = env_text-ReadsAs (text "CALTOPO_ENDPOINT") (text "caltopo.com");
            map_id = env_text-ReadsAs (text "CALTOPO_MAP_ID") [];
            group = env_text-ReadsAs (text "CALTOPO_GROUP") (text "mesh");
            credential_id = env_text-ReadsAs (text "CALTOPO_CREDENTIAL_ID") [];
            key = env_text-ReadsAs (text "CALTOPO_KEY") [];
            account_id = env_text-ReadsAs (text "CALTOPO_ACCOUNT_ID") [];
            serial_baud =
                env_value-ReadsAs system.atoi not_integer (text "MESHTASTIC_SERIAL_BAUD")
                  (pos 115200) serial_baud e0;
            enabled =
                env_value-ReadsAs system.parse_bool not_boolean (text "CALTOPO_ENABLED") false
                  enabled e1;
            timeout =
                env_value-ReadsAs system.parse_duration not_duration (text "CALTOPO_TIMEOUT")
                  (pos (10 * second)) timeout e2;
            movement =
                env_value-ReadsAs system.parse_float not_number (text "CALTOPO_MOVEMENT_METERS")
                  (float.of_int (pos 25)) movement e3;
            heartbeat =
                env_value-ReadsAs system.parse_duration not_duration (text "CALTOPO_HEARTBEAT")
                  (pos (5 * minute)) heartbeat e4;
            debug =
                env_value-ReadsAs system.parse_bool not_boolean (text "BRIDGE_DEBUG") false debug
                  e5;
            decode_position_app =
                env_value-ReadsAs system.parse_bool not_boolean (text "DECODE_POSITION_APP") true
                  decode_position_app e6;
            list_devices = refl;
            version = refl;
          })
