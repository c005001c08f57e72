-- ===== src/Bridge.antt =====
-- The command of cmd/bridge/main.go: `run` and `printDevices`. What it does is the list of its calls
-- with an effect, in the order in which they are made, deferred calls included; what they give is a
-- parameter, and so is the configuration that `Parse` gave. The log is left out.
pub mod Shutdown
use mesthastic_caltopo_bridg.Prelude.{
  Bool, true, false, Option, none, some, List, [], ◌∷◌, ◌++◌, if◌then◌else◌,
}
use mesthastic_caltopo_bridg.Prelude.Int.{ℤ}
use mesthastic_caltopo_bridg.Go.Text.{Text, text, text_lt}
use mesthastic_caltopo_bridg.Store.Tables.{Result, ok, err}
use mesthastic_caltopo_bridg.Store.Sql.{order_by}
use mesthastic_caltopo_bridg.Config.{CalTopo, Config, ConfigError}
use mesthastic_caltopo_bridg.Config.Parse.{ParseError}

-- A call, and the start of a goroutine.
pub data Action : Type 0 where
  print_version : Action
  print_line : Text → Action
  open_database close_database : Text → Action
  new_adapter close_adapter : Action
  start_worker : Action
  start_source : Text → ℤ → Action
  start_server : Text → Action
  -- with the error, if `Shutdown` gave one
  shut_down_server : Option Text → Action
  stop_signals wait_for_goroutines : Action

-- What the calls give: an error's text or, where it says so, a value. `stopped` is the first that the
-- source or the server sends.
pub record System (F : Type 0) : Type 0 where
  pub list_devices : Result Text (List Text)
  pub stat : Text → Option Text
  pub open_store : Text → Option Text
  pub new_client : CalTopo F → Option Text
  pub stopped : Option Text
  pub shutdown : Option Text

pub data BridgeError : Type 0 where
  parse_error : ParseError → BridgeError
  config_errors : List ConfigError → BridgeError
  listing_error device_error open_error adapter_error : Text → BridgeError
  no_devices : BridgeError
  runtime_errors : Option Text → Option Text → BridgeError

abbrev pub print_lines : List Text → List Action
print_lines [] = []
print_lines (d ∷ ds) = print_line d ∷ print_lines ds

-- `errors.Join` of two errors.
abbrev pub join_errors : Option Text → Option Text → Option BridgeError
join_errors none none = none
join_errors (some e) o = some (runtime_errors (some e) o)
join_errors none (some e) = some (runtime_errors none (some e))

module _ {F : Type 0} (system : System F) where
  unfoldable pub print_devices : List Action × Option BridgeError
  unfolding order_by
  print_devices = elim system.list_devices [
    | err e ↦ ([], some (listing_error e))
    | ok devices ↦ elim (order_by text_lt devices) [
      | [] ↦ ([], some no_devices)
      | d ∷ ds ↦ (print_lines (d ∷ ds), none)
    ]
  ]

  -- From the start of the source to the end, with the deferred `Close` of the database.
  unfoldable pub serve : Config F → List Action × Option BridgeError
  serve c = (
    start_source c.serial_device c.serial_baud
        ∷ start_server c.http_listen_address
        ∷ stop_signals
        ∷ shut_down_server system.shutdown
        ∷ wait_for_goroutines
        ∷ [],
    join_errors system.stopped system.shutdown,
  )

  unfoldable pub with_database : Config F → List Action × Option BridgeError
  unfolding serve
  with_database c =
      if c.caltopo.enabled
      then elim (system.new_client c.caltopo) [
        | some e ↦ ([], some (adapter_error e))
        | none ↦
            let (actions, e) = serve c in
            (new_adapter ∷ start_worker ∷ (actions ++ close_adapter ∷ []), e)
      ]
      else serve c

  unfoldable pub start : Config F → List Action × Option BridgeError
  unfolding with_database
  start c = elim (system.stat c.serial_device) [
    | some e ↦ ([], some (device_error e))
    | none ↦ elim (system.open_store c.database_path) [
      | some e ↦ (stop_signals ∷ [], some (open_error e))
      | none ↦
          let (actions, e) = with_database c in
          (
            open_database c.database_path
                ∷ (actions ++ close_database c.database_path ∷ stop_signals ∷ []),
            e,
          )
    ]
  ]

  unfoldable pub run :
      Result ParseError (Config F × List ConfigError) → List Action × Option BridgeError
  unfolding print_devices start
  run (err e) = ([], some (parse_error e))
  run (ok (c, e ∷ es)) = ([], some (config_errors (e ∷ es)))
  run (ok (c, [])) =
      if c.version
      then (print_version ∷ [], none)
      else if c.list_devices
      then print_devices
      else start c
