-- ===== src/Bridge/Shutdown.antt =====
-- What the command of cmd/bridge/main.go opens and starts, it closes and waits for, in order.
use mesthastic_caltopo_bridg.Prelude.{
  ◌≡◌, refl, Bool, true, false, ◌&&◌, ◌||◌, not, ◌⊎◌, Option, none, some, List, [], ◌∷◌, Bool-cases,
  inl, inr, arith, if◌then◌else◌,
}
use mesthastic_caltopo_bridg.Go.Text.{Text, text_lt}
use mesthastic_caltopo_bridg.Store.Tables.{Result, ok, err}
use mesthastic_caltopo_bridg.Store.Sql.{order_by}
use mesthastic_caltopo_bridg.Config.{Config, ConfigError}
use mesthastic_caltopo_bridg.Config.Parse.{ParseError}
use mesthastic_caltopo_bridg.Bridge.{
  Action, print_version, print_line, open_database, close_database, new_adapter, close_adapter,
  start_worker, start_source, start_server, stop_signals, shut_down_server, wait_for_goroutines,
  System, BridgeError, listing_error, no_devices, print_lines, print_devices, serve, with_database,
  start, run,
}

-- What is open and what runs: `running` is for the goroutines that `run` starts, and `handling` for
-- the handlers of the server, which no one waits for if `Shutdown` fails. `exposed`: the database was
-- closed while a handler might use it. And whether the goroutines were told to stop, by the signals'
-- context and by the server.
pub record Resources : Type 0 where
  pub database : Bool
  pub adapter : Bool
  pub running : Bool
  pub handling : Bool
  pub exposed : Bool
  pub cancelled : Bool
  pub shut_down : Bool

abbrev pub nothing : Resources
nothing = record {
  database = false;
  adapter = false;
  running = false;
  handling = false;
  exposed = false;
  cancelled = false;
  shut_down = false;
}

-- The rules of use: nothing is opened twice, nothing runs or is opened on a closed database or, for
-- the worker, on a closed adapter; nothing is closed while a goroutine runs, nor the database under
-- the adapter; and no wait for goroutines that were not told to stop. `none` is a breach.
pub allow : Bool → Resources → Option Resources
allow b r = if b then some r else none

pub use_one : Action → Resources → Option Resources
use_one (open_database p) r = allow (not r.database) (record r { database = true })
use_one (close_database p) r =
    allow (r.database && (not r.adapter && not r.running))
      (record r { database = false; exposed = r.exposed || r.handling })
use_one new_adapter r = allow (r.database && not r.adapter) (record r { adapter = true })
use_one close_adapter r = allow (r.adapter && not r.running) (record r { adapter = false })
use_one start_worker r = allow (r.database && r.adapter) (record r { running = true })
use_one (start_source d b) r = allow r.database (record r { running = true })
use_one (start_server a) r = allow r.database (record r { running = true; handling = true })
use_one stop_signals r = some (record r { cancelled = true })
use_one (shut_down_server none) r = some (record r { shut_down = true; handling = false })
use_one (shut_down_server (some e)) r = some (record r { shut_down = true })
use_one wait_for_goroutines r = allow (r.cancelled && r.shut_down) (record r { running = false })
use_one (print_line t) r = some r
use_one print_version r = some r

pub use_all : List Action → Resources → Option Resources
use_all [] r = some r
use_all (a ∷ rest) r = elim (use_one a r) [ none ↦ none | some r' ↦ use_all rest r' ]

-- The rules are kept, and at the end nothing is open and no goroutine runs; and no handler might use
-- the closed database, or `Shutdown` failed.
abbrev pub IsClean : Option Text → List Action → Type 0
IsClean shutdown actions =
    (r : Resources) × (use_all actions nothing ≡ some r)
    × (r.database ≡ false)
    × (r.adapter ≡ false)
    × (r.running ≡ false)
    × ((r.exposed ≡ false) ⊎ ((e : Text) × (shutdown ≡ some e)))

print_lines-use : (ds : List Text) → use_all (print_lines ds) nothing ≡ some nothing
unfolding use_all use_one
print_lines-use [] = refl
print_lines-use (d ∷ ds) = print_lines-use ds

module _ {F : Type 0} (system : System F) where
  print_devices-IsClean : IsClean system.shutdown (print_devices system).0
  unfolding print_devices use_all
  print_devices-IsClean = by_list system.list_devices
    where
      by_devices :
          (ds : List Text)
          → IsClean system.shutdown
              (let r : List Action × Option BridgeError = elim ds [
                | [] ↦ ([], some no_devices)
                | d ∷ ds ↦ (print_lines (d ∷ ds), none)
              ] in
                r).0
      by_devices [] = (nothing, refl, refl, refl, refl, inl refl)
      by_devices (d ∷ ds) = (nothing, print_lines-use (d ∷ ds), refl, refl, refl, inl refl)

      by_list :
          (l : Result Text (List Text))
          → IsClean system.shutdown
              (let r : List Action × Option BridgeError = elim l [
                | err e ↦ ([], some (listing_error e))
                | ok devices ↦ elim (order_by text_lt devices) [
                  | [] ↦ ([], some no_devices)
                  | d ∷ ds ↦ (print_lines (d ∷ ds), none)
                ]
              ] in
                r).0
      by_list (err e) = (nothing, refl, refl, refl, refl, inl refl)
      by_list (ok devices) = by_devices (order_by text_lt devices)

  start-IsClean : (c : Config F) → IsClean system.shutdown (start system c).0
  unfolding start with_database serve use_all use_one allow
  start-IsClean c = by_stat (system.stat c.serial_device) refl
    where
      told : Resources
      told = record nothing { cancelled = true }

      ended : Bool → Resources
      ended e = record told { shut_down = true; handling = e; exposed = e }

      by_enabled :
          (b : Bool) (o x : Option Text)
          → system.stat c.serial_device ≡ none
          → system.open_store c.database_path ≡ none
          → c.caltopo.enabled ≡ b
          → system.new_client c.caltopo ≡ o
          → system.shutdown ≡ x
          → IsClean system.shutdown (start system c).0
      by_enabled false o none s d e n h = (ended false, ground arith, refl, refl, refl, inl refl)
      by_enabled false o (some y) s d e n h =
          (ended true, ground arith, refl, refl, refl, inr (y, h))
      by_enabled true none none s d e n h = (ended false, ground arith, refl, refl, refl, inl refl)
      by_enabled true none (some y) s d e n h =
          (ended true, ground arith, refl, refl, refl, inr (y, h))
      by_enabled true (some x) o s d e n h = (told, ground arith, refl, refl, refl, inl refl)

      by_open :
          (o : Option Text)
          → system.stat c.serial_device ≡ none
          → system.open_store c.database_path ≡ o
          → IsClean system.shutdown (start system c).0
      by_open (some x) s d = (told, ground arith, refl, refl, refl, inl refl)
      by_open none s d =
          by_enabled c.caltopo.enabled (system.new_client c.caltopo) system.shutdown s d refl refl
            refl

      by_stat :
          (o : Option Text)
          → system.stat c.serial_device ≡ o
          → IsClean system.shutdown (start system c).0
      by_stat (some x) s = (nothing, ground arith, refl, refl, refl, inl refl)
      by_stat none s = by_open (system.open_store c.database_path) s refl

  -- Whatever the configuration is and whatever the calls give, the command opens nothing twice, starts
  -- nothing on what is closed, closes nothing that one of its goroutines still uses and the adapter
  -- before the database, waits only for goroutines that were told to stop, and leaves nothing open and
  -- none of them running. The handlers of the server do not use the database once it is closed, unless
  -- `Shutdown` fails.
  pub run-IsClean :
      (parsed : Result ParseError (Config F × List ConfigError))
      → IsClean system.shutdown (run system parsed).0
  unfolding run use_all use_one
  run-IsClean (err e) = (nothing, refl, refl, refl, refl, inl refl)
  run-IsClean (ok (c, e ∷ es)) = (nothing, refl, refl, refl, refl, inl refl)
  run-IsClean (ok (c, [])) = elim (Bool-cases c.version) [
    | inl v ↦ rw v (nothing, refl, refl, refl, refl, inl refl)
    | inr v ↦ elim (Bool-cases c.list_devices) [
      | inl l ↦ rw (v, l) (print_devices-IsClean)
      | inr l ↦ rw (v, l) (start-IsClean c)
    ]
  ]
