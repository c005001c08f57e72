-- ===== src/Scenarios/Ingesting.antt =====
-- The theorems on the ingest service, on a message with a legacy TAK packet.
use mesthastic_caltopo_bridg.Prelude.{ℕ, true, false, none, some, [], ◌∷◌, refl}
use mesthastic_caltopo_bridg.Prelude.Int.{ℤ}
use mesthastic_caltopo_bridg.Go.Text.{Text, text}
use mesthastic_caltopo_bridg.Go.Time.{unix}
use mesthastic_caltopo_bridg.Store.Tables.{Db, Result, ok}
use mesthastic_caltopo_bridg.Ingest.{User, FromRadio, Settings, Service, handle}
use mesthastic_caltopo_bridg.Ingest.Warnings.{IsSpaced, handle-IsSpaced}
use mesthastic_caltopo_bridg.Ingest.Stored.{IngestError, on_store, IsCounted, handle-IsCounted}
use mesthastic_caltopo_bridg.Scenarios.{whole, env, stored, stored-WellFormed}
use mesthastic_caltopo_bridg.Scenarios.Decoding.{legacy, messages}

abbrev message : FromRadio ℕ
message = record {
  metadata = none;
  device_role = none;
  config_complete_id = 0;
  node_info = none;
  packet = some legacy;
}

abbrev settings : Settings (Db ℕ ℤ) IngestError ℕ ℤ
settings = on_store env (λ _. false) (λ _. false) (unix 50) true true

-- One warning, at its own time.
abbrev service : Service (Db ℕ ℤ)
service = record { db = stored; last_encrypted_log = unix 30; warnings = unix 30 ∷ []; wakes = 2 }

abbrev read_user : Text → Result Text User
read_user t = ok (record { short_name = text "BRV"; long_name = text "Bravo" })

handle-IsSpaced_example :
    IsSpaced (handle settings whole messages read_user (unix 60) (unix 60) message service).0
handle-IsSpaced_example =
    handle-IsSpaced settings whole messages read_user (unix 60) (unix 60) message service (refl, tt)

handle-IsCounted_example :
    IsCounted env
      (λ _. false)
      (λ _. false)
      (unix 50)
      true
      true
      service
      (handle settings whole messages read_user (unix 60) (unix 60) message service).0
handle-IsCounted_example =
    handle-IsCounted env (λ _. false) (λ _. false) (unix 50) true true messages read_user (unix 60)
      (unix 60) message service stored-WellFormed
