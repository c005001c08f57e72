-- ===== src/Ingest/Warnings.antt =====
-- The warnings on encrypted packets of internal/ingest/service.go.
use mesthastic_caltopo_bridg.Prelude.{
  ℕ, ◌+◌, ◌≤◌, ◌≡◌, refl, Bool, true, false, ◌&&◌, Option, none, some, List, [], ◌∷◌, arith,
  Bool-cases, inl, inr, if◌then◌else◌,
}
use mesthastic_caltopo_bridg.Prelude.Int.{pos, leb_ℤ}
use mesthastic_caltopo_bridg.Go.Float.{Float64}
use mesthastic_caltopo_bridg.Go.Text.{Text}
use mesthastic_caltopo_bridg.Go.Time.{Time, minute, sub}
use mesthastic_caltopo_bridg.Model.{Packet, Position}
use mesthastic_caltopo_bridg.Store.Tables.{Result, ok, err}
use mesthastic_caltopo_bridg.Tak.Messages.{Protobuf}
use mesthastic_caltopo_bridg.Ingest.{
  User, FromRadio, NodeDirectory, Settings, Service, log_encrypted, remember_node, wake,
  store_packet, handle,
}
use mesthastic_caltopo_bridg.Ingest.Keeps.{handle-keeps}

-- The latest warning is at that time, and each is a minute or more after the one before it.
abbrev pub Follows : Time → List Time → Type 0
Follows last [] = Unit
Follows last (t ∷ ts) = t ≡ last

abbrev pub Apart : List Time → Type 0
Apart [] = Unit
Apart (t ∷ []) = Unit
Apart (t ∷ u ∷ ts) = (u + minute ≤ t) × Apart (u ∷ ts)

abbrev pub IsSpaced : {D : Type 0} → Service D → Type 0
IsSpaced s = Follows s.last_encrypted_log s.warnings × Apart s.warnings

minute_after : (t u : Time) → leb_ℤ (pos minute) (sub t u) ≡ true → u + minute ≤ t
unfolding sub
minute_after t u h = ground arith

Apart-cons :
    (now last : Time) (ts : List Time)
    → last + minute ≤ now
    → Follows last ts
    → Apart ts
    → Apart (now ∷ ts)
Apart-cons now last [] h f a = tt
Apart-cons now last (t ∷ ts) h f a = (omega arith, a)

log_encrypted-IsSpaced :
    {D : Type 0} (now : Time) (s : Service D) → IsSpaced s → IsSpaced (log_encrypted now s)
unfolding log_encrypted
log_encrypted-IsSpaced now s h =
    elim (Bool-cases (leb_ℤ (pos minute) (sub now s.last_encrypted_log))) [
      | inl late ↦ rw late (
        refl,
        Apart-cons now s.last_encrypted_log s.warnings (minute_after now s.last_encrypted_log late)
            h.0 h.1,
      )
      | inr early ↦ rw early h
    ]

module _ {D E S F : Type 0} (settings : Settings D E S F) where
  remember_node-IsSpaced :
      (node : ℕ) (user : Option User) (s : Service D)
      → IsSpaced s
      → IsSpaced (remember_node settings node user s).0
  unfolding remember_node
  remember_node-IsSpaced node user s h = by_directory settings.nodes user
    where
      by_result :
          (r : D × Result E (Unit {0}))
          → IsSpaced
              (elim r.1 as (λ _. Service D × Option E) [
                | ok _ ↦ (record s { db = r.0 }, none)
                | err e ↦ (record s { db = r.0 }, some e)
              ]).0
      by_result (db, ok u) = h
      by_result (db, err e) = h

      by_directory :
          (o : Option (NodeDirectory D E)) (user : Option User)
          → IsSpaced
              (elim o as (λ _. Service D × Option E) [
                | none ↦ (s, none)
                | some directory ↦ elim user [
                  | none ↦ (s, none)
                  | some u ↦
                      let (db, r) = directory.upsert_node node u.short_name u.long_name s.db in
                      elim r [
                        | ok _ ↦ (record s { db = db }, none)
                        | err e ↦ (record s { db = db }, some e)
                      ]
                ]
              ]).0
      by_directory none user = h
      by_directory (some d) none = h
      by_directory (some d) (some u) = by_result (d.upsert_node node u.short_name u.long_name s.db)

  wake-IsSpaced :
      (position : Option (Position F)) (inserted : Bool) (s : Service D)
      → IsSpaced s
      → IsSpaced (wake settings position inserted s)
  unfolding wake
  wake-IsSpaced none inserted s h = h
  wake-IsSpaced (some p) inserted s h = elim (Bool-cases (inserted && settings.wakes_worker)) [
    | inl woken ↦ rw woken h
    | inr left ↦ rw left h
  ]

  store_packet-IsSpaced :
      (now : Time) (packet : Packet S) (position : Option (Position F)) (s : Service D)
      → IsSpaced s
      → IsSpaced (store_packet settings now packet position s).0
  unfolding store_packet
  store_packet-IsSpaced now packet position s h =
      by_result (settings.archiver.archive packet position settings.enqueue_caltopo s.db)
    where
      logged :
          (b : Bool) (stored : Service D)
          → IsSpaced stored
          → IsSpaced (if b then log_encrypted now stored else stored)
      logged true stored k = log_encrypted-IsSpaced now stored k
      logged false stored k = k

      by_result :
          (r : D × Result E (ℕ × ℕ × Bool))
          → IsSpaced
              (elim r.1 as (λ _. Service D × Option E) [
                | err e ↦ (record s { db = r.0 }, some e)
                | ok (packet_id, position_id, inserted) ↦ (
                  wake settings position inserted (
                      if packet.encrypted
                      then log_encrypted now (record s { db = r.0 })
                      else (record s { db = r.0 })),
                  none,
                )
              ]).0
      by_result (db, err e) = h
      by_result (db, ok (packet_id, position_id, inserted)) =
          wake-IsSpaced position inserted _ (logged packet.encrypted (record s { db = db }) h)

  -- Warnings on encrypted packets that are a minute or more apart are so after every message: a
  -- packet within a minute of the last warning adds none.
  pub handle-IsSpaced :
      (float : Float64 F) (proto : Protobuf S) (unmarshal_user : Text → Result Text User)
      (received_at now : Time) (message : FromRadio S) (s : Service D)
      → IsSpaced s
      → IsSpaced (handle settings float proto unmarshal_user received_at now message s).0
  handle-IsSpaced =
      handle-keeps settings IsSpaced
        (record { remembers = remember_node-IsSpaced; stores = store_packet-IsSpaced })
