-- ===== src/Ingest/Stored.antt =====
-- The ingest service on the store, as cmd/bridge/main.go connects them: the store is both the
-- archive and the node directory.
use mesthastic_caltopo_bridg.Prelude.{
  ℕ, ◌+◌, ◌≡◌, refl, sym, ap, ◌∙◌, subst, Bool, true, false, not, Option, none, some, ◌∷◌, arith,
  if◌then◌else◌,
}
use mesthastic_caltopo_bridg.Go.Float.{Env}
use mesthastic_caltopo_bridg.Go.Text.{Text}
use mesthastic_caltopo_bridg.Prelude.Int.{pos, leb_ℤ}
use mesthastic_caltopo_bridg.Go.Time.{Time, minute, sub}
use mesthastic_caltopo_bridg.Model.{Packet, Position}
use mesthastic_caltopo_bridg.Store.Tables.{Db, Result, ok, err}
use mesthastic_caltopo_bridg.Store.Archive.{ArchiveError, archive}
use mesthastic_caltopo_bridg.Store.Archive.Outcome.{
  with_packet, with_new, Archived, packet_only, repeated, fresh, Outcome, archive-Outcome,
}
use mesthastic_caltopo_bridg.Store.Invariant.{WellFormed, archive-WellFormed}
use mesthastic_caltopo_bridg.Store.Nodes.{NodeError, upsert_node, node_callsign}
use mesthastic_caltopo_bridg.Store.Nodes.Names.{Named, upsert_node-Named}
use mesthastic_caltopo_bridg.Store.Nodes.Keys.{upsert_node-WellFormed}
use mesthastic_caltopo_bridg.Tak.Messages.{Protobuf}
use mesthastic_caltopo_bridg.Ingest.{
  User, FromRadio, Settings, Service, log_encrypted, remember_node, wake, store_packet, handle,
}
use mesthastic_caltopo_bridg.Ingest.Keeps.{handle-keeps}

pub data IngestError : Type 0 where
  archive_error : ArchiveError → IngestError
  node_error : NodeError → IngestError

abbrev pub with_error : {E E' A : Type 0} → (E → E') → Result E A → Result E' A
with_error f (ok a) = ok a
with_error f (err e) = err (f e)

module _ {S F : Type 0} (env : Env F) (archive_fails : ArchiveError → Bool)
    (node_fails : NodeError → Bool) (now : Time) (enqueue_caltopo decode_position_app : Bool) where
  -- The `ingest.Service` of the command, with the function that wakes the worker.
  abbrev pub on_store : Settings (Db S F) IngestError S F
  on_store = record {
    archiver = record {
      archive = λ packet position enqueue db.
          let (db', r) = archive env archive_fails now packet enqueue position db in
          (db', with_error archive_error r);
    };
    nodes = some (record {
      upsert_node = λ node short_name long_name db.
          let (db', r) = upsert_node node_fails now node short_name long_name db in
          (db', with_error node_error r);
      node_callsign = λ node db. with_error node_error (node_callsign node_fails node db);
    });
    enqueue_caltopo = enqueue_caltopo;
    decode_position_app = decode_position_app;
    wakes_worker = true;
  }

  module _ (start : Service (Db S F)) where
    -- The tables are well formed, and the worker was woken once for each position stored since.
    abbrev pub IsCounted : Service (Db S F) → Type 0
    IsCounted s =
        WellFormed s.db × (s.wakes + start.db.position_seq ≡ s.db.position_seq + start.wakes)

    remember_node-IsCounted :
        (node : ℕ) (user : Option User) (s : Service (Db S F))
        → IsCounted s
        → IsCounted (remember_node on_store node user s).0
    unfolding remember_node
    remember_node-IsCounted node none s h = h
    remember_node-IsCounted node (some u) s h =
        by_result (upsert_node node_fails now node u.short_name u.long_name s.db)
          (upsert_node-WellFormed now node u.short_name u.long_name node_fails s.db h.0)
          (upsert_node-Named now node u.short_name u.long_name node_fails s.db)
      where
        by_result :
            (r : Db S F × Result NodeError (Unit {0}))
            → WellFormed r.0
            → Named now node u.short_name u.long_name s.db r
            → IsCounted
                (elim (with_error node_error r.1) as (λ _. Service (Db S F) × Option IngestError) [
                  | ok _ ↦ (record s { db = r.0 }, none)
                  | err e ↦ (record s { db = r.0 }, some e)
                ]).0
        by_result (db, ok u) w e = (
          w,
          ap (λ (d : Db S F). s.wakes + start.db.position_seq) e
              ∙ h.1
              ∙ ap (λ (d : Db S F). d.position_seq + start.wakes) (sym e),
        )
        by_result (db, err x) w e =
            (w, h.1 ∙ ap (λ (d : Db S F). d.position_seq + start.wakes) (sym e))

    logged : Time → Packet S → Service (Db S F) → Service (Db S F)
    logged at packet s = if packet.encrypted then log_encrypted at s else s

    logged_lem :
        (at : Time) (packet : Packet S) (s : Service (Db S F))
        → ((logged at packet s).db ≡ s.db) × ((logged at packet s).wakes ≡ s.wakes)
    unfolding logged log_encrypted
    logged_lem at packet s =
        by_test packet.encrypted (not (leb_ℤ (pos minute) (sub at s.last_encrypted_log)))
      where
        noted : Bool → Service (Db S F)
        noted early =
            if early then s else record s { last_encrypted_log = at; warnings = at ∷ s.warnings }

        by_test :
            (encrypted early : Bool)
            → ((if encrypted then noted early else s).db ≡ s.db)
              × ((if encrypted then noted early else s).wakes ≡ s.wakes)
        by_test true true = (refl, refl)
        by_test true false = (refl, refl)
        by_test false early = (refl, refl)

    with_new_lem :
        (packet : Packet S) (p : Position F) (db : Db S F)
        → (with_new env now packet enqueue_caltopo p db).position_seq ≡ db.position_seq + 1
    with_new_lem packet p db = by_test enqueue_caltopo
      where
        by_test : (b : Bool) → (with_new env now packet b p db).position_seq ≡ db.position_seq + 1
        by_test true = refl
        by_test false = refl

    Archived-IsCounted :
        (at : Time) (packet : Packet S) (s : Service (Db S F)) {position : Option (Position F)}
        {db : Db S F} {x : ℕ × ℕ × Bool}
        → Archived env now packet enqueue_caltopo s.db position db x
        → IsCounted s
        → WellFormed db
        → IsCounted (wake on_store position x.2 (logged at packet (record s { db = db })))
    unfolding wake
    Archived-IsCounted at packet s packet_only h w =
        let l =
          logged_lem at packet
            (record s { db = with_packet env now packet enqueue_caltopo s.db }) in
        (
          subst WellFormed (sym l.0) w,
          omega (arith, l.1, ap (λ (d : Db S F). d.position_seq) l.0, h.1),
        )
    Archived-IsCounted at packet s (repeated p existing found) h w =
        let l =
          logged_lem at packet
            (record s { db = with_packet env now packet enqueue_caltopo s.db }) in
        (
          subst WellFormed (sym l.0) w,
          omega (arith, l.1, ap (λ (d : Db S F). d.position_seq) l.0, h.1),
        )
    Archived-IsCounted at packet s (fresh p missing fits) h w =
        let l =
          logged_lem at packet (record s { db = with_new env now packet enqueue_caltopo p s.db }) in
        (
          subst WellFormed (sym l.0) w,
          omega (
            arith,
            l.1,
            ap (λ (d : Db S F). d.position_seq) l.0,
            h.1,
            with_new_lem packet p s.db,
          ),
        )

    store_packet-IsCounted :
        (at : Time) (packet : Packet S) (position : Option (Position F)) (s : Service (Db S F))
        → IsCounted s
        → IsCounted (store_packet on_store at packet position s).0
    unfolding store_packet logged
    store_packet-IsCounted at packet position s h =
        by_result (archive env archive_fails now packet enqueue_caltopo position s.db)
          (archive-WellFormed env now packet enqueue_caltopo archive_fails s.db position h.0)
          (archive-Outcome env now packet enqueue_caltopo archive_fails s.db position)
      where
        by_result :
            (r : Db S F × Result ArchiveError (ℕ × ℕ × Bool))
            → WellFormed r.0
            → Outcome env now packet enqueue_caltopo archive_fails s.db position r
            → IsCounted
                (elim (with_error archive_error r.1)
                  as (λ _. Service (Db S F) × Option IngestError) [
                    | err e ↦ (record s { db = r.0 }, some e)
                    | ok (packet_id, position_id, inserted) ↦ (
                      wake on_store position inserted (
                          if packet.encrypted
                          then log_encrypted at (record s { db = r.0 })
                          else (record s { db = r.0 })),
                      none,
                    )
                  ]).0
        by_result (db, err x) w e =
            (w, h.1 ∙ ap (λ (d : Db S F). d.position_seq + start.wakes) (sym e))
        by_result (db, ok x) w e = Archived-IsCounted at packet s e h w

  -- For a service with a function that wakes the worker: whatever calls of the store fail, a message
  -- keeps the tables well formed, and it wakes the worker just as often as it stores a new position.
  pub handle-IsCounted :
      (proto : Protobuf S) (unmarshal_user : Text → Result Text User) (received_at at : Time)
      (message : FromRadio S) (s : Service (Db S F))
      → WellFormed s.db
      → IsCounted s (handle on_store env.float proto unmarshal_user received_at at message s).0
  handle-IsCounted proto unmarshal_user received_at at message s w =
      handle-keeps on_store (IsCounted s)
        (record { remembers = remember_node-IsCounted s; stores = store_packet-IsCounted s })
        env.float proto unmarshal_user received_at at message s (w, omega arith)
