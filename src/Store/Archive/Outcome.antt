-- ===== src/Store/Archive/Outcome.antt =====
-- What `Archive` has done when it returns.
use mesthastic_caltopo_bridg.Prelude.{
  ℕ, ◌+◌, ◌≡◌, refl, subst, Bool, true, false, not, Option, none, some, [], ◌∷◌, ◌++◌, arith,
  if◌then◌else◌,
}
use mesthastic_caltopo_bridg.Go.Float.{Env}
use mesthastic_caltopo_bridg.Go.Time.{Time, format_time}
use mesthastic_caltopo_bridg.Model.{Packet, Position}
use mesthastic_caltopo_bridg.Store.Tables.{
  DeliveryRow, pending, Db, Result, ok, err, Tx, transact, call, call-case, pure, ◌>>◌, ◌>>=◌,
}
use mesthastic_caltopo_bridg.Store.Archive.{
  insert_delivery, ArchiveError, begin_archive, insert_packet, read_packet_id, commit_packet,
  commit_duplicate, query_duplicate, insert_position, read_position_id, enqueue_delivery,
  commit_position, archive_body, archive_position, archive_new, enqueue_new, position_key,
  packet_row, position_row, in_range, find_key, archive,
}

module _ {S F : Type 0} (env : Env F) (now : Time) (packet : Packet S) (enqueue : Bool) where
  -- The new delivery, for the position of that row.
  abbrev pub new_delivery : ℕ → ℕ → DeliveryRow
  new_delivery id position_id = record {
    id = id;
    position_id = position_id;
    state = pending;
    attempts = 0;
    next_attempt_at = format_time now;
    last_error = none;
    delivered_at = none;
  }

  abbrev pub with_packet : Db S F → Db S F
  with_packet db = record db {
    packets = db.packets ++ packet_row (db.packet_seq + 1) packet ∷ [];
    packet_seq = db.packet_seq + 1;
  }

  abbrev pub with_position : Position F → Db S F → Db S F
  with_position p db = record db {
    positions = db.positions ++ position_row env (db.position_seq + 1) db.packet_seq packet p ∷ [];
    position_seq = db.position_seq + 1;
  }

  abbrev pub with_delivery : Db S F → Db S F
  with_delivery db = record db {
    deliveries = db.deliveries ++ new_delivery (db.delivery_seq + 1) db.position_seq ∷ [];
    delivery_seq = db.delivery_seq + 1;
  }

  abbrev pub with_new : Position F → Db S F → Db S F
  with_new p db =
      let placed = with_position p (with_packet db) in
      if enqueue then with_delivery placed else placed

  -- What a call that succeeds has done, by the position and by whether its key was stored.
  pub data Archived (db : Db S F) : Option (Position F) → Db S F → ℕ × ℕ × Bool → Type 0 where
    packet_only : Archived db none (with_packet db) (db.packet_seq + 1, 0, false)
    repeated :
        (p : Position F) (existing : ℕ)
        → find_key (position_key env p) db.positions ≡ some existing
        → Archived db (some p) (with_packet db) (db.packet_seq + 1, existing, false)
    fresh :
        (p : Position F)
        → find_key (position_key env p) db.positions ≡ none
        → in_range env p ≡ true
        → Archived db (some p) (with_new p db) (db.packet_seq + 1, db.position_seq + 1, true)

  module _ (fails : ArchiveError → Bool) (db : Db S F) where
    -- An error leaves the database as it was.
    abbrev pub Outcome : Option (Position F) → Db S F × Result ArchiveError (ℕ × ℕ × Bool) → Type 0
    Outcome position (db', err e) = db' ≡ db
    Outcome position (db', ok x) = Archived db position db' x

    -- The same of the transaction's copy.
    abbrev Good : Option (Position F) → Result ArchiveError ((ℕ × ℕ × Bool) × Db S F) → Type 0
    Good position (err e) = Unit
    Good position (ok (x, db')) = Archived db position db' x

    transact-Outcome :
        (position : Option (Position F)) (m : Tx (Db S F) ArchiveError (ℕ × ℕ × Bool))
        → Good position (m db)
        → Outcome position (transact m db)
    unfolding transact
    transact-Outcome position m good = by_result (m db) good
      where
        by_result :
            (r : Result ArchiveError ((ℕ × ℕ × Bool) × Db S F))
            → Good position r
            → Outcome position (transact (λ _. r) db)
        by_result (err e) g = refl
        by_result (ok x) g = g

    archive_new-Good :
        (p : Position F)
        → find_key (position_key env p) db.positions ≡ none
        → Good
            (some p)
            (archive_new env fails now packet enqueue (db.packet_seq + 1) p (with_packet db))
    unfolding archive_new
    archive_new-Good p missing =
        call-case (Good (some p)) fails insert_position _ (with_packet db) tt λ _.
          call-case (Good (some p)) (λ _. not (in_range env p)) insert_position _ (with_packet db)
            tt
            λ fits.
              call-case (Good (some p)) fails read_position_id _ (with_position p (with_packet db))
                tt λ _. by_enqueue enqueue refl (ground arith)
      where
        placed : Db S F
        placed = with_position p (with_packet db)

        added : Db S F → Result ArchiveError ((ℕ × ℕ × Bool) × Db S F)
        added db' = ok ((db.packet_seq + 1, db.position_seq + 1, true), db')

        commit : Tx (Db S F) ArchiveError (ℕ × ℕ × Bool)
        commit = call fails commit_position >> pure (db.packet_seq + 1, db.position_seq + 1, true)

        by_enqueue :
            (b : Bool)
            → enqueue ≡ b
            → in_range env p ≡ true
            → Good (some p) (
                (enqueue_new env fails now packet enqueue b (db.position_seq + 1) >> commit) placed)
        by_enqueue true e fits =
            call-case (λ r. Good (some p) (◌>>=◌ (λ _. r) (λ _. commit) placed)) fails
              enqueue_delivery (insert_delivery (db.position_seq + 1) now) placed tt
              λ _. call-case (Good (some p)) fails commit_position _ (with_delivery placed) tt λ _.
                subst (λ b. Good (some p) (added (if b then with_delivery placed else placed))) e
                  (fresh p missing fits)
        by_enqueue false e fits = call-case (Good (some p)) fails commit_position _ placed tt λ _.
            subst (λ b. Good (some p) (added (if b then with_delivery placed else placed))) e
              (fresh p missing fits)

    archive_position-Good :
        (p : Position F)
        → Good
            (some p)
            (archive_position env fails now packet enqueue (db.packet_seq + 1) p (with_packet db))
    unfolding archive_position
    archive_position-Good p =
        call-case (Good (some p)) fails query_duplicate _ (with_packet db) tt
          λ _. by_existing (find_key (position_key env p) db.positions) refl
      where
        by_existing :
            (o : Option ℕ)
            → find_key (position_key env p) db.positions ≡ o
            → Good (some p) (
                (elim o as (λ _. Tx (Db S F) ArchiveError (ℕ × ℕ × Bool)) [
                  | some existing_id ↦
                      (call fails commit_duplicate >> pure (db.packet_seq + 1, existing_id, false))
                  | none ↦ archive_new env fails now packet enqueue (db.packet_seq + 1) p
                ])
                  (with_packet db))
        by_existing none missing = archive_new-Good p missing
        by_existing (some existing) found =
            call-case (Good (some p)) fails commit_duplicate _ (with_packet db) tt
              (λ _. repeated p existing found)

    -- A call that fails leaves the database as it was. One that succeeds has added the packet; and,
    -- of a position, has found its key stored and added nothing else, or has added the position and,
    -- if deliveries are enqueued, one pending delivery of it.
    pub archive-Outcome :
        (position : Option (Position F))
        → Outcome position (archive env fails now packet enqueue position db)
    unfolding archive
    archive-Outcome position =
        transact-Outcome position (archive_body env fails now packet enqueue position) (
          call-case (Good position) fails begin_archive _ db tt λ _.
            call-case (Good position) fails insert_packet _ db tt λ _.
              call-case (Good position) fails read_packet_id _ (with_packet db) tt
                λ _. by_position position)
      where
        by_position :
            (o : Option (Position F))
            → Good o (
                (elim o as (λ _. Tx (Db S F) ArchiveError (ℕ × ℕ × Bool)) [
                  | none ↦ (call fails commit_packet >> pure (db.packet_seq + 1, 0, false))
                  | some p ↦ archive_position env fails now packet enqueue (db.packet_seq + 1) p
                ])
                  (with_packet db))
        by_position none =
            call-case (Good none) fails commit_packet _ (with_packet db) tt (λ _. packet_only)
        by_position (some p) = archive_position-Good p
