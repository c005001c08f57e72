-- ===== src/Scenarios/Living.antt =====
-- The theorems on the life of a database: a packet is archived, its node is named, its track is saved,
-- and its delivery is postponed and then done.
use mesthastic_caltopo_bridg.Prelude.{ℕ, ◌≡◌, refl, arith, In, true, false, Option, some}
use mesthastic_caltopo_bridg.Prelude.Int.{ℤ, pos, negsuc}
use mesthastic_caltopo_bridg.Go.Text.{text, text_eq}
use mesthastic_caltopo_bridg.Go.Time.{IsDated, unix}
use mesthastic_caltopo_bridg.Model.{Position}
use mesthastic_caltopo_bridg.Store.Tables.{PositionRow, Db, created, ok}
use mesthastic_caltopo_bridg.Store.Archive.{archive, position_key}
use mesthastic_caltopo_bridg.Store.Archive.Scanned.{AllReadAs, as_read, archive-scanned}
use mesthastic_caltopo_bridg.Store.Deliveries.{scan_position, mark_delivered, mark_failed}
use mesthastic_caltopo_bridg.Store.Nodes.{upsert_node}
use mesthastic_caltopo_bridg.Store.Tracks.{save_track_row}
use mesthastic_caltopo_bridg.Store.Invariant.{WellFormed}
use mesthastic_caltopo_bridg.Store.History.{
  archives, names, tracks, delivers, postpones, Reach, here, next,
}
use mesthastic_caltopo_bridg.Store.History.Unique.{HasUniqueNames, Reach-keys}
use mesthastic_caltopo_bridg.Store.History.Keeping.{Keeps}
use mesthastic_caltopo_bridg.Store.History.Kept.{Reach-Keeps}
use mesthastic_caltopo_bridg.Scenarios.{env, packet, position_at, stored}

abbrev seen : Option (Position ℤ)
seen = some (position_at 7 104 (pos 40) (negsuc 104) (unix 40))

module _ (db : Db ℕ ℤ) where
  abbrev archived : Db ℕ ℤ
  archived = (archive env (λ _. false) (unix 50) packet true seen db).0

  abbrev named : Db ℕ ℤ
  named = (upsert_node (λ _. false) (unix 51) 7 (text "BRV") (text "Bravo") archived).0

  abbrev tracked : Db ℕ ℤ
  tracked = (save_track_row (λ _. false) (unix 52) (text "s7") (text "d7") (text "t7") named).0

  abbrev postponed : Db ℕ ℤ
  postponed = (mark_failed (λ _. false) 1 1 (unix 60) false (text "offline") tracked).0

  abbrev done : Db ℕ ℤ
  done = (mark_delivered (λ _. false) (unix 61) 1 postponed).0

  lived : Reach env db done
  lived =
      next
        (next
          (next
            (next (next here (archives (λ _. false) (unix 50) packet true seen refl))
              (names (λ _. false) (unix 51) 7 (text "BRV") (text "Bravo") refl))
            (tracks (λ _. false) (unix 52) (text "s7") (text "d7") (text "t7") refl))
          (postpones (λ _. false) 1 1 (unix 60) false (text "offline") refl))
        (delivers (λ _. false) (unix 61) 1 refl)

Reach-keys_example : WellFormed (done created) × HasUniqueNames (done created)
Reach-keys_example = Reach-keys env (lived created)

Reach-Keeps_example : Keeps stored (done stored)
Reach-Keeps_example = Reach-Keeps env (lived stored)

early : IsDated (unix 40)
unfolding unix
early = omega arith

abbrev position : Position ℤ
position = position_at 7 104 (pos 40) (negsuc 104) (unix 40)

new_position :
    archive env (λ _. false) (unix 50) packet true (some position) stored
    ≡ (archived stored, ok (4, 4, true))
unfolding archive text_eq position_key
new_position = refl

archive-scanned_example :
    (row : PositionRow ℤ) × In row (archived stored).positions
    × (row.id ≡ 4)
    × (row.packet_id ≡ 4)
    × (ns : Option ℤ × Option ℤ × Option ℤ) × AllReadAs env.float position ns
    × (scan_position row ≡ some (as_read env 4 packet position ns))
archive-scanned_example =
    archive-scanned env (λ _. false) (unix 50) packet true position stored (archived stored) 4 4
      early early new_position
