-- ===== src/Store/Deliveries/Settle.antt =====
-- `MarkDelivered` and `MarkFailed` on one delivery.
use mesthastic_caltopo_bridg.Prelude.{ℕ, ◌≡◌, ◌≢◌, refl, Bool, false, ◌&&◌, ◌==◌, In}
use mesthastic_caltopo_bridg.Go.Text.{Text}
use mesthastic_caltopo_bridg.Go.Time.{Time}
use mesthastic_caltopo_bridg.Store.Tables.{DeliveryRow, Db, Result, ok, err}
use mesthastic_caltopo_bridg.Store.Invariant.{WellFormed}
use mesthastic_caltopo_bridg.Store.Deliveries.{
  is_pending, MarkError, not_found, delivered_row, failed_row, mark_delivered, mark_failed,
}
use mesthastic_caltopo_bridg.Store.Deliveries.Marks.{
  update_delivery-WellFormed, update_delivery-miss,
}

abbrev pub never : MarkError → Bool
never _ = false

-- The update has reported no error, has changed that row and has left every other one.
abbrev pub Marked :
    {S F : Type 0}
    → (DeliveryRow → DeliveryRow)
    → DeliveryRow
    → Db S F
    → Db S F × Result MarkError (Unit {0})
    → Type 0
Marked f d db (db', r) =
    (r ≡ ok tt)
    × In (f d) db'.deliveries
    × ((e : DeliveryRow) → In e db.deliveries → e.id ≢ d.id → In e db'.deliveries)

module _ {S F : Type 0} (db : Db S F) where
  -- A mark of a key that no pending row has changes nothing and is an error, if no call fails.
  pub mark_missing :
      (id : ℕ) (now next : Time) (attempts : ℕ) (terminal : Bool) (error : Text)
      → ((e : DeliveryRow) → In e db.deliveries → (e.id == id && is_pending e.state) ≡ false)
      → (mark_delivered never now id db ≡ (db, err not_found))
        × (mark_failed never id attempts next terminal error db ≡ (db, err not_found))
  unfolding mark_delivered mark_failed
  mark_missing id now next attempts terminal error none = (
    update_delivery-miss id (delivered_row now) db none,
    update_delivery-miss id (failed_row attempts next terminal error) db none,
  )

  -- Both marks keep the tables well formed, whatever calls fail.
  pub mark-WellFormed :
      (fails : MarkError → Bool) (id : ℕ) (now next : Time) (attempts : ℕ) (terminal : Bool)
      (error : Text)
      → WellFormed db
      → WellFormed (mark_delivered fails now id db).0
        × WellFormed (mark_failed fails id attempts next terminal error db).0
  unfolding mark_delivered mark_failed
  mark-WellFormed fails id now next attempts terminal error w = (
    update_delivery-WellFormed id (delivered_row now) (λ d. (refl, refl)) db fails w,
    update_delivery-WellFormed id (failed_row attempts next terminal error) (λ d. (refl, refl)) db
        fails w,
  )
