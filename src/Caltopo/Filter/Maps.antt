-- ===== src/Caltopo/Filter/Maps.antt =====
-- The laws of the filter's maps.
use mesthastic_caltopo_bridg.Prelude.{ℕ, ◌≡◌, refl, none, some, [], ◌∷◌, ◌==◌, arith, if◌then◌else◌}
use mesthastic_caltopo_bridg.Caltopo.Filter.{NumberMap, lookup, insert, delete}

module _ {V : Type 0} (k j : ℕ) where
  pub lookup-insert :
      (v : V) (m : NumberMap V) → lookup j (insert k v m) ≡ (if k == j then some v else lookup j m)
  unfolding lookup insert
  lookup-insert v [] = refl
  lookup-insert v ((i, w) ∷ m) = ground (arith, lookup-insert v m)

  pub lookup-delete :
      (m : NumberMap V) → lookup j (delete k m) ≡ (if k == j then none else lookup j m)
  unfolding lookup delete
  lookup-delete [] = ground arith
  lookup-delete ((i, w) ∷ m) = ground (arith, lookup-delete m)
