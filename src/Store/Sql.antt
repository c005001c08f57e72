-- ===== src/Store/Sql.antt =====
-- The clauses of the queries of internal/store/store.go on lists of rows: EXISTS, WHERE, ORDER BY.
pub mod Laws
use mesthastic_caltopo_bridg.Prelude.{Bool, false, ◌||◌, List, [], ◌∷◌, if◌then◌else◌}

module _ {ℓ} {A : Type ℓ} where
  unfoldable pub exists_row : (A → Bool) → List A → Bool
  exists_row test [] = false
  exists_row test (x ∷ xs) = let rest = exists_row test xs in test x || rest

  unfoldable pub rows_where : (A → Bool) → List A → List A
  rows_where test [] = []
  rows_where test (x ∷ xs) = let rest = rows_where test xs in if test x then x ∷ rest else rest

  unfoldable pub insert_by : (A → A → Bool) → A → List A → List A
  insert_by lt x [] = x ∷ []
  insert_by lt x (y ∷ ys) = let rest = insert_by lt x ys in if lt x y then x ∷ y ∷ ys else y ∷ rest

  unfoldable pub order_by : (A → A → Bool) → List A → List A
  unfolding insert_by
  order_by lt [] = []
  order_by lt (x ∷ xs) = insert_by lt x (order_by lt xs)
