-- ===== src/Go/Float.antt =====
-- The float64 operations that the source uses, as a parameter: a type with these operations.
use mesthastic_caltopo_bridg.Prelude.{Bool}
use mesthastic_caltopo_bridg.Prelude.Int.{ℤ}
use mesthastic_caltopo_bridg.Go.Text.{Text}

pub record Float64 (F : Type 0) : Type 0 where
  -- the comparisons, false on a NaN
  pub lt : F → F → Bool
  pub le : F → F → Bool
  pub is_nan : F → Bool
  -- `math.IsInf(x, 0)`
  pub is_inf : F → Bool
  -- arithmetic, and the functions of `math`
  pub add : F → F → F
  pub sub : F → F → F
  pub mul : F → F → F
  pub div : F → F → F
  pub sin : F → F
  pub cos : F → F
  pub sqrt : F → F
  pub atan2 : F → F → F
  pub pi : F
  -- `math.Min`
  pub minimum : F → F → F
  -- `float64(n)` of an integer
  pub of_int : ℤ → F
  -- `float64(n) * 1e-7`
  pub degrees : ℤ → F
  -- `fmt.Sprintf("%.7f", x)`
  pub format7 : F → Text

-- The float operations, and `sha256.Sum256`.
pub record Env (F : Type 0) : Type 0 where
  pub float : Float64 F
  pub sha256 : Text → Text
