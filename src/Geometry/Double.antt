-- ===== src/Geometry/Double.antt =====
-- The `double` arithmetic that split.c and geometry.h use on scales, as an interface: C's
-- floating point is not defined by the repository.
use hikari_sakura.Prelude.{ℤ, pos, ◌≤ℤ◌}

pub record DoubleArith : Type 1 where
  pub Double : Type 0
  -- `(int)(n * scale)`
  pub int_of_product : ℤ → Double → ℤ
  -- `1.0 - scale`
  pub one_minus : Double → Double
  -- `a <= b`
  pub AtMost : Double → Double → Type 0
  pub zero_scale : Double
  pub one_scale : Double

-- What IEEE 754 promises of these: rounding and truncation are monotone, and 0.0 and 1.0 are
-- exact factors.
pub record Laws (D : DoubleArith) : Type 0 where
  pub mono :
      (n : ℤ) (a b : D.Double)
      → pos 0 ≤ℤ n
      → D.AtMost a b
      → D.int_of_product n a ≤ℤ D.int_of_product n b
  pub times_zero_lower : (n : ℤ) → pos 0 ≤ℤ D.int_of_product n D.zero_scale
  pub times_one_upper : (n : ℤ) → D.int_of_product n D.one_scale ≤ℤ n
