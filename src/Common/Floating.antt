-- ===== src/Common/Floating.antt =====
-- `double` as an interface: the operations that the source applies to a `double`, with no law
-- assumed. Every IEEE 754 format gives an instance, its NaN included: there `lt` and `le` are both
-- false at a NaN.
use mathlib.Core.Bool.{Bool}
use safeedge.Common.Tests.{if◌then◌else◌}

pub record FloatingPoint (Double : Type 0) : Type 0 where
  pub lt : Double → Double → Bool
  pub le : Double → Double → Bool
  pub sub : Double → Double → Double
  pub fabs : Double → Double
  pub zero_value : Double
  pub infinity : Double

module _ {Double : Type 0} ⦃fp : FloatingPoint Double⦄ where
  -- `a > b` and `std::min(a, b)`.
  abbrev pub gt : Double → Double → Bool
  gt a b = fp.lt b a

  abbrev pub min_double : Double → Double → Double
  min_double a b = if fp.lt b a then b else a
