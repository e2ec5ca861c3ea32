-- ===== src/Common/Decimal.antt =====
-- A small instance of the floating-point interface for examples: whole numbers, the two infinities
-- and a NaN, which is neither above nor below anything.
use mathlib.Core.Bool.{Bool, true, false}
use safeedge.Common.Tests.{if◌then◌else◌}
use safeedge.Common.Int.{ℤ, pos, ◌-ℤ◌, ltb_ℤ, max_ℤ}
use safeedge.Common.Floating.{FloatingPoint}

pub data Decimal : Type 0 where
  nan minus_infinite plus_infinite : Decimal
  whole : ℤ → Decimal

abbrev pub lt_decimal : Decimal → Decimal → Bool
lt_decimal nan y = false
lt_decimal x nan = false
lt_decimal minus_infinite minus_infinite = false
lt_decimal minus_infinite y = true
lt_decimal plus_infinite y = false
lt_decimal (whole a) minus_infinite = false
lt_decimal (whole a) plus_infinite = true
lt_decimal (whole a) (whole b) = ltb_ℤ a b

abbrev pub le_decimal : Decimal → Decimal → Bool
le_decimal nan y = false
le_decimal x nan = false
le_decimal x y = if lt_decimal y x then false else true

abbrev pub sub_decimal : Decimal → Decimal → Decimal
sub_decimal (whole a) (whole b) = whole (a -ℤ b)
sub_decimal (whole a) minus_infinite = plus_infinite
sub_decimal (whole a) plus_infinite = minus_infinite
sub_decimal plus_infinite (whole b) = plus_infinite
sub_decimal minus_infinite (whole b) = minus_infinite
sub_decimal plus_infinite minus_infinite = plus_infinite
sub_decimal minus_infinite plus_infinite = minus_infinite
sub_decimal _ _ = nan

abbrev pub fabs_decimal : Decimal → Decimal
fabs_decimal (whole a) = whole (max_ℤ a (pos 0 -ℤ a))
fabs_decimal minus_infinite = plus_infinite
fabs_decimal x = x

instance abbrev pub decimal_double : FloatingPoint Decimal
decimal_double = record {
  lt = lt_decimal;
  le = le_decimal;
  sub = sub_decimal;
  fabs = fabs_decimal;
  zero_value = whole (pos 0);
  infinity = plus_infinite;
}
