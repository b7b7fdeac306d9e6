-- ===== src/Readout/Float.antt =====
-- A `float` as its IEEE 754 bit pattern, a number below 2 ^ 32, and its comparisons.
use branchscore.Base.{ℕ, ◌+◌, ◌-◌, ◌/◌, ◌%◌, ◌^◌, Bool, not, ◌&&◌, ltb, ◌==◌, if◌then◌else◌}

abbrev pub Float : Type 0
Float = ℕ

-- `std::isfinite`: the exponent field is not all ones.
unfoldable pub is_finite_float : Float → Bool
is_finite_float f = not (f / 2 ^ 23 % 256 == 255)

unfoldable pub is_nan : Float → Bool
is_nan f = f / 2 ^ 23 % 256 == 255 && not (f % 2 ^ 23 == 0)

-- The place of a number in the order of the numbers: both zeros stand at 2 ^ 31.
unfoldable pub place : Float → ℕ
place f = if ltb f (2 ^ 31) then 2 ^ 31 + f else 2 ^ 31 - (f - 2 ^ 31)

-- `operator<`
unfoldable pub float_less : Float → Float → Bool
float_less a b = not (is_nan a) && not (is_nan b) && ltb (place a) (place b)

-- `operator==`
unfoldable pub float_equal : Float → Float → Bool
float_equal a b = not (is_nan a) && not (is_nan b) && place a == place b
