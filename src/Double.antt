-- ===== src/Double.antt =====
-- A `double` as its IEEE 754 bit pattern, a number below 2 ^ 64, and what the program takes from the
-- C and C++ libraries about it.
use branchscore.Base.{
  ℕ, zero, suc, ◌+◌, ◌-◌, ◌*◌, ◌/◌, ◌%◌, ◌^◌, Bool, not, ◌&&◌, ◌||◌, ◌==◌, ltb, if◌then◌else◌,
  Bytes,
}

abbrev pub Double : Type 0
Double = ℕ

-- `std::isfinite`: the exponent field is not all ones.
unfoldable pub is_finite : Double → Bool
is_finite d = not (d / 2 ^ 52 % 2048 == 2047)

-- The functions of the C and C++ libraries that the codec calls.
pub record Libc : Type 0 where
  -- `std::strtod`: the value, and the text behind what was read
  pub strtod : Bytes → Double × Bytes
  -- `std::ostringstream << std::setprecision(17) << d`
  pub print_double : Double → Bytes

-- The binary logarithm, rounded down, of a number below 2 ^ fuel.
unfoldable pub log2 : ℕ → ℕ → ℕ
log2 zero n = 0
log2 (suc fuel) n = let rest = log2 fuel (n / 2) in if ltb n 2 then 0 else suc rest

-- `static_cast<double>` of a `std::size_t`: to the nearest, and to even between two.
unfoldable pub double_of_size : ℕ → Double
unfolding log2
double_of_size n =
    let e = log2 64 n in
    if n == 0
    then 0
    else if ltb e 53
    then (1023 + e) * 2 ^ 52 + (n - 2 ^ e) * 2 ^ (52 - e)
    else (let unit : ℕ = 2 ^ (e - 52) in
        let quotient = n / unit in
        let rest = n % unit in
        let up = ltb unit (2 * rest) || (2 * rest == unit && quotient % 2 == 1) in
        (1023 + e) * 2 ^ 52 + (quotient - 2 ^ 52) + (if up then 1 else 0))
