-- ===== src/Tests/Codec.antt =====
-- The codec of src/json.cpp on small inputs.
use branchscore.Base.{
  ℕ, zero, suc, sym, ap, append-nil, ◌-◌, ◌≡◌, refl, inr, [], ◌∷◌, Bytes, codes, less, equal,
  length, arith,
}
use branchscore.Double.{Libc, is_finite}
use branchscore.Json.Number.{IsNumber, no_exponent, PrintsNumbers, AllDigits}
use branchscore.Json.Parser.{
  parse, parse_value, expect, parse_string, parse_scalar, parse_escape, hex_digit, parse_literal,
}
use branchscore.Json.Printer.{stringify, append_escaped}
use branchscore.Json.RoundTrip.{parse-stringify}
use branchscore.Json.Sound.{parse_sound}
use branchscore.Json.Value.{
  Value, null_value, number, string, array, object, no_items, item, no_fields, field, emplace,
  contains,
}
use branchscore.Json.WellFormed.{IsWellFormed}
use branchscore.Result.{ok, throw, runtime_error, Ensures}

-- A library that writes the bit pattern `d` as `d + 1` digits `1`, and reads it back.
abbrev ones : ℕ → Bytes
ones zero = []
ones (suc n) = b'1' ∷ ones n

abbrev pub unary_libc : Libc
unary_libc = record { strtod = λ text. (length text - 1, []); print_double = λ d. ones (suc d) }

ones-AllDigits : (n : ℕ) → AllDigits (ones n)
ones-AllDigits zero = tt
ones-AllDigits (suc n) = (refl, ones-AllDigits n)

length-ones : (n : ℕ) → length (ones n) ≡ n
length-ones zero = refl
length-ones (suc n) = omega (arith, length-ones n)

unary-IsNumber : (n : ℕ) → IsNumber (ones (suc n))
unary-IsNumber n = record {
  sign = [];
  integer = ones (suc n);
  fraction = [];
  exponent_part = [];
  splits = sym (append-nil (ones (suc n)));
  sign_good = tt;
  integer_good = inr (refl, ones-AllDigits (suc n));
  fraction_good = tt;
  exponent_good = no_exponent refl;
}

pub unary-PrintsNumbers : PrintsNumbers unary_libc
unary-PrintsNumbers = record {
  printed = λ d h. unary-IsNumber d;
  reads_back = λ d h.
      let same : length (ones (suc d)) - 1 ≡ d = omega (arith, length-ones d) in
      ap (λ n. (n, [])) same;
}

-- {"a":[3,null],"b":"x"}
abbrev sample : Value
sample = object (
    field (codes "a") (array (item (number 3) (item null_value no_items)))
      (field (codes "b") (string (codes "x")) no_fields))

sample-IsWellFormed : IsWellFormed sample
unfolding is_finite less
sample-IsWellFormed = ((refl, tt), (refl, (tt, tt)), (tt, tt, tt))

parse-stringify_example :
    (text : Bytes) × (stringify unary_libc sample ≡ ok text) × (parse unary_libc text ≡ ok sample)
parse-stringify_example = parse-stringify unary_libc unary-PrintsNumbers sample sample-IsWellFormed

parse_sound_example : Ensures IsWellFormed (parse unary_libc (codes "{\"a\":[11,null]"))
parse_sound_example = parse_sound unary_libc (codes "{\"a\":[11,null]")

written : stringify unary_libc sample ≡ ok (codes "{\"a\":[1111,null],\"b\":\"x\"}")
unfolding stringify is_finite append_escaped
written = refl

escaped :
    parse unary_libc (codes " {\"b\" : \"x\\u00e9\"} ")
    ≡ ok (object (field (codes "b") (string (b'x' ∷ 0xc3 ∷ 0xa9 ∷ [])) no_fields))
unfolding parse parse_value expect parse_string parse_scalar parse_escape hex_digit contains emplace
escaped = refl

twice : parse unary_libc (codes "{\"b\":true,\"b\":true}") ≡ throw runtime_error
unfolding parse parse_value expect parse_string parse_scalar parse_escape hex_digit contains emplace
    equal parse_literal
twice = refl
