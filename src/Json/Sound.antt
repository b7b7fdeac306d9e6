-- ===== src/Json/Sound.antt =====
-- The parser of `src/json.cpp` on every input: it ends, and what it returns is well formed.
use branchscore.Base.{
  ℕ, zero, suc, not, ◌+◌, ◌-◌, ◌*◌, ◌≤◌, ◌<◌, ◌≡◌, true, [], ◌∷◌, Bytes, codes, arith, ◌==◌, length,
  tail,
}
use branchscore.Double.{is_finite, Libc}
use branchscore.Json.Parser.{
  peek, is_digit, skip_space, expect, parse_literal, hex_digit, hex_digits, parse_hex_quad,
  parse_low_surrogate, parse_unicode_escape, parse_escape, string_body, parse_string, digits,
  some_digits, scan_sign, scan_integer, scan_fraction, scan_exponent_sign, scan_exponent,
  scan_number, read_number, parse_number, parse_scalar, parse_value, parse_array, parse_items,
  parse_object, parse_fields, parse,
}
use branchscore.Json.Value.{Value, Items, Fields, no_fields, contains, emplace}
use branchscore.Json.WellFormed.{
  IsWellFormed, WellFormedItems, WellFormedFields, emplace-WellFormed,
}
use branchscore.Result.{
  ok, runtime_error, Ensures, Ensures-bind, Ensures-mono, Ensures-if, Ensures-throw_if,
}

-- What is left is no longer than the input; strictly shorter.
abbrev Within {ℓ} : {A : Type ℓ} → Bytes → A × Bytes → Type 0
Within ts r = length r.1 ≤ length ts

abbrev Consumes {ℓ} : {A : Type ℓ} → Bytes → A × Bytes → Type 0
Consumes ts r = length r.1 < length ts

skip_space-le : (ts : Bytes) → length (skip_space ts) ≤ length ts
unfolding skip_space
skip_space-le [] = omega arith
skip_space-le (c ∷ cs) = ground (arith, skip_space-le cs)

expect-Consumes : (c : ℕ) (ts : Bytes) → 0 < c → Ensures (Consumes ts) (expect c ts)
unfolding expect
expect-Consumes c [] h = ground arith
expect-Consumes c (t ∷ ts) h = ground arith

parse_literal-Within : (cs ts : Bytes) → Ensures (Within ts) (parse_literal cs ts)
unfolding parse_literal
parse_literal-Within [] ts = omega arith
parse_literal-Within (c ∷ cs) [] = tt
parse_literal-Within (c ∷ cs) (t ∷ ts) = ground (arith, parse_literal-Within cs ts)

hex_digits-Within : (n value : ℕ) (ts : Bytes) → Ensures (Within ts) (hex_digits n value ts)
unfolding hex_digits hex_digit
hex_digits-Within zero value ts = omega arith
hex_digits-Within (suc n) value [] = tt
hex_digits-Within (suc n) value (c ∷ cs) = ground (
  arith,
  hex_digits-Within n (value * 16 + (c - b'0')) cs,
  hex_digits-Within n (value * 16 + (c - b'a' + 10)) cs,
  hex_digits-Within n (value * 16 + (c - b'A' + 10)) cs,
)

parse_hex_quad-Within : (ts : Bytes) → Ensures (Within ts) (parse_hex_quad ts)
unfolding parse_hex_quad
parse_hex_quad-Within ts = ground (arith, hex_digits-Within 4 0 ts)

tail-le : (ts : Bytes) → length (tail ts) ≤ length ts
tail-le [] = omega arith
tail-le (c ∷ cs) = omega arith

parse_low_surrogate-Within :
    (first : ℕ) (ts : Bytes) → Ensures (Within ts) (parse_low_surrogate first ts)
unfolding parse_low_surrogate
parse_low_surrogate-Within first ts =
    ground (arith, parse_hex_quad-Within (tail (tail ts)), tail-le ts, tail-le (tail ts))

parse_unicode_escape-Within : (ts : Bytes) → Ensures (Within ts) (parse_unicode_escape ts)
unfolding parse_unicode_escape
parse_unicode_escape-Within ts = grind (arith, parse_hex_quad-Within ts, parse_low_surrogate-Within)

parse_escape-Consumes : (result ts : Bytes) → Ensures (Consumes ts) (parse_escape result ts)
unfolding parse_escape
parse_escape-Consumes result [] = tt
parse_escape-Consumes result (c ∷ cs) = ground (arith, parse_unicode_escape-Within cs)

string_body-Consumes :
    (f : ℕ) (result ts : Bytes) → length ts < f → Ensures (Consumes ts) (string_body f result ts)
unfolding string_body
string_body-Consumes zero result ts h = absurd (omega arith)
string_body-Consumes (suc f) result [] h = tt
string_body-Consumes (suc f) result (c ∷ cs) h =
    grind (arith, parse_escape-Consumes result cs, string_body-Consumes f)

parse_string-Consumes : (ts : Bytes) → Ensures (Consumes ts) (parse_string ts)
unfolding parse_string
parse_string-Consumes ts = grind (
  arith,
  expect-Consumes b'"' ts (omega arith),
  λ (r : Bytes). string_body-Consumes (suc (length r)) [] r,
)

digits-le : (ts : Bytes) → length (digits ts).1 ≤ length ts
unfolding digits
digits-le [] = omega arith
digits-le (c ∷ cs) = ground (arith, digits-le cs)

digits-lt : (ts : Bytes) → is_digit (peek ts) ≡ true → length (digits ts).1 < length ts
unfolding digits
digits-lt [] h = ground arith
digits-lt (c ∷ cs) h = ground (arith, digits-le cs)

some_digits-Consumes : (ts : Bytes) → Ensures (Consumes ts) (some_digits ts)
unfolding some_digits
some_digits-Consumes ts = ground (arith, digits-lt ts)

scan_sign-le : (ts : Bytes) → length (scan_sign ts).1 ≤ length ts
unfolding scan_sign
scan_sign-le ts = ground (arith, tail-le ts)

scan_integer-Consumes : (ts : Bytes) → Ensures (Consumes ts) (scan_integer ts)
unfolding scan_integer
scan_integer-Consumes [] = ground arith
scan_integer-Consumes (c ∷ cs) = ground (arith, digits-lt (c ∷ cs))

scan_fraction-Within : (ts : Bytes) → Ensures (Within ts) (scan_fraction ts)
unfolding scan_fraction
scan_fraction-Within ts = ground (arith, some_digits-Consumes (tail ts), tail-le ts)

scan_exponent_sign-le : (ts : Bytes) → length (scan_exponent_sign ts).1 ≤ length ts
unfolding scan_exponent_sign
scan_exponent_sign-le ts = ground (arith, tail-le ts)

scan_exponent-Within : (ts : Bytes) → Ensures (Within ts) (scan_exponent ts)
unfolding scan_exponent
scan_exponent-Within ts = ground (
  arith,
  scan_exponent_sign-le (tail ts),
  some_digits-Consumes (scan_exponent_sign (tail ts)).1,
  tail-le ts,
)

scan_number-Consumes : (ts : Bytes) → Ensures (Consumes ts) (scan_number ts)
unfolding scan_number
scan_number-Consumes ts =
    Ensures-bind (Consumes (scan_sign ts).1) (Consumes ts) _ _
      (scan_integer-Consumes (scan_sign ts).1)
      λ (integer, t₁) p₁.
        Ensures-bind (Within t₁) (Consumes ts) _ _ (scan_fraction-Within t₁) λ (fraction, t₂) p₂.
          Ensures-bind (Within t₂) (Consumes ts) _ _ (scan_exponent-Within t₂)
            λ (exponent, rest) p₃. omega (arith, scan_sign-le ts)

module _ (libc : Libc) where
  abbrev GoodValue : Bytes → Value × Bytes → Type 0
  GoodValue ts r = (length r.1 < length ts) × IsWellFormed r.0

  read_number-Ensures : (t : Bytes) → Ensures (λ d. is_finite d ≡ true) (read_number libc t)
  unfolding read_number
  read_number-Ensures t = ground arith

  parse_number-Ensures :
      (ts : Bytes)
      → Ensures (λ r. (length r.1 < length ts) × (is_finite r.0 ≡ true)) (parse_number libc ts)
  unfolding parse_number
  parse_number-Ensures ts = grind (arith, scan_number-Consumes ts, read_number-Ensures)

  -- a literal's first byte has been seen
  parse_literal-Consumes :
      (c : ℕ) (cs ts : Bytes) → Ensures (Consumes ts) (parse_literal (c ∷ cs) ts)
  unfolding parse_literal
  parse_literal-Consumes c cs [] = tt
  parse_literal-Consumes c cs (t ∷ ts) = ground (arith, parse_literal-Within cs ts)

  parse_scalar-Ensures : (ts : Bytes) → Ensures (GoodValue ts) (parse_scalar libc ts)
  unfolding parse_scalar
  parse_scalar-Ensures ts = ground (
    arith,
    parse_literal-Consumes b'n' (codes "ull") ts,
    parse_literal-Consumes b't' (codes "rue") ts,
    parse_literal-Consumes b'f' (codes "alse") ts,
    parse_string-Consumes ts,
    parse_number-Ensures ts,
  )

  abbrev GoodItems : Bytes → Items × Bytes → Type 0
  GoodItems ts r = (length r.1 < length ts) × WellFormedItems r.0

  abbrev GoodFields : Bytes → Fields × Bytes → Type 0
  GoodFields ts r = (length r.1 < length ts) × WellFormedFields r.0

  mutual
    unfolding parse_value

    parse_value-Ensures :
        (f : ℕ) (ts : Bytes)
        → 3 * length ts + 2 < f
        → Ensures (GoodValue ts) (parse_value libc f ts)
    parse_value-Ensures zero ts h = absurd (omega arith)
    parse_value-Ensures (suc f) ts h = ground (
      arith,
      parse_array-Ensures f ts (omega arith),
      parse_object-Ensures f ts (omega arith),
      parse_scalar-Ensures ts,
    )

    parse_array-Ensures :
        (f : ℕ) (ts : Bytes)
        → 3 * length ts + 1 < f
        → Ensures (GoodValue ts) (parse_array libc f ts)
    parse_array-Ensures zero ts h = absurd (omega arith)
    parse_array-Ensures (suc f) ts h =
        Ensures-bind (Consumes ts) (GoodValue ts) _ _ (expect-Consumes b'[' ts (omega arith))
          λ (_, t₁) p.
            let t₂ = skip_space t₁ in
            let le = skip_space-le t₁ in
            ground (arith, le, tail-le t₂, parse_items-Ensures f t₂ (omega (arith, le)))

    parse_items-Ensures :
        (f : ℕ) (ts : Bytes)
        → 3 * length ts + 3 < f
        → Ensures (GoodItems ts) (parse_items libc f ts)
    parse_items-Ensures zero ts h = absurd (omega arith)
    parse_items-Ensures (suc f) ts h =
        Ensures-bind (GoodValue ts) (GoodItems ts) _ _ (parse_value-Ensures f ts (omega arith))
          λ (v, t₁) p.
            let t₂ = skip_space t₁ in
            let le = skip_space-le t₁ in
            Ensures-if (GoodItems ts) (peek t₂ == b']') _ _
              (λ _. (omega (arith, le, tail-le t₂), (p.1, tt)))
              λ _.
                Ensures-bind (Consumes t₂) (GoodItems ts) _ _
                  (expect-Consumes b',' t₂ (omega arith))
                  λ (_, t₃) q.
                    let le' = skip_space-le t₃ in
                    Ensures-bind (GoodItems (skip_space t₃)) (GoodItems ts) _ _
                      (parse_items-Ensures f (skip_space t₃) (omega (arith, le, le')))
                      λ (xs, rest) r. (omega (arith, le, le'), (p.1, r.1))

    parse_object-Ensures :
        (f : ℕ) (ts : Bytes)
        → 3 * length ts + 1 < f
        → Ensures (GoodValue ts) (parse_object libc f ts)
    parse_object-Ensures zero ts h = absurd (omega arith)
    parse_object-Ensures (suc f) ts h =
        Ensures-bind (Consumes ts) (GoodValue ts) _ _ (expect-Consumes b'{' ts (omega arith))
          λ (_, t₁) p.
            let t₂ = skip_space t₁ in
            let le = skip_space-le t₁ in
            ground
              (arith, le, tail-le t₂, parse_fields-Ensures f no_fields t₂ (omega (arith, le)) tt)

    parse_fields-Ensures :
        (f : ℕ) (result : Fields) (ts : Bytes)
        → 3 * length ts + 3 < f
        → WellFormedFields result
        → Ensures (GoodFields ts) (parse_fields libc f result ts)
    parse_fields-Ensures zero result ts h w = absurd (omega arith)
    parse_fields-Ensures (suc f) result ts h w =
        Ensures-throw_if (GoodFields ts) (not (peek ts == b'"')) runtime_error _ λ _.
          Ensures-bind (Consumes ts) (GoodFields ts) _ _ (parse_string-Consumes ts) λ (key, t₁) p₁.
            let le₁ = skip_space-le t₁ in
            Ensures-bind (Consumes (skip_space t₁)) (GoodFields ts) _ _
              (expect-Consumes b':' (skip_space t₁) (omega arith))
              λ (_, t₂) p₂.
                let le₂ = skip_space-le t₂ in
                Ensures-bind (GoodValue (skip_space t₂)) (GoodFields ts) _ _
                  (parse_value-Ensures f (skip_space t₂) (omega (arith, le₁, le₂)))
                  λ (v, t₃) p₃.
                    let le₃ = skip_space-le t₃ in
                    let w' = emplace-WellFormed key v result p₃.1 w in
                    let t₄ = skip_space t₃ in
                    Ensures-throw_if (GoodFields ts) (contains key result) runtime_error _ λ _.
                      Ensures-if (GoodFields ts) (peek t₄ == b'}')
                        (ok (emplace key v result, tail t₄)) _
                        (λ _. (omega (arith, le₁, le₂, le₃, tail-le t₄), w'))
                        λ _.
                          Ensures-bind (Consumes t₄) (GoodFields ts) _ _
                            (expect-Consumes b',' t₄ (omega arith))
                            λ (_, t₅) p₅.
                              let le₅ = skip_space-le t₅ in
                              Ensures-mono (GoodFields (skip_space t₅)) (GoodFields ts) _
                                (parse_fields-Ensures f (emplace key v result) (skip_space t₅)
                                  (omega (arith, le₁, le₂, le₃, le₅)) w')
                                λ _ r. (omega (arith, le₁, le₂, le₃, le₅), r.1)

  -- The parser ends on every input, with an exception or with a well-formed value.
  pub parse_sound : (text : Bytes) → Ensures IsWellFormed (parse libc text)
  unfolding parse
  parse_sound text =
      let le = skip_space-le text in
      Ensures-bind (GoodValue (skip_space text)) IsWellFormed _ _
        (parse_value-Ensures (4 * length text + 4) (skip_space text) (omega (arith, le)))
        λ (v, rest) p. ground arith
