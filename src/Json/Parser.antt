-- ===== src/Json/Parser.antt =====
-- The recursive descent of `json::parse`. The state is the input that is left.
-- `parse_value` and the loops below it take fuel, and so does the loop of `parse_string`; the fuel
-- that `parse` and `parse_string` hand out is more than any input needs.
use branchscore.Base.{
  ℕ, zero, suc, ◌+◌, ◌-◌, ◌*◌, ◌/◌, ◌%◌, Bool, true, false, not, ◌&&◌, ◌||◌, [], ◌∷◌, ◌++◌, Bytes,
  codes, ltb, leb, ◌==◌, if◌then◌else◌, length, tail,
}
use branchscore.Double.{Double, is_finite, Libc}
use branchscore.Json.Value.{
  Value, Items, Fields, null_value, boolean, number, string, array, object, no_items, item,
  no_fields, contains, emplace,
}
use branchscore.Result.{Result, ok, throw, out_of_fuel, runtime_error, throw_if, ◌>>=◌, ◌>>◌}

abbrev pub Parse : Type 0 → Type 0
Parse A = Bytes → Result (A × Bytes)

abbrev pub fail {ℓ} : {A : Type ℓ} → Result A
fail = throw runtime_error

abbrev pub is_space : ℕ → Bool
is_space c = c == b' ' || c == b'\t' || c == b'\n' || c == b'\r'

unfoldable pub skip_space : Bytes → Bytes
skip_space [] = []
skip_space (c ∷ cs) = if is_space c then skip_space cs else c ∷ cs

abbrev pub peek : Bytes → ℕ
peek [] = 0
peek (c ∷ cs) = c

unfoldable pub expect : ℕ → Parse (Unit {0})
expect c ts = if peek ts == c then ok (tt, tail ts) else fail

unfoldable pub parse_literal : Bytes → Parse (Unit {0})
parse_literal [] ts = ok (tt, ts)
parse_literal (c ∷ cs) [] = fail
parse_literal (c ∷ cs) (t ∷ ts) = let rest = parse_literal cs ts in if t == c then rest else fail

-- The masks and shifts of the source, on a code point below 2 ^ 32.
unfoldable pub append_utf8 : Bytes → ℕ → Result Bytes
append_utf8 result c =
    if leb c 0x7f
    then ok (result ++ c ∷ [])
    else if leb c 0x7ff
    then ok (result ++ (0xc0 + c / 64) ∷ (0x80 + c % 64) ∷ [])
    else if leb c 0xffff
    then ok (result ++ (0xe0 + c / 4096) ∷ (0x80 + c / 64 % 64) ∷ (0x80 + c % 64) ∷ [])
    else if leb c 0x10ffff
    then ok (
        result
        ++ (0xf0 + c / 262144)
          ∷ (0x80 + c / 4096 % 64)
          ∷ (0x80 + c / 64 % 64)
          ∷ (0x80 + c % 64)
          ∷ [])
    else fail

unfoldable pub hex_digit : ℕ → Result ℕ
hex_digit c =
    if leb b'0' c && leb c b'9'
    then ok (c - b'0')
    else if leb b'a' c && leb c b'f'
    then ok (c - b'a' + 10)
    else if leb b'A' c && leb c b'F'
    then ok (c - b'A' + 10)
    else fail

-- The loop of four rounds, on the value so far.
unfoldable pub hex_digits : ℕ → ℕ → Parse ℕ
hex_digits zero value ts = ok (value, ts)
hex_digits (suc n) value [] = fail
hex_digits (suc n) value (c ∷ cs) = do d ← hex_digit c; hex_digits n (value * 16 + d) cs

unfoldable pub parse_hex_quad : Parse ℕ
unfolding hex_digits
parse_hex_quad ts = if ltb (length ts) 4 then fail else hex_digits 4 0 ts

-- Behind a high surrogate: the six bytes of a low one.
unfoldable pub parse_low_surrogate : ℕ → Parse ℕ
unfolding parse_hex_quad
parse_low_surrogate first ts =
    if ltb (length ts) 6 || not (peek ts == b'\\') || not (peek (tail ts) == b'u')
    then fail
    else (parse_hex_quad (tail (tail ts)) >>= λ (second, rest).
        if ltb second 0xdc00 || ltb 0xdfff second
        then fail
        else ok (0x10000 + (first - 0xd800) * 1024 + (second - 0xdc00), rest))

-- The case `u` of an escape.
unfoldable pub parse_unicode_escape : Parse ℕ
unfolding parse_hex_quad
parse_unicode_escape ts = parse_hex_quad ts >>= λ (first, rest).
    if leb 0xd800 first && leb first 0xdbff
    then parse_low_surrogate first rest
    else if leb 0xdc00 first && leb first 0xdfff
    then fail
    else ok (first, rest)

-- What an escape without `u` stands for.
unfoldable pub simple_escape : ℕ → Result ℕ
simple_escape c =
    if c == b'"'
    then ok b'"'
    else if c == b'\\'
    then ok b'\\'
    else if c == b'/'
    then ok b'/'
    else if c == b'b'
    then ok 8
    else if c == b'f'
    then ok 12
    else if c == b'n'
    then ok b'\n'
    else if c == b'r'
    then ok b'\r'
    else if c == b't'
    then ok b'\t'
    else fail

-- The switch behind a backslash, which adds to `result`.
unfoldable pub parse_escape : Bytes → Parse Bytes
unfolding parse_unicode_escape simple_escape append_utf8
parse_escape result [] = fail
parse_escape result (c ∷ cs) =
    let unicode =
      (parse_unicode_escape cs >>= λ (codepoint, rest).
      append_utf8 result codepoint >>= λ result'. ok (result', rest)) in
    if c == b'u' then unicode else (simple_escape c >>= λ byte. ok (result ++ byte ∷ [], cs))

-- The loop of `parse_string`, behind the opening quote.
unfoldable pub string_body : ℕ → Bytes → Parse Bytes
string_body zero result ts = out_of_fuel
string_body (suc f) result [] = fail
string_body (suc f) result (c ∷ cs) =
    let plain = string_body f (result ++ c ∷ []) cs in
    let escaped = (parse_escape result cs >>= λ (result', rest). string_body f result' rest) in
    if c == b'"'
    then ok (result, cs)
    else if ltb c 0x20
    then fail
    else if not (c == b'\\')
    then plain
    else escaped

unfoldable pub parse_string : Parse Bytes
unfolding string_body expect
parse_string ts = do (_, rest) ← expect b'"' ts; string_body (suc (length rest)) [] rest

abbrev pub is_digit : ℕ → Bool
is_digit c = leb b'0' c && leb c b'9'

-- `while (peek() >= '0' && peek() <= '9') ++position_;`: what is passed, and what is left
unfoldable pub digits : Bytes → Bytes × Bytes
digits [] = ([], [])
digits (c ∷ cs) = let more = digits cs in if is_digit c then (c ∷ more.0, more.1) else ([], c ∷ cs)

-- At least one digit.
unfoldable pub some_digits : Parse Bytes
unfolding digits
some_digits ts = if is_digit (peek ts) then ok (digits ts) else fail

unfoldable pub scan_sign : Bytes → Bytes × Bytes
scan_sign ts = if peek ts == b'-' then (b'-' ∷ [], tail ts) else ([], ts)

unfoldable pub scan_integer : Parse Bytes
unfolding digits
scan_integer ts =
    if peek ts == b'0'
    then if is_digit (peek (tail ts)) then fail else ok (b'0' ∷ [], tail ts)
    else if ltb (peek ts) b'1' || ltb b'9' (peek ts)
    then fail
    else ok (digits ts)

unfoldable pub scan_fraction : Parse Bytes
unfolding some_digits
scan_fraction ts =
    if peek ts == b'.'
    then (some_digits (tail ts) >>= λ (ds, rest). ok (b'.' ∷ ds, rest))
    else ok ([], ts)

-- The optional sign of an exponent.
unfoldable pub scan_exponent_sign : Bytes → Bytes × Bytes
scan_exponent_sign ts =
    if peek ts == b'+' || peek ts == b'-' then (peek ts ∷ [], tail ts) else ([], ts)

unfoldable pub scan_exponent : Parse Bytes
unfolding some_digits scan_exponent_sign
scan_exponent ts =
    let (sign, unsigned) = scan_exponent_sign (tail ts) in
    if peek ts == b'e' || peek ts == b'E'
    then (some_digits unsigned >>= λ (ds, rest). ok (peek ts ∷ (sign ++ ds), rest))
    else ok ([], ts)

-- The text of a number, up to where `parse_number` stops.
unfoldable pub scan_number : Parse Bytes
unfolding scan_sign scan_integer scan_fraction scan_exponent
scan_number ts =
    let (sign, unsigned) = scan_sign ts in
    do
      (integer, t₁) ← scan_integer unsigned
      (fraction, t₂) ← scan_fraction t₁
      (exponent, rest) ← scan_exponent t₂
      ok (sign ++ (integer ++ (fraction ++ exponent)), rest)

abbrev is_empty : Bytes → Bool
is_empty [] = true
is_empty (c ∷ cs) = false

module _ (libc : Libc) where
  -- `std::strtod` has read all of the text, and the value is finite.
  unfoldable pub read_number : Bytes → Result Double
  unfolding is_finite
  read_number text =
      let (value, unread) = libc.strtod text in
      if ltb (length unread) (length text) && is_empty unread && is_finite value
      then ok value
      else fail

  unfoldable pub parse_number : Parse Double
  unfolding scan_number read_number
  parse_number ts = do (text, rest) ← scan_number ts; value ← read_number text; ok (value, rest)

  -- The branch of `parse_value` on its first byte, but for arrays and objects.
  unfoldable pub parse_scalar : Parse Value
  parse_scalar ts =
      if peek ts == b'n'
      then (parse_literal (codes "null") ts >>= λ (_, rest). ok (null_value, rest))
      else if peek ts == b't'
      then (parse_literal (codes "true") ts >>= λ (_, rest). ok (boolean true, rest))
      else if peek ts == b'f'
      then (parse_literal (codes "false") ts >>= λ (_, rest). ok (boolean false, rest))
      else if peek ts == b'"'
      then (parse_string ts >>= λ (s, rest). ok (string s, rest))
      else if peek ts == b'-' || is_digit (peek ts)
      then (parse_number ts >>= λ (d, rest). ok (number d, rest))
      else fail

  unfoldable mutual
    pub parse_value : ℕ → Parse Value
    parse_value zero ts = out_of_fuel
    parse_value (suc f) ts =
        let in_array = parse_array f ts in
        let in_object = parse_object f ts in
        if peek ts == b'[' then in_array else if peek ts == b'{' then in_object else parse_scalar ts

    pub parse_array : ℕ → Parse Value
    parse_array zero ts = out_of_fuel
    parse_array (suc f) ts = do
      (_, t₁) ← expect b'[' ts
      let t₂ = skip_space t₁
      let more = (parse_items f t₂ >>= λ (xs, rest). ok (array xs, rest))
      if peek t₂ == b']' then ok (array no_items, tail t₂) else more

    -- The loop of `parse_array`.
    pub parse_items : ℕ → Parse Items
    parse_items zero ts = out_of_fuel
    parse_items (suc f) ts = do
      (v, t₁) ← parse_value f ts
      let t₂ = skip_space t₁
      let more =
          (expect b',' t₂ >>= λ (_, t₃).
          parse_items f (skip_space t₃) >>= λ (xs, rest). ok (item v xs, rest))
      if peek t₂ == b']' then ok (item v no_items, tail t₂) else more

    pub parse_object : ℕ → Parse Value
    parse_object zero ts = out_of_fuel
    parse_object (suc f) ts = do
      (_, t₁) ← expect b'{' ts
      let t₂ = skip_space t₁
      let more = (parse_fields f no_fields t₂ >>= λ (fs, rest). ok (object fs, rest))
      if peek t₂ == b'}' then ok (object no_fields, tail t₂) else more

    -- The loop of `parse_object`, on the fields so far.
    pub parse_fields : ℕ → Fields → Parse Fields
    parse_fields zero result ts = out_of_fuel
    parse_fields (suc f) result ts = do
      throw_if (not (peek ts == b'"')) runtime_error
      (key, t₁) ← parse_string ts
      (_, t₂) ← expect b':' (skip_space t₁)
      (v, t₃) ← parse_value f (skip_space t₂)
      throw_if (contains key result) runtime_error
      let result' = emplace key v result
      let t₄ = skip_space t₃
      let more = (expect b',' t₄ >>= λ (_, t₅). parse_fields f result' (skip_space t₅))
      if peek t₄ == b'}' then ok (result', tail t₄) else more

  unfoldable pub parse_document : ℕ → Bytes → Result Value
  unfolding skip_space
  parse_document f text = do
    (v, rest) ← parse_value f (skip_space text)
    if is_empty (skip_space rest) then ok v else fail

  unfoldable pub parse : Bytes → Result Value
  unfolding parse_document
  parse text = parse_document (4 * length text + 4) text
