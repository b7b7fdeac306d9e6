-- ===== src/Json/Text.antt =====
-- Strings: what `append_escaped` writes, `parse_string` reads back.
use branchscore.Base.{
  ℕ, suc, zero, ◌+◌, ◌*◌, ◌/◌, ◌%◌, ◌<◌, ◌≤◌, ◌≡◌, ◌∙◌, ◌≢◌, refl, [], ◌∷◌, ◌++◌, append_assoc,
  append-nil, Bytes, arith, length, length-append,
}
use branchscore.Json.Parser.{
  hex_digit, hex_digits, parse_hex_quad, parse_unicode_escape, parse_escape, string_body,
  parse_string,
}
use branchscore.Json.Printer.{escape_byte, escape_bytes, hex}
use branchscore.Result.{ok}

hex_digit-hex : (d : ℕ) → d < 16 → hex_digit (hex d) ≡ ok d
unfolding hex_digit hex
hex_digit-hex d h = ground arith

hex_digit-zero : hex_digit b'0' ≡ ok 0
unfolding hex_digit
hex_digit-zero = refl

hex_digits-hex :
    (a b : ℕ) (ts : Bytes)
    → a < 16
    → b < 16
    → hex_digits 4 0 (b'0' ∷ b'0' ∷ hex a ∷ hex b ∷ ts) ≡ ok (a * 16 + b, ts)
unfolding hex_digits
hex_digits-hex a b ts h k = rw (hex_digit-zero, hex_digit-hex a h, hex_digit-hex b k) (ground arith)

parse_unicode_escape-hex :
    (a b : ℕ) (ts : Bytes)
    → a < 2
    → b < 16
    → parse_unicode_escape (b'0' ∷ b'0' ∷ hex a ∷ hex b ∷ ts) ≡ ok (a * 16 + b, ts)
unfolding parse_unicode_escape parse_hex_quad
parse_unicode_escape-hex a b ts h k = ground (arith, hex_digits-hex a b ts (omega arith) k)

control_escape :
    (f c : ℕ) (acc ts : Bytes)
    → c < 32
    → string_body (suc f) acc (b'\\' ∷ b'u' ∷ b'0' ∷ b'0' ∷ hex (c / 16) ∷ hex (c % 16) ∷ ts)
      ≡ string_body f (acc ++ c ∷ []) ts
unfolding string_body parse_escape
control_escape f c acc ts h =
    ground (arith, parse_unicode_escape-hex (c / 16) (c % 16) ts (omega arith) (omega arith))

-- A byte that needs no escape; `e` escapes `c`.
plain_byte :
    (f c : ℕ) (acc ts : Bytes)
    → 31 < c
    → c ≢ b'"'
    → c ≢ b'\\'
    → string_body (suc f) acc (c ∷ ts) ≡ string_body f (acc ++ c ∷ []) ts
unfolding string_body
plain_byte f c acc ts h q b = ground arith

abbrev Escapes : ℕ → ℕ → Type 0
Escapes e c =
    (f : ℕ) (acc ts : Bytes)
    → string_body (suc f) acc (b'\\' ∷ e ∷ ts) ≡ string_body f (acc ++ c ∷ []) ts

escapes :
    Escapes b'"' b'"'
    × Escapes b'\\' b'\\'
    × Escapes b'b' 8
    × Escapes b'f' 12
    × Escapes b'n' b'\n'
    × Escapes b'r' b'\r'
    × Escapes b't' b'\t'
unfolding string_body parse_escape
escapes = (
  λ f acc ts. refl,
  λ f acc ts. refl,
  λ f acc ts. refl,
  λ f acc ts. refl,
  λ f acc ts. refl,
  λ f acc ts. refl,
  λ f acc ts. refl,
)

string_body-escape_byte :
    (f c : ℕ) (acc ts : Bytes)
    → string_body (suc f) acc (escape_byte c ++ ts) ≡ string_body f (acc ++ c ∷ []) ts
unfolding escape_byte
string_body-escape_byte f c acc ts = ground (
  arith,
  escapes.0 f acc ts,
  escapes.1 f acc ts,
  escapes.2 f acc ts,
  escapes.3 f acc ts,
  escapes.4 f acc ts,
  escapes.5 f acc ts,
  escapes.6 f acc ts,
  control_escape f c acc ts,
  plain_byte f c acc ts,
)

length-escape_byte : (c : ℕ) → 0 < length (escape_byte c)
unfolding escape_byte
length-escape_byte c = ground arith

pub length-escape_bytes : (s : Bytes) → length s ≤ length (escape_bytes s)
unfolding escape_bytes
length-escape_bytes [] = omega arith
length-escape_bytes (c ∷ cs) = omega (
  arith,
  length-append (escape_byte c) (escape_bytes cs),
  length-escape_byte c,
  length-escape_bytes cs,
)

string_body-escape_bytes :
    (f : ℕ) (s acc rest : Bytes)
    → length s < f
    → string_body f acc (escape_bytes s ++ (b'"' ∷ rest)) ≡ ok (acc ++ s, rest)
unfolding escape_bytes
string_body-escape_bytes zero s acc rest h = absurd (omega arith)
string_body-escape_bytes (suc f) [] acc rest h = rw append-nil (unfold string_body in refl)
string_body-escape_bytes (suc f) (c ∷ cs) acc rest h =
    rw (append_assoc (escape_byte c) (escape_bytes cs) (b'"' ∷ rest)) (
      string_body-escape_byte f c acc (escape_bytes cs ++ (b'"' ∷ rest))
      ∙ string_body-escape_bytes f cs (acc ++ c ∷ []) rest (omega arith)
      ∙ rw append_assoc)

-- Whatever bytes a string holds, it is read back, and reading stops behind its closing quote.
pub parse_string-escaped :
    (s rest : Bytes) → parse_string (b'"' ∷ (escape_bytes s ++ (b'"' ∷ rest))) ≡ ok (s, rest)
unfolding parse_string
parse_string-escaped s rest =
    string_body-escape_bytes (suc (length (escape_bytes s ++ (b'"' ∷ rest)))) s [] rest
      (omega (arith, length-append (escape_bytes s) (b'"' ∷ rest), length-escape_bytes s))
