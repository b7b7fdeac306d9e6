-- ===== src/Json/Number.antt =====
-- The grammar of a JSON number, and `parse_number` of src/json.cpp on a text of it.
use branchscore.Base.{
  ℕ, ◌≡◌, ◌⊎◌, inl, inr, refl, ◌||◌, true, false, [], ◌∷◌, ◌++◌, append_assoc, Bytes, arith, leb,
  ◌==◌, length, ◌<◌,
}
use branchscore.Double.{Double, is_finite, Libc}
use branchscore.Json.Parser.{
  peek, is_digit, digits, some_digits, scan_sign, scan_integer, scan_fraction, scan_exponent_sign,
  scan_exponent, scan_number, parse_number,
}
use branchscore.Result.{ok}

abbrev pub AllDigits : Bytes → Type 0
AllDigits [] = Unit
AllDigits (c ∷ cs) = (is_digit c ≡ true) × AllDigits cs

-- One digit or more.
abbrev Digits : Bytes → Type 0
Digits [] = ⊥
Digits (c ∷ cs) = AllDigits (c ∷ cs)

abbrev Sign : Bytes → Type 0
Sign [] = Unit
Sign (c ∷ cs) = (c ≡ b'-') × (cs ≡ [])

-- No leading zero.
abbrev Integer : Bytes → Type 0
Integer [] = ⊥
Integer (c ∷ cs) = ((c ≡ b'0') × (cs ≡ [])) ⊎ ((leb b'1' c ≡ true) × AllDigits (c ∷ cs))

abbrev Fraction : Bytes → Type 0
Fraction [] = Unit
Fraction (c ∷ cs) = (c ≡ b'.') × Digits cs

abbrev ExponentSign : Bytes → Type 0
ExponentSign [] = Unit
ExponentSign (c ∷ cs) = ((c ≡ b'+') ⊎ (c ≡ b'-')) × (cs ≡ [])

-- An exponent, or none.
pub data Exponent : Bytes → Type 0 where
  no_exponent : {t : Bytes} → t ≡ [] → Exponent t
  exponent :
      {t : Bytes} (e : ℕ) (sign ds : Bytes)
      → (e ≡ b'e') ⊎ (e ≡ b'E')
      → ExponentSign sign
      → Digits ds
      → t ≡ e ∷ (sign ++ ds)
      → Exponent t

-- -? (0 | [1-9][0-9]*) (. [0-9]+)? ([eE] [+-]? [0-9]+)?
pub record IsNumber (text : Bytes) : Type 0 where
  pub sign : Bytes
  pub integer : Bytes
  pub fraction : Bytes
  pub exponent_part : Bytes
  pub splits : text ≡ sign ++ (integer ++ (fraction ++ exponent_part))
  pub sign_good : Sign sign
  pub integer_good : Integer integer
  pub fraction_good : Fraction fraction
  pub exponent_good : Exponent exponent_part

-- What follows a number is no part of one.
pub record Delimits (rest : Bytes) : Type 0 where
  pub no_digit : is_digit (peek rest) ≡ false
  pub no_point : (peek rest == b'.') ≡ false
  pub no_e : (peek rest == b'e') ≡ false
  pub no_E : (peek rest == b'E') ≡ false

digits-append :
    (ds rest : Bytes)
    → AllDigits ds
    → is_digit (peek rest) ≡ false
    → digits (ds ++ rest) ≡ (ds, rest)
unfolding digits
digits-append [] [] a h = refl
digits-append [] (c ∷ cs) a h = ground arith
digits-append (d ∷ ds) rest a h = ground (arith, digits-append ds rest a.1 h)

some_digits-append :
    (ds rest : Bytes)
    → Digits ds
    → is_digit (peek rest) ≡ false
    → some_digits (ds ++ rest) ≡ ok (ds, rest)
unfolding some_digits
some_digits-append [] rest a h = elim a [ ]
some_digits-append (d ∷ ds) rest a h = ground (arith, digits-append (d ∷ ds) rest a h)

scan_sign-append :
    (sign rest : Bytes)
    → Sign sign
    → (peek rest == b'-') ≡ false
    → scan_sign (sign ++ rest) ≡ (sign, rest)
unfolding scan_sign
scan_sign-append [] rest s h = ground arith
scan_sign-append (c ∷ cs) rest s h = rw s.0 (rw s.1 refl)

scan_integer-append :
    (i rest : Bytes)
    → Integer i
    → is_digit (peek rest) ≡ false
    → scan_integer (i ++ rest) ≡ ok (i, rest)
unfolding scan_integer
scan_integer-append [] rest s h = elim s [ ]
scan_integer-append (c ∷ cs) rest (inl (e, n)) h = rw (e, n, h) (ground arith)
scan_integer-append (c ∷ cs) rest (inr (l, a)) h = ground (arith, digits-append (c ∷ cs) rest a h)

scan_fraction-append :
    (t rest : Bytes)
    → Fraction t
    → (peek rest == b'.') ≡ false
    → is_digit (peek rest) ≡ false
    → scan_fraction (t ++ rest) ≡ ok (t, rest)
unfolding scan_fraction
scan_fraction-append [] rest s h n = ground arith
scan_fraction-append (c ∷ cs) rest s h n = ground (arith, some_digits-append cs rest s.1 n)

scan_exponent_sign-append :
    (s ds rest : Bytes)
    → ExponentSign s
    → Digits ds
    → scan_exponent_sign (s ++ (ds ++ rest)) ≡ (s, ds ++ rest)
unfolding scan_exponent_sign
scan_exponent_sign-append [] [] rest g d = elim d [ ]
scan_exponent_sign-append [] (c ∷ cs) rest g d = ground arith
scan_exponent_sign-append (c ∷ cs) ds rest g d = ground arith

scan_exponent-append :
    (t rest : Bytes) → Exponent t → Delimits rest → scan_exponent (t ++ rest) ≡ ok (t, rest)
unfolding scan_exponent
scan_exponent-append t rest (no_exponent n) d = rw n (ground arith)
scan_exponent-append t rest (exponent e sign ds m s g p) d =
    rw (p, append_assoc)
      (ground (
        arith,
        scan_exponent_sign-append sign ds rest s g,
        some_digits-append ds rest g d.no_digit,
      ))

peek-Integer : (i rest : Bytes) → Integer i → is_digit (peek (i ++ rest)) ≡ true
peek-Integer [] rest s = elim s [ ]
peek-Integer (c ∷ cs) rest (inl (e, n)) = rw e
peek-Integer (c ∷ cs) rest (inr (l, a)) = a.0

peek-Exponent :
    (t rest : Bytes)
    → Exponent t
    → Delimits rest
    → (is_digit (peek (t ++ rest)) ≡ false) × ((peek (t ++ rest) == b'.') ≡ false)
peek-Exponent t rest (no_exponent n) d = rw n (d.no_digit, d.no_point)
peek-Exponent t rest (exponent e sign ds m s g p) d = rw p (ground arith, ground arith)

peek-Fraction :
    (t rest : Bytes)
    → Fraction t
    → is_digit (peek rest) ≡ false
    → is_digit (peek (t ++ rest)) ≡ false
peek-Fraction [] rest f h = h
peek-Fraction (c ∷ cs) rest f h = rw f.0

digit-ne-minus : (c : ℕ) → is_digit c ≡ true → (c == b'-') ≡ false
digit-ne-minus c h = ground arith

-- The scanner passes the whole of a number, and stops behind it.
pub scan_number-append :
    (t rest : Bytes) → IsNumber t → Delimits rest → scan_number (t ++ rest) ≡ ok (t, rest)
unfolding scan_number
scan_number-append t rest n d =
    let behind_fraction = peek-Exponent n.exponent_part rest n.exponent_good d in
    let behind_integer =
      peek-Fraction n.fraction (n.exponent_part ++ rest) n.fraction_good behind_fraction.0 in
    let first = peek-Integer n.integer (n.fraction ++ (n.exponent_part ++ rest)) n.integer_good in
    let s₀ =
      scan_sign-append n.sign (n.integer ++ (n.fraction ++ (n.exponent_part ++ rest))) n.sign_good
        (digit-ne-minus _ first) in
    let s₁ =
      scan_integer-append n.integer (n.fraction ++ (n.exponent_part ++ rest)) n.integer_good
        behind_integer in
    let s₂ =
      scan_fraction-append n.fraction (n.exponent_part ++ rest) n.fraction_good behind_fraction.1
        behind_fraction.0 in
    let s₃ = scan_exponent-append n.exponent_part rest n.exponent_good d in
    simp (n.splits, append_assoc, s₀, s₁, s₂, s₃)

-- A number is not empty: it begins with a minus or a digit.
pub peek-IsNumber :
    (t rest : Bytes) → IsNumber t → (peek (t ++ rest) == b'-') || is_digit (peek (t ++ rest)) ≡ true
peek-IsNumber t rest n = rw n.splits (go n.sign n.integer n.sign_good n.integer_good)
  where
    go :
        (s i : Bytes)
        → Sign s
        → Integer i
        → (peek ((s ++ (i ++ (n.fraction ++ n.exponent_part))) ++ rest) == b'-')
            || is_digit (peek ((s ++ (i ++ (n.fraction ++ n.exponent_part))) ++ rest))
          ≡ true
    go [] [] g h = elim h [ ]
    go [] (c ∷ cs) g h = ground arith
    go (c ∷ cs) i g h = rw g.0

-- What the program relies on of the C and C++ libraries: with 17 digits a finite value is written as
-- a number that reads back as the same value.
pub record PrintsNumbers (libc : Libc) : Type 0 where
  pub printed : (d : Double) → is_finite d ≡ true → IsNumber (libc.print_double d)
  pub reads_back : (d : Double) → is_finite d ≡ true → libc.strtod (libc.print_double d) ≡ (d, [])

IsNumber-pos : (t : Bytes) → IsNumber t → 0 < length t
IsNumber-pos [] n = absurd (ground (arith, peek-IsNumber [] [] n))
IsNumber-pos (c ∷ cs) n = omega arith

pub parse_number-print :
    (libc : Libc)
    → PrintsNumbers libc
    → (d : Double) (rest : Bytes) → is_finite d ≡ true
    → Delimits rest
    → parse_number libc (libc.print_double d ++ rest) ≡ ok (d, rest)
unfolding parse_number
parse_number-print libc p d rest f r = ground (
  arith,
  scan_number-append (libc.print_double d) rest (p.printed d f) r,
  p.reads_back d f,
  IsNumber-pos (libc.print_double d) (p.printed d f),
)
