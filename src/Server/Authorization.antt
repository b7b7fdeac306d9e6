-- ===== src/Server/Authorization.antt =====
-- The text helpers and the bearer check of tools/branchscore_server.cpp.
use Prim.Native.Nat.{bit_or, bit_xor}
use branchscore.Base.{
  ℕ, ◌+◌, ◌%◌, ◌^◌, ◌<◌, ◌≤◌, ◌≡◌, ◌≢◌, refl, sym, ap, ◌∙◌, ◌↔◌, Bool, true, false, not, ◌&&◌, ◌||◌,
  Option, none, some, [], ◌∷◌, ◌++◌, Bytes, codes, equal, leb, ◌==◌, if◌then◌else◌, length, arith,
  equal_iff, ==_iff, Option-cases, inl, inr, Bool-cases,
}
use branchscore.Base.Words.{bit_or-zero, bit_xor-zero, bit_xor_self, bit_xor-le}

-- `std::tolower` in the C locale
abbrev pub to_lower : ℕ → ℕ
to_lower c = if leb b'A' c && leb c b'Z' then c + 32 else c

-- `std::isspace` in the C locale
abbrev pub is_space : ℕ → Bool
is_space c = c == b' ' || (leb 9 c && leb c 13)

unfoldable pub lowercase : Bytes → Bytes
lowercase [] = []
lowercase (c ∷ cs) = to_lower c ∷ lowercase cs

abbrev pub is_empty : Bytes → Bool
is_empty [] = true
is_empty (c ∷ cs) = false

-- `first` of `trim`: behind the white space at the start
unfoldable pub trim_start : Bytes → Bytes
trim_start [] = []
trim_start (c ∷ cs) = let rest = trim_start cs in if is_space c then rest else c ∷ cs

-- `last` of `trim`: before the white space at the end
unfoldable pub trim_end : Bytes → Bytes
trim_end [] = []
trim_end (c ∷ cs) = let rest = trim_end cs in if is_space c && is_empty rest then [] else c ∷ rest

unfoldable pub trim : Bytes → Bytes
unfolding trim_start trim_end
trim value = trim_end (trim_start value)

-- The loop of `constant_time_equal`: a text that has ended reads as zeros.
unfoldable pub accumulate : ℕ → Bytes → Bytes → ℕ
accumulate difference [] [] = difference
accumulate difference (a ∷ left) [] = accumulate (bit_or difference (bit_xor a 0)) left []
accumulate difference [] (b ∷ right) = accumulate (bit_or difference (bit_xor 0 b)) [] right
accumulate difference (a ∷ left) (b ∷ right) =
    accumulate (bit_or difference (bit_xor a b)) left right

unfoldable pub constant_time_equal : Bytes → Bytes → Bool
unfolding accumulate
constant_time_equal left right =
    accumulate (bit_xor (length left) (length right) % 2 ^ 32) left right == 0

-- `value.find(delimiter)`, as what stands before it and behind it
unfoldable pub split_at : ℕ → Bytes → Option (Bytes × Bytes)
split_at delimiter [] = none
split_at delimiter (c ∷ cs) =
    let rest = split_at delimiter cs in
    if c == delimiter
    then some ([], cs)
    else elim rest [ none ↦ none | some (before, behind) ↦ some (c ∷ before, behind) ]

unfoldable pub authorized : Bytes → Bytes → Bool
unfolding lowercase trim constant_time_equal split_at
authorized value expected_token = elim (split_at b' ' value) [
  | none ↦ false
  | some (scheme, rest) ↦
      if not (equal (lowercase scheme) (codes "bearer"))
      then false
      else (let supplied = trim rest in
          not (is_empty supplied) && constant_time_equal supplied expected_token)
]

accumulate-zero : (d : ℕ) (l r : Bytes) → accumulate d l r ≡ 0 → d ≡ 0
unfolding accumulate
accumulate-zero d [] [] e = e
accumulate-zero d (a ∷ l) [] e =
    (bit_or-zero d (bit_xor a 0) (accumulate-zero (bit_or d (bit_xor a 0)) l [] e)).0
accumulate-zero d [] (b ∷ r) e =
    (bit_or-zero d (bit_xor 0 b) (accumulate-zero (bit_or d (bit_xor 0 b)) [] r e)).0
accumulate-zero d (a ∷ l) (b ∷ r) e =
    (bit_or-zero d (bit_xor a b) (accumulate-zero (bit_or d (bit_xor a b)) l r e)).0

accumulate-same_length : (d : ℕ) (l r : Bytes) → length l ≡ length r → accumulate d l r ≡ 0 → l ≡ r
unfolding accumulate
accumulate-same_length d [] [] h e = refl
accumulate-same_length d (a ∷ l) [] h e = absurd (omega (arith, h))
accumulate-same_length d [] (b ∷ r) h e = absurd (omega (arith, h))
accumulate-same_length d (a ∷ l) (b ∷ r) h e =
    let first =
      bit_xor-zero a b
        (bit_or-zero d (bit_xor a b) (accumulate-zero (bit_or d (bit_xor a b)) l r e)).1 in
    let rest = accumulate-same_length (bit_or d (bit_xor a b)) l r (omega (arith, h)) e in
    rw (first, rest) refl

accumulate_self : (l : Bytes) → accumulate 0 l l ≡ 0
unfolding accumulate
accumulate_self [] = refl
accumulate_self (a ∷ l) = rw (bit_xor_self a) (accumulate_self l)

-- For texts shorter than 2 ^ 31 bytes, `constant_time_equal` is true exactly on equal texts.
pub constant_time_equal_iff :
    (left right : Bytes)
    → length left < 2 ^ 31
    → length right < 2 ^ 31
    → (constant_time_equal left right ≡ true) ↔ (left ≡ right)
unfolding constant_time_equal
constant_time_equal_iff left right hl hr = (
  λ e.
      let d : ℕ = bit_xor (length left) (length right) % 2 ^ 32 in
      let nothing : accumulate d left right ≡ 0 = ground arith in
      let lengths = bit_xor-zero (length left) (length right) (
        omega
          (arith, accumulate-zero d left right nothing, bit_xor-le (length left) (length right))) in
      accumulate-same_length d left right lengths nothing,
  λ e. rw (e, bit_xor_self (length right), accumulate_self right) refl,
)

split_at_sound :
    (d : ℕ) (v before behind : Bytes)
    → split_at d v ≡ some (before, behind)
    → (v ≡ before ++ d ∷ behind) × (length behind < length v)
unfolding split_at
split_at_sound d [] before behind e = absurd (cc)
split_at_sound d (c ∷ cs) before behind e = elim (Bool-cases (c == d)) [
  | inl same ↦
      let cut : [] ≡ before = ground arith in
      let tail : cs ≡ behind = ground arith in
      (rw (sym cut, sym tail, (==_iff c d).0 same) refl, rw (sym tail) (omega arith))
  | inr other ↦ elim (Option-cases (split_at d cs)) [
    | inl nowhere ↦ absurd (ground arith)
    | inr ((before', behind'), later) ↦
        let cut : c ∷ before' ≡ before = ground arith in
        let tail : behind' ≡ behind = ground arith in
        let shorter = split_at_sound d cs before' behind' later in
        (
          rw (sym cut, sym tail) (ap (λ t. c ∷ t) shorter.0),
          rw (sym tail) (omega (arith, shorter.1)),
        )
  ]
]

length-trim_start : (v : Bytes) → length (trim_start v) ≤ length v
unfolding trim_start
length-trim_start [] = omega arith
length-trim_start (c ∷ cs) = ground (arith, length-trim_start cs)

length-trim_end : (v : Bytes) → length (trim_end v) ≤ length v
unfolding trim_end
length-trim_end [] = omega arith
length-trim_end (c ∷ cs) = ground (arith, length-trim_end cs)

length-trim : (v : Bytes) → length (trim v) ≤ length v
unfolding trim
length-trim v = omega (arith, length-trim_start v, length-trim_end (trim_start v))

nonempty : (v : Bytes) → is_empty v ≡ false → v ≢ []
nonempty [] h e = absurd (cc)
nonempty (c ∷ cs) h e = absurd (cc)

-- A value that `authorized` accepts is, for texts shorter than 2 ^ 31 bytes, a scheme that is
-- `bearer` in some case, a space, and the expected token with white space around it; and the token
-- is not empty.
pub authorized_sound :
    (value token : Bytes)
    → length value < 2 ^ 31
    → length token < 2 ^ 31
    → authorized value token ≡ true
    → (scheme : Bytes) × (rest : Bytes) × (value ≡ scheme ++ b' ' ∷ rest)
      × (lowercase scheme ≡ codes "bearer")
      × (trim rest ≡ token)
      × (token ≢ [])
unfolding authorized
authorized_sound value token hv ht e = elim (Option-cases (split_at b' ' value)) [
  | inl nowhere ↦ absurd (ground arith)
  | inr ((scheme, rest), cut) ↦
      let parts = split_at_sound b' ' value scheme rest cut in
      let bearer : equal (lowercase scheme) (codes "bearer") ≡ true = ground arith in
      let given : is_empty (trim rest) ≡ false = ground arith in
      let alike : constant_time_equal (trim rest) token ≡ true = ground arith in
      let same : trim rest ≡ token =
        (constant_time_equal_iff (trim rest) token (omega (arith, length-trim rest, parts.1)) ht).0
          alike in
      (
        scheme,
        rest,
        parts.0,
        (equal_iff (lowercase scheme) (codes "bearer")).0 bearer,
        same,
        λ nothing. nonempty (trim rest) given (same ∙ nothing),
      )
]
