-- ===== src/Tokenizer/Split/Find.antt =====
-- Where `tokenize` of src/tokenizer.cpp finds special tokens in a text of two parts.
use branchscore.Base.{
  ℕ, zero, suc, ◌+◌, ◌<◌, ◌≡◌, refl, ap, ◌∙◌, true, false, Option, none, some, List, [], ◌∷◌, ◌++◌,
  Bytes, Bool-cases, inl, inr, ltb, length, drop, starts_with, find_text, arith,
}
use mathlib.Core.Option
use branchscore.Tokenizer.Segments.{earlier, first_match}
use branchscore.Tokenizer.Spelling.Text.{AllSpelled, one_spelled}
use branchscore.Tokenizer.Vocabulary.{SpecialToken}

-- An occurrence of the pattern that begins in the first part lies in it.
abbrev pub Apart : Bytes → Bytes → Bytes → Type 0
Apart pattern [] behind = Unit
Apart pattern (c ∷ cs) behind =
    (starts_with pattern (c ∷ cs ++ behind) ≡ true → starts_with pattern (c ∷ cs) ≡ true)
    × Apart pattern cs behind

pub Apart-drop :
    (pattern text behind : Bytes) (n : ℕ)
    → Apart pattern text behind
    → Apart pattern (drop n text) behind
unfolding drop
Apart-drop pattern text behind zero h = h
Apart-drop pattern [] behind (suc n) h = h
Apart-drop pattern (c ∷ cs) behind (suc n) h = Apart-drop pattern cs behind n h.1

pub starts_with-extend :
    (pattern text behind : Bytes)
    → starts_with pattern text ≡ true
    → starts_with pattern (text ++ behind) ≡ true
unfolding starts_with
starts_with-extend [] text behind h = refl
starts_with-extend (p ∷ ps) [] behind h = absurd (cc)
starts_with-extend (p ∷ ps) (c ∷ cs) behind h = ground (arith, starts_with-extend ps cs behind)

-- What is found in the first part, or else in the second
abbrev pub or_behind : Option ℕ → ℕ → Option ℕ → Option ℕ
or_behind (some n) size o = some n
or_behind none size none = none
or_behind none size (some n) = some (size + n)

or_behind-suc :
    (a : Option ℕ) (size : ℕ) (b : Option ℕ)
    → Option.map suc (or_behind a size b) ≡ or_behind (Option.map suc a) (suc size) b
or_behind-suc (some n) size b = refl
or_behind-suc none size none = refl
or_behind-suc none size (some n) = ap some (omega arith)

or_behind-zero : (b : Option ℕ) → b ≡ or_behind none 0 b
or_behind-zero none = refl
or_behind-zero (some n) = ap some (omega arith)

find_text-none : (pattern : Bytes) → 0 < length pattern → find_text pattern [] ≡ none
unfolding find_text starts_with
find_text-none [] h = absurd (omega (arith, h))
find_text-none (p ∷ ps) h = refl

pub find_text-or_behind :
    (pattern text behind : Bytes)
    → 0 < length pattern
    → Apart pattern text behind
    → find_text pattern (text ++ behind)
      ≡ or_behind (find_text pattern text) (length text) (find_text pattern behind)
unfolding find_text
find_text-or_behind pattern [] behind l h =
    rw (find_text-none pattern l) (or_behind-zero (find_text pattern behind))
find_text-or_behind pattern (c ∷ cs) behind l h =
    elim (Bool-cases (starts_with pattern (c ∷ cs ++ behind))) [
      | inl here ↦ rw (here, h.0 here) refl
      | inr other ↦
          let not_here : starts_with pattern (c ∷ cs) ≡ false =
            elim (Bool-cases (starts_with pattern (c ∷ cs))) [
              | inl there ↦
                  absurd (ground (arith, starts_with-extend pattern (c ∷ cs) behind there))
              | inr gone ↦ gone
            ] in
          rw (other, not_here)
            (ap (Option.map suc) (find_text-or_behind pattern cs behind l h.1)
              ∙ or_behind-suc (find_text pattern cs) (length cs) (find_text pattern behind))
    ]

-- A position inside
abbrev pub IsBelow : ℕ → Option ℕ → Type 0
IsBelow size none = Unit
IsBelow size (some n) = n < size

IsBelow-suc : (size : ℕ) (o : Option ℕ) → IsBelow size o → IsBelow (suc size) (Option.map suc o)
IsBelow-suc size none h = tt
IsBelow-suc size (some n) h = omega (arith, h)

pub find_text-IsBelow :
    (pattern text : Bytes) → 0 < length pattern → IsBelow (length text) (find_text pattern text)
unfolding find_text
find_text-IsBelow pattern [] l = rw (find_text-none pattern l) tt
find_text-IsBelow pattern (c ∷ cs) l = elim (Bool-cases (starts_with pattern (c ∷ cs))) [
  | inl here ↦ rw here (omega arith)
  | inr other ↦
      rw other (IsBelow-suc (length cs) (find_text pattern cs) (find_text-IsBelow pattern cs l))
]

-- A match in the first part, or else in the second
abbrev pub beside :
    Option (ℕ × SpecialToken) → ℕ → Option (ℕ × SpecialToken) → Option (ℕ × SpecialToken)
beside (some found) size o = some found
beside none size none = none
beside none size (some (n, token)) = some (size + n, token)

abbrev IsInside : ℕ → Option (ℕ × SpecialToken) → Type 0
IsInside size none = Unit
IsInside size (some (n, token)) = n < size

earlier-IsInside :
    (token : SpecialToken) (size : ℕ) (found : Option ℕ) (best : Option (ℕ × SpecialToken))
    → IsBelow size found
    → IsInside size best
    → IsInside size (earlier token found best)
unfolding earlier
earlier-IsInside token size none best f b = b
earlier-IsInside token size (some n) none f b = f
earlier-IsInside token size (some n) (some (m, other)) f b = elim (Bool-cases (ltb n m)) [
  | inl before ↦ rw before f
  | inr behind ↦ rw behind b
]

earlier-beside :
    (token : SpecialToken) (size : ℕ) (f g : Option ℕ) (a b : Option (ℕ × SpecialToken))
    → IsBelow size f
    → IsInside size a
    → earlier token (or_behind f size g) (beside a size b)
      ≡ beside (earlier token f a) size (earlier token g b)
unfolding earlier
earlier-beside token size none none none b hf ha = refl
earlier-beside token size none (some j) none none hf ha = refl
earlier-beside token size none (some j) none (some (i, u)) hf ha = elim (Bool-cases (ltb j i)) [
  | inl before ↦
      let shifted : ltb (size + j) (size + i) ≡ true = ground arith in rw (before, shifted) refl
  | inr behind ↦
      let shifted : ltb (size + j) (size + i) ≡ false = ground arith in rw (behind, shifted) refl
]
earlier-beside token size none none (some (m, t)) b hf ha = refl
earlier-beside token size none (some j) (some (m, t)) b hf ha =
    let behind : ltb (size + j) m ≡ false = ground (arith, ha) in rw behind refl
earlier-beside token size (some n) g none none hf ha = refl
earlier-beside token size (some n) g none (some (i, u)) hf ha =
    let before : ltb n (size + i) ≡ true = ground (arith, hf) in rw before refl
earlier-beside token size (some n) g (some (m, t)) b hf ha = elim (Bool-cases (ltb n m)) [
  | inl before ↦ rw before refl
  | inr behind ↦ rw behind refl
]

-- No special token spans the boundary of the two parts.
pub data AllApart (text behind : Bytes) : List SpecialToken → Type 0 where
  none_apart : AllApart text behind []
  one_apart :
      (token : SpecialToken) (tokens : List SpecialToken)
      → Apart token.text text behind
      → AllApart text behind tokens
      → AllApart text behind (token ∷ tokens)

pub first_match-beside :
    (text behind : Bytes) (tokens : List SpecialToken) (a b : Option (ℕ × SpecialToken))
    → AllSpelled tokens
    → AllApart text behind tokens
    → IsInside (length text) a
    → first_match true (text ++ behind) tokens (beside a (length text) b)
      ≡ beside (first_match true text tokens a) (length text) (first_match true behind tokens b)
unfolding first_match
first_match-beside text behind [] a b spelled apart ha = refl
first_match-beside text behind (t ∷ ts) a b (one_spelled u us l spelled) (one_apart v vs h apart)
      ha =
    let f = find_text t.text text in
    let g = find_text t.text behind in
    let inside = find_text-IsBelow t.text text l in
    let best =
      ap (λ o. earlier t o (beside a (length text) b)) (find_text-or_behind t.text text behind l h)
      ∙ earlier-beside t (length text) f g a b inside ha in
    ap (first_match true (text ++ behind) ts) best
    ∙ first_match-beside text behind ts (earlier t f a) (earlier t g b) spelled apart
        (earlier-IsInside t (length text) f a inside ha)
