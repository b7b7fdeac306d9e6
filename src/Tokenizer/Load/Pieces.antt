-- ===== src/Tokenizer/Load/Pieces.antt =====
-- The table of pieces that `from_gguf` of src/tokenizer.cpp builds inverts the list of pieces.
use branchscore.Base.{
  ℕ, zero, suc, ◌+◌, ◌≤◌, ◌≡◌, ◌⊎◌, inl, inr, refl, sym, ap, ◌∙◌, true, Option, none, some, List,
  [], ◌∷◌, Bytes, equal, equal_iff, length, get_elem?, Bool-cases, arith,
}
use branchscore.Decision.{TokenId}
use branchscore.Tokenizer.Load.{emplace_id, add_pieces}
use branchscore.Tokenizer.Vocabulary.{find_id}

some-injective : {a b : ℕ} → some a ≡ some b → a ≡ b
some-injective h = cc

text-injective : {a b : Bytes} → some a ≡ some b → a ≡ b
text-injective h = cc

find_id-cons :
    (entries : List (Bytes × TokenId)) (key piece : Bytes) (id n : TokenId)
    → find_id ((key, id) ∷ entries) piece ≡ some n
    → ((key ≡ piece) × (id ≡ n)) ⊎ (find_id entries piece ≡ some n)
unfolding find_id
find_id-cons entries key piece id n h = elim (Bool-cases (equal key piece)) [
  | inl same ↦
      let e : some id ≡ some n = sym (rw same refl) ∙ h in
      inl ((equal_iff key piece).0 same, some-injective e)
  | inr other ↦ inr (sym (rw other refl) ∙ h)
]

emplace_id-cases :
    (o : Option TokenId) (key piece : Bytes) (id n : TokenId) (entries : List (Bytes × TokenId))
    → find_id (emplace_id o key id entries) piece ≡ some n
    → ((key ≡ piece) × (id ≡ n)) ⊎ (find_id entries piece ≡ some n)
unfolding emplace_id
emplace_id-cases none key piece id n entries h = find_id-cons entries key piece id n h
emplace_id-cases (some old) key piece id n entries h = inr h

-- What the table holds was there, or is a piece under its index.
pub add_pieces_sound :
    (i : ℕ) (pieces : List Bytes) (entries : List (Bytes × TokenId)) (piece : Bytes) (n : TokenId)
    → find_id (add_pieces i pieces entries) piece ≡ some n
    → (find_id entries piece ≡ some n) ⊎ ((j : ℕ) × (n ≡ i + j) × (get_elem? pieces j ≡ some piece))
unfolding add_pieces
add_pieces_sound i [] entries piece n h = inl h
add_pieces_sound i (p ∷ ps) entries piece n h =
    elim (add_pieces_sound (suc i) ps (emplace_id (find_id entries p) p i entries) piece n h) [
      | inr (j, e, found) ↦ inr (suc j, omega (arith, e), found)
      | inl before ↦ elim (emplace_id-cases (find_id entries p) p piece i n entries before) [
        | inl (same, index) ↦ inr (0, omega (arith, index), ap some same)
        | inr old ↦ inl old
      ]
    ]

length-emplace_id :
    (o : Option TokenId) (key : Bytes) (id : TokenId) (entries : List (Bytes × TokenId))
    → length (emplace_id o key id entries) ≤ suc (length entries)
unfolding emplace_id
length-emplace_id none key id entries = omega arith
length-emplace_id (some old) key id entries = omega arith

length-add_pieces :
    (i : ℕ) (pieces : List Bytes) (entries : List (Bytes × TokenId))
    → length (add_pieces i pieces entries) ≤ length pieces + length entries
unfolding add_pieces
length-add_pieces i [] entries = omega arith
length-add_pieces i (p ∷ ps) entries = omega (
  arith,
  length-add_pieces (suc i) ps (emplace_id (find_id entries p) p i entries),
  length-emplace_id (find_id entries p) p i entries,
)

find_id-emplace_id :
    (entries : List (Bytes × TokenId)) (o : Option TokenId) (key piece : Bytes) (id n : TokenId)
    → find_id entries key ≡ o
    → find_id entries piece ≡ some n
    → find_id (emplace_id o key id entries) piece ≡ some n
unfolding emplace_id find_id
find_id-emplace_id entries none key piece id n e h = elim (Bool-cases (equal key piece)) [
  | inl same ↦
      let k : key ≡ piece = (equal_iff key piece).0 same in
      absurd (none-some (sym e ∙ ap (find_id entries) k ∙ h))
  | inr other ↦ rw other h
]
  where
    none-some : {m : ℕ} → none ≡ some m → ⊥
    none-some q = cc
find_id-emplace_id entries (some old) key piece id n e h = h

-- What the table holds it keeps.
find_id-add_pieces :
    (i : ℕ) (pieces : List Bytes) (entries : List (Bytes × TokenId)) (piece : Bytes) (n : TokenId)
    → find_id entries piece ≡ some n
    → find_id (add_pieces i pieces entries) piece ≡ some n
unfolding add_pieces
find_id-add_pieces i [] entries piece n h = h
find_id-add_pieces i (p ∷ ps) entries piece n h =
    find_id-add_pieces (suc i) ps (emplace_id (find_id entries p) p i entries) piece n
      (find_id-emplace_id entries (find_id entries p) p piece i n refl h)

emplaced :
    (o : Option TokenId) (key : Bytes) (id : TokenId) (entries : List (Bytes × TokenId))
    → suc (length entries) ≤ length (emplace_id o key id entries)
    → find_id (emplace_id o key id entries) key ≡ some id
unfolding emplace_id find_id
emplaced none key id entries h =
    let same : equal key key ≡ true = (equal_iff key key).1 refl in rw same refl
emplaced (some old) key id entries h = absurd (omega (arith, h))

-- If no piece was there before, the table finds each piece under its index.
pub add_pieces_complete :
    (i : ℕ) (pieces : List Bytes) (entries : List (Bytes × TokenId)) (piece : Bytes) (j : ℕ)
    → length pieces + length entries ≤ length (add_pieces i pieces entries)
    → get_elem? pieces j ≡ some piece
    → find_id (add_pieces i pieces entries) piece ≡ some (i + j)
unfolding add_pieces
add_pieces_complete i [] entries piece j full h = absurd (cc)
add_pieces_complete i (p ∷ ps) entries piece zero full h =
    let added = emplace_id (find_id entries p) p i entries in
    let bound = length-add_pieces (suc i) ps added in
    let new = emplaced (find_id entries p) p i entries (omega (arith, full, bound)) in
    let index : i ≡ i + 0 = omega arith in
    let same : p ≡ piece = text-injective h in
    let kept = find_id-add_pieces (suc i) ps added p i new in
    ap (find_id (add_pieces (suc i) ps added)) (sym same) ∙ kept ∙ ap some index
add_pieces_complete i (p ∷ ps) entries piece (suc j) full h =
    let added = emplace_id (find_id entries p) p i entries in
    let grown = length-emplace_id (find_id entries p) p i entries in
    let index : suc i + j ≡ i + suc j = omega arith in
    add_pieces_complete (suc i) ps added piece j (omega (arith, full, grown)) h ∙ ap some index
