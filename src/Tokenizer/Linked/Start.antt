-- ===== src/Tokenizer/Linked/Start.antt =====
-- The characters of a segment, as `tokenize_segment` of src/tokenizer.cpp first cuts it, are linked.
use branchscore.Base.{
  ℕ, zero, suc, ◌+◌, ◌<◌, ◌≤◌, ◌≡◌, ◌⊎◌, inl, inr, refl, sym, ap, ◌∙◌, none, some, List, [], ◌∷◌,
  Bytes, ◌==◌, if◌then◌else◌, true, false, length, drop, length-drop, arith,
}
use branchscore.Result.{ok}
use branchscore.Tokenizer.Linked.Links.{last, chained, IsLinked}
use branchscore.Tokenizer.Linked.Store.{IsAlive}
use branchscore.Tokenizer.Merge.{Symbol, at, predecessor, split_symbols}
use branchscore.Tokenizer.Vocabulary.{utf8_character_size}

-- The symbols from an index and an offset on.
data Row (end : ℕ) : ℕ → ℕ → List Symbol → Type 0 where
  row_end :
      (index offset size : ℕ)
      → 0 < size
      → offset + size ≡ end
      → Row end index offset
          (record { previous = predecessor index; next = none; offset = offset; size = size } ∷ [])
  row_more :
      (index offset size : ℕ) (ss : List Symbol)
      → 0 < size
      → Row end (suc index) (offset + size) ss
      → Row end index offset (
          record {
            previous = predecessor index;
            next = some (suc index);
            offset = offset;
            size = size;
          }
          ∷ ss)

Row-head :
    {end k o : ℕ} {ss : List Symbol}
    → Row end k o ss
    → IsAlive (at ss 0) × ((at ss 0).offset ≡ o) × ((at ss 0).previous ≡ predecessor k)
unfolding at
Row-head (row_end k o size h e) = (h, refl, refl)
Row-head (row_more k o size ss h row) = (h, refl, refl)

predecessor-some : (k p : ℕ) → predecessor k ≡ some p → k ≡ suc p
predecessor-some zero p e = absurd (cc)
predecessor-some (suc k) p e = ground (arith, e)

-- Each character but the last is linked to the next one.
Row-inner :
    {end : ℕ} (i n : ℕ) {k o : ℕ} {ss : List Symbol}
    → Row end k o ss
    → n ≡ k + i
    → suc i < length ss
    → (at ss i).next ≡ some (suc n)
unfolding at
Row-inner i n (row_end k o size h e) g lt = absurd (omega arith)
Row-inner zero n (row_more k o size ss h row) g lt = ap (λ m. some (suc m)) (omega (arith, g))
Row-inner (suc i) n (row_more k o size ss h row) g lt =
    Row-inner i n row (omega (arith, g)) (omega (arith, lt))

record Continues (ss : List Symbol) (i n : ℕ) : Type 0 where
  next_index : (at ss i).next ≡ some (suc n)
  alive : IsAlive (at ss (suc i))
  adjoins : (at ss (suc i)).offset ≡ (at ss i).offset + (at ss i).size
  links_back : (at ss (suc i)).previous ≡ some n

Row-link :
    {end : ℕ} (i n : ℕ) {k o : ℕ} {ss : List Symbol}
    → Row end k o ss
    → n ≡ k + i
    → IsAlive (at ss i)
    → (((at ss i).next ≡ none) × ((at ss i).offset + (at ss i).size ≡ end)) ⊎ Continues ss i n
unfolding at
Row-link zero n (row_end k o size h e) g alive = inl (refl, e)
Row-link (suc i) n (row_end k o size h e) g alive = absurd (omega arith)
Row-link zero n (row_more k o size ss h row) g alive =
    let same : k ≡ n = omega (arith, g) in
    let (lives, begins, back) = Row-head row in
    inr (record {
      next_index = ap (λ m. some (suc m)) same;
      alive = lives;
      adjoins = begins;
      links_back = back ∙ ap some same;
    })
Row-link (suc i) n (row_more k o size ss h row) g alive =
    elim (Row-link i n row (omega (arith, g)) alive) [
      | inl stop ↦ inl stop
      | inr c ↦ inr (record {
        next_index = c.next_index;
        alive = c.alive;
        adjoins = c.adjoins;
        links_back = c.links_back;
      })
    ]

Row-back :
    {end : ℕ} (i n p : ℕ) {k o : ℕ} {ss : List Symbol}
    → Row end k o ss
    → n ≡ k + i
    → IsAlive (at ss i)
    → (at ss i).previous ≡ some p
    → ((i ≡ 0) × (k ≡ suc p)) ⊎ ((j : ℕ) × (suc j ≡ i) × (p ≡ k + j) × ((at ss j).next ≡ some n))
unfolding at
Row-back zero n p row g alive e = inl (refl, predecessor-some _ p (sym (Row-head row).2 ∙ e))
Row-back (suc i) n p (row_end k o size h q) g alive e = absurd (omega arith)
Row-back (suc i) n p (row_more k o size ss h row) g alive e =
    elim (Row-back i n p row (omega (arith, g)) alive e) [
      | inl (at_start, before) ↦
          inr
            (0, ap suc (sym at_start), omega (arith, before), ap some (omega (arith, g, at_start)))
      | inr (j, next_j, place, link) ↦ inr (suc j, ap suc next_j, omega (arith, place), link)
    ]

Row-IsLinked : {end : ℕ} {ss : List Symbol} → Row end 0 0 ss → IsLinked end ss
Row-IsLinked {ss = ss} row = record {
  first_alive = (Row-head row).0;
  first_offset = (Row-head row).1;
  links = λ i h. elim (Row-link i i row (omega arith) h) [
    | inl (e, stop) ↦ last e stop
    | inr c ↦ chained (suc i) c.next_index (record {
      later = omega arith;
      alive = c.alive;
      adjoins = c.adjoins;
      links_back = c.links_back;
    })
  ];
  backs = λ p j h e. elim (Row-back j j p row (omega arith) h e) [
    | inl (at_start, before) ↦ absurd (omega (arith, before))
    | inr (i, next_i, place, link) ↦ let same : i ≡ p = omega (arith, place) in rw (sym same) link
  ];
}

utf8_character_size-bounds :
    (first n : ℕ) → 0 < n → (0 < utf8_character_size first n) × (utf8_character_size first n ≤ n)
unfolding utf8_character_size
utf8_character_size-bounds first n h = (ground arith, ground arith)

-- The symbol that the loop makes for a character of a size, with `left` bytes left
abbrev cut : ℕ → ℕ → ℕ → ℕ → Symbol
cut index offset size left = record {
  previous = predecessor index;
  next = if size == left then none else some (suc index);
  offset = offset;
  size = size;
}

step-Row :
    {end : ℕ} (index offset size left : ℕ) (rest : Bytes) (ss : List Symbol)
    → 0 < size
    → length rest + size ≡ left
    → offset + left ≡ end
    → (rest ≡ [] → ss ≡ [])
    → (0 < length rest → Row end (suc index) (offset + size) ss)
    → Row end index offset (cut index offset size left ∷ ss)
step-Row index offset size left [] ss h total stop nothing more =
    let same : (size == left) ≡ true = ground arith in
    rw (same, nothing refl) (row_end index offset size h (omega arith))
step-Row index offset size left (c ∷ rest) ss h total stop nothing more =
    let other : (size == left) ≡ false = ground arith in
    rw other (row_more index offset size ss h (more (omega arith)))

-- The loop ends, with linked symbols that cover what is left.
split_symbols-Row :
    (fuel index offset end : ℕ) (rest : Bytes)
    → length rest < fuel
    → offset + length rest ≡ end
    → (ss : List Symbol) × (split_symbols fuel index offset rest ≡ ok ss)
      × (rest ≡ [] → ss ≡ [])
      × (0 < length rest → Row end index offset ss)
unfolding split_symbols
split_symbols-Row zero index offset end rest h e = absurd (omega arith)
split_symbols-Row (suc fuel) index offset end [] h e =
    ([], refl, (λ q. refl), (λ q. absurd (omega arith)))
split_symbols-Row (suc fuel) index offset end (c ∷ cs) h e =
    let left = length (c ∷ cs) in
    let size = utf8_character_size c left in
    let (positive, bounded) = utf8_character_size-bounds c left (omega arith) in
    let total = length-drop size (c ∷ cs) bounded in
    let (ss, run, nothing, row) =
      split_symbols-Row fuel (suc index) (offset + size) end (drop size (c ∷ cs))
        (omega (arith, total, positive, h)) (omega (arith, total, e)) in
    (
      cut index offset size left ∷ ss,
      rw run refl,
      (λ q. absurd (cc)),
      (λ q. step-Row index offset size left (drop size (c ∷ cs)) ss positive total e nothing row),
    )

pub split_symbols-IsLinked :
    (c : ℕ) (cs : Bytes)
    → (ss : List Symbol) × (split_symbols (suc (length (c ∷ cs))) 0 0 (c ∷ cs) ≡ ok ss)
      × IsLinked (length (c ∷ cs)) ss
      × ((i : ℕ) → suc i < length ss → (at ss i).next ≡ some (suc i))
split_symbols-IsLinked c cs =
    let end = length (c ∷ cs) in
    let (ss, run, nothing, row) =
      split_symbols-Row (suc end) 0 0 end (c ∷ cs) (omega arith) (omega arith) in
    let cover = row (omega arith) in
    (ss, run, Row-IsLinked cover, (λ i h. Row-inner i i cover (omega arith) h))
