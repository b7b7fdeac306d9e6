-- ===== src/Prefill/Parts.antt =====
-- The part of a sequence that lies between two positions.
use branchscore.Base.{
  ℕ, zero, suc, ◌+◌, ◌-◌, ◌≤◌, ◌≡◌, min, max, refl, sym, ap, ◌∙◌, ◌&&◌, Bool-cases, inl, inr, List,
  [], ◌∷◌, ◌++◌, ltb, leb, if◌then◌else◌, length, take, drop, arith,
}
use branchscore.Decision.{TokenId}
use branchscore.Prefill.Schedule.{Column, columns_of, visual_columns, overlap_text, overlap_visual}

-- The elements at the positions from `start` to `end` of a sequence that begins at a position
unfoldable pub part : List Column → ℕ → ℕ → ℕ → List Column
part [] position start end = []
part (x ∷ xs) position start end =
    let rest = part xs (suc position) start end in
    if leb start position && ltb position end then x ∷ rest else rest

pub part-append :
    (xs ys : List Column) (position behind start end : ℕ)
    → behind ≡ position + length xs
    → part (xs ++ ys) position start end ≡ part xs position start end ++ part ys behind start end
unfolding part
part-append [] ys position behind start end e = ap (λ n. part ys n start end) (omega (arith, e))
part-append (x ∷ xs) ys position behind start end e =
    ground (arith, part-append xs ys (suc position) behind start end (omega (arith, e)))

-- Nothing lies behind the end.
part-behind :
    (xs : List Column) (position start end : ℕ) → end ≤ position → part xs position start end ≡ []
unfolding part
part-behind [] position start end h = refl
part-behind (x ∷ xs) position start end h =
    ground (arith, part-behind xs (suc position) start end (omega (arith, h)))

-- Two parts that meet
pub part-join :
    (xs : List Column) (position start middle end : ℕ)
    → start ≤ middle
    → middle ≤ end
    → part xs position start middle ++ part xs position middle end ≡ part xs position start end
unfolding part
part-join [] position start middle end h g = refl
part-join (x ∷ xs) position start middle end h g = elim (Bool-cases (ltb position middle)) [
  | inl before ↦ ground (arith, part-join xs (suc position) start middle end h g)
  | inr behind ↦
      let nothing = part-behind xs (suc position) start middle (ground arith) in
      ground (arith, nothing, part-join xs (suc position) start middle end h g)
]

pub part_whole :
    (xs : List Column) (position start end : ℕ)
    → start ≤ position
    → position + length xs ≤ end
    → part xs position start end ≡ xs
unfolding part
part_whole [] position start end h g = refl
part_whole (x ∷ xs) position start end h g =
    ground (arith, part_whole xs (suc position) start end (omega (arith, h)) (omega (arith, g)))

-- An end behind the sequence
part-min :
    (xs : List Column) (position start end bound : ℕ)
    → position + length xs ≤ bound
    → part xs position start (min end bound) ≡ part xs position start end
unfolding part
part-min [] position start end bound h = refl
part-min (x ∷ xs) position start end bound h =
    ground (arith, part-min xs (suc position) start end bound (omega (arith, h)))

pub length-columns_of : (ids : List TokenId) → length (columns_of ids) ≡ length ids
unfolding columns_of
length-columns_of [] = refl
length-columns_of (id ∷ ids) = omega (arith, length-columns_of ids)

nothing_taken : (k d : ℕ) → columns_of (take k (drop d [])) ≡ []
unfolding columns_of take drop
nothing_taken zero zero = refl
nothing_taken zero (suc d) = refl
nothing_taken (suc k) zero = refl
nothing_taken (suc k) (suc d) = refl

columns_of-part :
    (k d : ℕ) (tokens : List TokenId) (position start end : ℕ)
    → k ≡ end - max start position
    → d ≡ max start position - position
    → columns_of (take k (drop d tokens)) ≡ part (columns_of tokens) position start end
unfolding part columns_of take drop
columns_of-part k d [] position start end e f = nothing_taken k d
columns_of-part k (suc d) (t ∷ ts) position start end e f =
    let rest =
      columns_of-part k d ts (suc position) start end (omega (arith, e, f)) (omega (arith, f)) in
    ground (arith, rest)
columns_of-part zero zero (t ∷ ts) position start end e f =
    sym (part-behind (columns_of (t ∷ ts)) position start end (omega (arith, e, f)))
columns_of-part (suc k) zero (t ∷ ts) position start end e f =
    let rest =
      columns_of-part k zero ts (suc position) start end (omega (arith, e, f)) (omega (arith, f)) in
    ground (arith, rest)

-- What append_text appends is the part of its segment that lies in the chunk.
pub columns_of-overlap_text :
    (tokens : List TokenId) (position start end : ℕ)
    → columns_of (overlap_text tokens position start end)
      ≡ part (columns_of tokens) position start end
unfolding overlap_text take
columns_of-overlap_text tokens position start end =
    let last = min end (position + length tokens) in
    let cut =
      part-min (columns_of tokens) position start end (position + length tokens)
        (omega (arith, length-columns_of tokens)) in
    let from = max start position in
    let offset = from - position in
    elim (Bool-cases (leb last from)) [
      | inl nothing ↦
          let none_left = columns_of-part 0 offset tokens position start last (ground arith) refl in
          rw nothing (none_left ∙ cut)
      | inr there ↦
          rw there (columns_of-part (last - from) offset tokens position start last refl refl ∙ cut)
    ]

pub length-visual_columns : (offset count : ℕ) → length (visual_columns offset count) ≡ count
unfolding visual_columns
length-visual_columns offset zero = refl
length-visual_columns offset (suc count) = omega (arith, length-visual_columns (suc offset) count)

-- A run of visual tokens is a part of a longer one.
visual_columns-part :
    (count offset k from position start end : ℕ)
    → from + position ≡ offset + max start position
    → k ≡ min end (position + count) - max start position
    → visual_columns from k ≡ part (visual_columns offset count) position start end
unfolding visual_columns part
visual_columns-part zero offset zero from position start end e f = refl
visual_columns-part zero offset (suc k) from position start end e f = absurd (omega (arith, f))
visual_columns-part (suc count) offset zero from position start end e f =
    elim (Bool-cases (ltb position start)) [
      | inl before ↦
          let rest =
            visual_columns-part count (suc offset) 0 from (suc position) start end
              (ground (arith, e)) (ground (arith, f)) in
          ground (arith, rest)
      | inr behind ↦
          sym
            (part-behind (visual_columns offset (suc count)) position start end (ground (arith, f)))
    ]
visual_columns-part (suc count) offset (suc k) from position start end e f =
    elim (Bool-cases (ltb position start)) [
      | inl before ↦
          let rest =
            visual_columns-part count (suc offset) (suc k) from (suc position) start end
              (ground (arith, e)) (ground (arith, f)) in
          ground (arith, rest)
      | inr behind ↦
          let rest =
            visual_columns-part count (suc offset) k (suc from) (suc position) start end
              (ground (arith, e)) (ground (arith, f)) in
          let same : from ≡ offset = ground (arith, e) in ground (arith, rest, same)
    ]

-- The visual tokens of a chunk are the part of them that lies in the chunk.
pub overlap_visual-part :
    (count position start end : ℕ)
    → overlap_visual position (position + count) start end
      ≡ part (visual_columns 0 count) position start end
unfolding overlap_visual visual_columns
overlap_visual-part count position start end =
    let from = max start position in
    let last = min end (position + count) in
    elim (Bool-cases (ltb from last)) [
      | inl there ↦ rw there (
          visual_columns-part count 0 (last - from) (from - position) position start end
            (omega arith) refl)
      | inr nothing ↦ rw nothing (
          visual_columns-part count 0 0 (from - position) position start end (omega arith)
            (ground arith))
    ]
