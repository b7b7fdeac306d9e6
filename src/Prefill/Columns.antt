-- ===== src/Prefill/Columns.antt =====
-- The columns, positions and ids of the chunks of src/prefill_engine.cpp.
use branchscore.Base.{
  ℕ, zero, suc, ◌+◌, ◌-◌, ◌%◌, ◌^◌, ◌≤◌, ◌≡◌, min, max, refl, ap, List, [], ◌∷◌, ◌++◌, length,
  length-append, arith,
}
use branchscore.Decision.{TokenId}
use branchscore.Prefill.Parts.{
  part, part-append, columns_of-overlap_text, overlap_visual-part, length-columns_of,
  length-visual_columns,
}
use branchscore.Prefill.Schedule.{
  Column, columns_of, visual_columns, chunk_input, per_layer_id, per_layer_ids_from, positions_from,
}

-- All columns of a prompt
abbrev pub prompt_columns : List TokenId → ℕ → List TokenId → List Column
prompt_columns before visual_count after =
    columns_of before ++ visual_columns 0 visual_count ++ columns_of after

pub chunk_input-part :
    (before : List TokenId) (visual_count : ℕ) (after : List TokenId) (start end : ℕ)
    → chunk_input before visual_count after start end
      ≡ part (prompt_columns before visual_count after) 0 start end
unfolding chunk_input
chunk_input-part before visual_count after start end =
    let first = columns_of before in
    let second = visual_columns 0 visual_count in
    let visual_end = length before + visual_count in
    let behind = part-append (first ++ second) (columns_of after) 0 visual_end start end (
      omega (
        arith,
        length-append first second,
        length-columns_of before,
        length-visual_columns 0 visual_count,
      )) in
    let split =
      part-append first second 0 (length before) start end
        (omega (arith, length-columns_of before)) in
    rw
      (
        columns_of-overlap_text before 0 start end,
        overlap_visual-part visual_count (length before) start end,
        columns_of-overlap_text after visual_end start end,
        behind,
        split,
      )
      refl

pub part-none :
    (xs : List Column) (position start end : ℕ) → end ≤ start → part xs position start end ≡ []
unfolding part
part-none [] position start end h = refl
part-none (x ∷ xs) position start end h = ground (arith, part-none xs (suc position) start end h)

pub length-part :
    (xs : List Column) (position start end : ℕ)
    → length (part xs position start end) ≡ min end (position + length xs) - max start position
unfolding part
length-part [] position start end = omega arith
length-part (x ∷ xs) position start end = ground (arith, length-part xs (suc position) start end)

pub length-prompt_columns :
    (before : List TokenId) (visual_count : ℕ) (after : List TokenId)
    → length (prompt_columns before visual_count after)
      ≡ length before + visual_count + length after
length-prompt_columns before visual_count after = omega (
  arith,
  length-append (columns_of before ++ visual_columns 0 visual_count) (columns_of after),
  length-append (columns_of before) (visual_columns 0 visual_count),
  length-columns_of before,
  length-columns_of after,
  length-visual_columns 0 visual_count,
)

pub positions_from-append :
    (m n k position next : ℕ)
    → k ≡ m + n
    → next ≡ position + m
    → positions_from position m ++ positions_from next n ≡ positions_from position k
unfolding positions_from
positions_from-append zero n k position next e f =
    let same : next ≡ position = omega (arith, f) in
    let count : n ≡ k = omega (arith, e) in rw (same, count) refl
positions_from-append (suc m) n zero position next e f = absurd (omega (arith, e))
positions_from-append (suc m) n (suc k) position next e f =
    ap (λ ps. position % 2 ^ 32 ∷ ps)
      (positions_from-append m n k (suc position) next (omega (arith, e)) (omega (arith, f)))

pub per_layer_ids_from-append :
    (before : List TokenId) (visual_end : ℕ) (after : List TokenId) (m n k position next : ℕ)
    → k ≡ m + n
    → next ≡ position + m
    → per_layer_ids_from before visual_end after position m
        ++ per_layer_ids_from before visual_end after next n
      ≡ per_layer_ids_from before visual_end after position k
unfolding per_layer_ids_from
per_layer_ids_from-append before visual_end after zero n k position next e f =
    let same : next ≡ position = omega (arith, f) in
    let count : n ≡ k = omega (arith, e) in rw (same, count) refl
per_layer_ids_from-append before visual_end after (suc m) n zero position next e f =
    absurd (omega (arith, e))
per_layer_ids_from-append before visual_end after (suc m) n (suc k) position next e f =
    ap (λ ids. per_layer_id before visual_end after position ∷ ids)
      (per_layer_ids_from-append before visual_end after m n k (suc position) next
        (omega (arith, e)) (omega (arith, f)))
