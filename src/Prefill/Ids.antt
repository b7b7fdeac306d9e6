-- ===== src/Prefill/Ids.antt =====
-- The per-layer ids and the positions of src/prefill_engine.cpp, over a whole prompt.
use branchscore.Base.{
  ℕ, zero, suc, ◌+◌, ◌-◌, ◌%◌, ◌^◌, ◌≤◌, ◌<◌, ◌≡◌, refl, sym, ap, ◌∙◌, List, [], ◌∷◌, ◌++◌, length,
  get_elem?, arith,
}
use branchscore.Decision.{TokenId}
use branchscore.Prefill.Columns.{per_layer_ids_from-append}
use branchscore.Prefill.Schedule.{id_at, per_layer_id, per_layer_ids_from, positions_from}

-- So many times the id 0
unfoldable pub zeros : ℕ → List TokenId
zeros zero = []
zeros (suc count) = 0 ∷ zeros count

-- So many numbers, from one on
unfoldable pub count_up : ℕ → ℕ → List ℕ
count_up first zero = []
count_up first (suc count) = first ∷ count_up (suc first) count

length-zeros : (count : ℕ) → length (zeros count) ≡ count
unfolding zeros
length-zeros zero = refl
length-zeros (suc count) = omega (arith, length-zeros count)

zeros-zero : (count i : ℕ) → id_at (get_elem? (zeros count) i) ≡ 0
unfolding zeros
zeros-zero zero i = refl
zeros-zero (suc count) zero = refl
zeros-zero (suc count) (suc i) = zeros-zero count i

pub positions_from-count_up :
    (position count : ℕ)
    → position + count ≤ 2 ^ 32
    → positions_from position count ≡ count_up position count
unfolding positions_from count_up
positions_from-count_up position zero h = refl
positions_from-count_up position (suc count) h =
    let same : position % 2 ^ 32 ≡ position = omega (arith, h) in
    rw (same, positions_from-count_up (suc position) count (omega (arith, h))) refl

module _ (before : List TokenId) (visual_end : ℕ) (after : List TokenId) where
  -- The ids from a position on are those of a list that has the id of each.
  ids_of_list :
      (xs : List TokenId) (position : ℕ)
      → ((i : ℕ)
          → i < length xs
          → per_layer_id before visual_end after (position + i) ≡ id_at (get_elem? xs i))
      → per_layer_ids_from before visual_end after position (length xs) ≡ xs
  unfolding per_layer_ids_from
  ids_of_list [] position h = refl
  ids_of_list (x ∷ xs) position h =
      let here : per_layer_id before visual_end after position ≡ x =
        ap (per_layer_id before visual_end after) (omega arith) ∙ h 0 (omega arith) in
      let behind = ids_of_list xs (suc position) λ i inside.
        ap (per_layer_id before visual_end after) (omega arith)
        ∙ h (suc i) (omega (arith, inside)) in
      rw (here, behind) refl

-- The per-layer ids of a prompt: its tokens, and 0 for each visual token between them.
pub per_layer_ids_whole :
    (before : List TokenId) (visual_count : ℕ) (after : List TokenId)
    → per_layer_ids_from before
        (length before + visual_count)
        after
        0
        (length before + visual_count + length after)
      ≡ before ++ zeros visual_count ++ after
unfolding per_layer_id
per_layer_ids_whole before visual_count after =
    let visual_end : ℕ = length before + visual_count in
    let ids = per_layer_ids_from before visual_end after in
    let first : ids 0 (length before) ≡ before =
      ids_of_list before visual_end after before 0 λ i h. ground (arith, h) in
    let second : ids (length before) (length (zeros visual_count)) ≡ zeros visual_count =
      ids_of_list before visual_end after (zeros visual_count) (length before)
        λ i h. ground (arith, h, zeros-zero visual_count i, length-zeros visual_count) in
    let third : ids visual_end (length after) ≡ after =
      ids_of_list before visual_end after after visual_end λ i h.
        let same : visual_end + i - visual_end ≡ i = omega arith in ground (arith, h, same) in
    let two =
      per_layer_ids_from-append before visual_end after (length before)
        (length (zeros visual_count)) visual_end 0 (length before)
        (omega (arith, length-zeros visual_count)) (omega arith) in
    let three =
      per_layer_ids_from-append before visual_end after visual_end (length after)
        (visual_end + length after) 0 visual_end refl (omega arith) in
    sym three
    ∙ ap (λ xs. xs ++ ids visual_end (length after)) (sym two)
    ∙ ap
        (λ xs.
          xs ++ ids (length before) (length (zeros visual_count)) ++ ids visual_end (length after))
        first
    ∙ ap (λ xs. before ++ xs ++ ids visual_end (length after)) second
    ∙ ap (λ xs. before ++ zeros visual_count ++ xs) third
