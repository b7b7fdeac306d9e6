-- ===== src/Prefill/Covered.antt =====
-- The chunks of `PrefillEngine::prefill` of src/prefill_engine.cpp cover the prompt.
use branchscore.Base.{
  ℕ, zero, suc, ◌+◌, ◌-◌, ◌^◌, ◌≤◌, ◌<◌, ◌≡◌, min, refl, sym, ap, ◌∙◌, Bool, true, false, not, ◌||◌,
  Bool-cases, inl, inr, Option, List, [], ◌∷◌, ◌++◌, ltb, ltb→lt, ◌==◌, if◌then◌else◌, length,
  arith,
}
use branchscore.Cache.Created.{create_total}
use branchscore.Cache.Layers.{IsValid}
use branchscore.Cache.State.{TextModelConfig}
use branchscore.Decision.{TokenId}
use branchscore.Prefill.Parts.{part, part-join, part_whole}
use branchscore.Prefill.Schedule.{
  Column, Chunk, microbatch_size, padded_count, chunk_input, per_layer_ids_from, positions_from,
  make_chunk, chunks_from, VisualTokens, visual_count_of, has_other_width, capacity_of, schedule,
}
use branchscore.Prefill.Columns.{
  prompt_columns, chunk_input-part, part-none, length-part, length-prompt_columns,
  positions_from-append, per_layer_ids_from-append,
}
use branchscore.Prefill.Ids.{zeros, count_up, positions_from-count_up, per_layer_ids_whole}
use branchscore.Result.{ok}

unfoldable pub inputs_of : List Chunk → List Column
inputs_of [] = []
inputs_of (chunk ∷ chunks) = chunk.input ++ inputs_of chunks

unfoldable pub positions_of : List Chunk → List ℕ
positions_of [] = []
positions_of (chunk ∷ chunks) = chunk.positions ++ positions_of chunks

unfoldable pub per_layer_ids_of : List Chunk → List TokenId
per_layer_ids_of [] = []
per_layer_ids_of (chunk ∷ chunks) = chunk.per_layer_ids ++ per_layer_ids_of chunks

-- Each chunk has 1 to 512 positions, and the cache that it reads holds all up to its end.
pub data AllFit : List Chunk → Type 0 where
  none_left : AllFit []
  fits :
      (chunk : Chunk) (chunks : List Chunk)
      → 1 ≤ chunk.query_count
      → chunk.query_count ≤ microbatch_size
      → chunk.start + chunk.query_count ≤ chunk.cache_count
      → AllFit chunks
      → AllFit (chunk ∷ chunks)

padded_count-le : (n : ℕ) → n < 2 ^ 32 → n ≤ padded_count n
unfolding padded_count
padded_count-le n h = omega (arith, h)

nothing_left : {A : Type 0} (f : ℕ → List A) → [] ≡ f 0 → (n : ℕ) → n ≡ 0 → [] ≡ f n
nothing_left f e n h = e ∙ ap f (sym h)

chunk_fits :
    (flash : Bool) (start count : ℕ)
    → start + count < 2 ^ 32
    → start + count ≤ (if flash then padded_count (start + count) else start + count)
chunk_fits true start count h = padded_count-le (start + count) h
chunk_fits false start count h = omega arith

module _ (flash : Bool) (before : List TokenId) (visual_count : ℕ) (after : List TokenId) where
  abbrev total : ℕ
  total = length before + visual_count + length after

  abbrev visual_end : ℕ
  visual_end = length before + visual_count

  -- What the chunks from a position on hold
  record Covers (start : ℕ) (chunks : List Chunk) : Type 0 where
    inputs_same : inputs_of chunks ≡ part (prompt_columns before visual_count after) 0 start total
    positions_same : positions_of chunks ≡ positions_from start (total - start)
    ids_same :
        per_layer_ids_of chunks ≡ per_layer_ids_from before visual_end after start (total - start)
    all_fit : AllFit chunks

  abbrev chunk_at : ℕ → Chunk
  chunk_at start =
      let query_count = min microbatch_size (total - start) in
      record {
        start = start;
        query_count = query_count;
        cache_count = if flash then padded_count (start + query_count) else start + query_count;
        per_layer_ids = per_layer_ids_from before visual_end after start query_count;
        positions = positions_from start query_count;
        input = chunk_input before visual_count after start (start + query_count);
      }

  make_chunk-ok :
      (start : ℕ)
      → start < total
      → make_chunk flash before visual_count after total start ≡ ok (chunk_at start)
  unfolding make_chunk
  make_chunk-ok start h =
      let query_count = min microbatch_size (total - start) in
      let whole = prompt_columns before visual_count after in
      let same = chunk_input-part before visual_count after start (start + query_count) in
      let size = length-part whole 0 start (start + query_count) in
      let all = length-prompt_columns before visual_count after in
      let exact : length (chunk_input before visual_count after start (start + query_count))
          ≡ query_count =
        omega (arith, ap length same, size, all, h) in
      let passes : (length (chunk_input before visual_count after start (start + query_count)) == 0
            || not (
                length (chunk_input before visual_count after start (start + query_count))
                == query_count))
          ≡ false =
        ground (arith, exact, h) in
      rw passes refl

  -- What is behind the next 512 positions is what is behind the chunk.
  next_chunk :
      {A : Type 0} (f : ℕ → ℕ → A) (start : ℕ)
      → ((a b : ℕ) → f a 0 ≡ f b 0)
      → start < total
      → f (start + microbatch_size) (total - (start + microbatch_size))
        ≡ f
            (start + min microbatch_size (total - start))
            (total - (start + min microbatch_size (total - start)))
  next_chunk f start none_same h =
      let count : ℕ = min microbatch_size (total - start) in
      elim (Bool-cases (ltb (start + microbatch_size) total)) [
        | inl more ↦
            let same : count ≡ microbatch_size = ground arith in
            ap (λ n. f (start + n) (total - (start + n))) (sym same)
        | inr last ↦
            let spent : total - (start + microbatch_size) ≡ 0 = ground arith in
            let done : total - (start + count) ≡ 0 = ground arith in
            ap (f (start + microbatch_size)) spent
            ∙ none_same (start + microbatch_size) (start + count)
            ∙ ap (f (start + count)) (sym done)
      ]

  columns_behind :
      (whole : List Column) (start : ℕ)
      → start < total
      → part whole 0 (start + microbatch_size) total
        ≡ part whole 0 (start + min microbatch_size (total - start)) total
  columns_behind whole start h =
      let count : ℕ = min microbatch_size (total - start) in
      elim (Bool-cases (ltb (start + microbatch_size) total)) [
        | inl more ↦
            let same : count ≡ microbatch_size = ground arith in
            ap (λ n. part whole 0 (start + n) total) (sym same)
        | inr last ↦
            part-none whole 0 (start + microbatch_size) total (ground arith)
            ∙ sym (part-none whole 0 (start + count) total (ground arith))
      ]

  Covers-first :
      (start : ℕ) (chunks : List Chunk)
      → total < 2 ^ 32
      → start < total
      → Covers (start + microbatch_size) chunks
      → Covers start (chunk_at start ∷ chunks)
  unfolding inputs_of positions_of per_layer_ids_of positions_from per_layer_ids_from
  Covers-first start chunks small h rest =
      let count : ℕ = min microbatch_size (total - start) in
      let middle : ℕ = start + count in
      let whole = prompt_columns before visual_count after in
      let ids = per_layer_ids_from before visual_end after in
      let from_middle = part-join whole 0 start middle total (omega arith) (omega (arith, h)) in
      let here = chunk_input-part before visual_count after start middle in
      record {
        inputs_same =
            ap (λ xs. xs ++ inputs_of chunks) here
            ∙ ap (λ xs. part whole 0 start middle ++ xs)
                (rest.inputs_same ∙ columns_behind whole start h)
            ∙ from_middle;
        positions_same =
            ap (λ ps. positions_from start count ++ ps)
              (rest.positions_same ∙ next_chunk positions_from start (λ a b. refl) h)
            ∙ positions_from-append count (total - middle) (total - start) start middle
                (omega (arith, h)) refl;
        ids_same =
            ap (λ ps. ids start count ++ ps) (rest.ids_same ∙ next_chunk ids start (λ a b. refl) h)
            ∙ per_layer_ids_from-append before visual_end after count (total - middle)
                (total - start) start middle (omega (arith, h)) refl;
        all_fit =
            fits (chunk_at start) chunks (omega (arith, h)) (omega arith)
              (chunk_fits flash start count (omega (arith, small, h))) rest.all_fit;
      }

  chunks_from-Covers :
      (fuel start : ℕ)
      → total < 2 ^ 32
      → total < start + fuel
      → 0 < fuel
      → (chunks : List Chunk) × (chunks_from flash before visual_count after total fuel start
          ≡ ok chunks)
        × Covers start chunks
  unfolding chunks_from inputs_of positions_of per_layer_ids_of positions_from per_layer_ids_from
  chunks_from-Covers zero start small h some_fuel = absurd (omega arith)
  chunks_from-Covers (suc fuel) start small h some_fuel = elim (Bool-cases (ltb start total)) [
    | inl more ↦
        let (chunks, run, rest) =
          chunks_from-Covers fuel (start + microbatch_size) small (omega (arith, h))
            (omega (arith, h, ltb→lt start total more)) in
        let made = make_chunk-ok start (ltb→lt start total more) in
        (
          chunk_at start ∷ chunks,
          rw (more, made, run) refl,
          Covers-first start chunks small (ltb→lt start total more) rest,
        )
    | inr stop ↦ (
      [],
      rw stop refl,
      record {
        inputs_same =
            sym (part-none (prompt_columns before visual_count after) 0 start total (ground arith));
        positions_same =
            nothing_left (λ n. positions_from start n) refl (total - start) (ground arith);
        ids_same =
            nothing_left (λ n. per_layer_ids_from before visual_end after start n) refl
              (total - start) (ground arith);
        all_fit = none_left;
      },
    )
  ]

-- What the chunks of a prefill are: together they have each column of the prompt once and in order,
-- the positions from 0 on, and the tokens as per-layer ids, with 0 for each visual token.
pub record IsSchedule (before : List TokenId) (visual_count : ℕ) (after : List TokenId)
    (chunks : List Chunk) : Type 0 where
  pub inputs_whole : inputs_of chunks ≡ prompt_columns before visual_count after
  pub positions_whole :
      positions_of chunks ≡ count_up 0 (length before + visual_count + length after)
  pub ids_whole : per_layer_ids_of chunks ≡ before ++ zeros visual_count ++ after
  pub fit : AllFit chunks

capacity_of-positive : (flash : Bool) (n : ℕ) → 1 ≤ n → n < 2 ^ 32 → 1 ≤ capacity_of flash n
unfolding capacity_of padded_count
capacity_of-positive true n h small = omega (arith, h, small)
capacity_of-positive false n h small = h

-- For a valid configuration with a context below 2 ^ 32, visual tokens of the width of the text model
-- and at least one position, if the positions and the capacity of the state cache, which is padded to
-- a multiple of 256 where flash attention is used, are at most the context, then the loop over the
-- chunks ends without an exception: the chunks have 1 to 512 positions each and a cache that holds all
-- up to their end, and together they have each column of the prompt once and in order, the positions
-- from 0 on, and as per-layer ids the tokens before the image, 0 for each visual token, and the tokens
-- behind it.
pub schedule-IsSchedule :
    (flash : Bool) (config : TextModelConfig) (before : List TokenId) (visual : Option VisualTokens)
    (after : List TokenId)
    → IsValid config
    → config.context_length < 2 ^ 32
    → has_other_width config visual ≡ false
    → 1 ≤ length before + visual_count_of visual + length after
    → length before + visual_count_of visual + length after ≤ config.context_length
    → capacity_of flash (length before + visual_count_of visual + length after)
      ≤ config.context_length
    → (chunks : List Chunk) × (schedule flash config before visual after ≡ ok chunks)
      × IsSchedule before (visual_count_of visual) after chunks
unfolding schedule
schedule-IsSchedule flash config before visual after v small width some_position inside roomy =
    let count = visual_count_of visual in
    let total = length before + count + length after in
    let (cache, made) =
      create_total config (capacity_of flash total) v
        (capacity_of-positive flash total some_position (omega (arith, inside, small))) roomy in
    let (chunks, run, c) =
      chunks_from-Covers flash before count after (suc total) 0 (omega (arith, inside, small))
        (omega arith) (omega arith) in
    let passes : (total == 0 || ltb config.context_length total) ≡ false =
      ground (arith, some_position, inside) in
    let all_left : total - 0 ≡ total = omega arith in
    let whole =
      part_whole (prompt_columns before count after) 0 0 total (omega arith)
        (omega (arith, length-prompt_columns before count after)) in
    (
      chunks,
      rw (width, passes, made, run) refl,
      record {
        inputs_whole = c.inputs_same ∙ whole;
        positions_whole =
            c.positions_same
            ∙ ap (positions_from 0) all_left
            ∙ positions_from-count_up 0 total (omega (arith, inside, small));
        ids_whole =
            c.ids_same
            ∙ ap (per_layer_ids_from before (length before + count) after 0) all_left
            ∙ per_layer_ids_whole before count after;
        fit = c.all_fit;
      },
    )
