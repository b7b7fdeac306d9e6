-- ===== src/Prefill/Schedule.antt =====
-- The chunks of `PrefillEngine::prefill` of src/prefill_engine.cpp: what each gets as input. The
-- graph that is computed from it is left out.
use branchscore.Base.{
  ℕ, zero, suc, ◌+◌, ◌-◌, ◌*◌, ◌/◌, ◌%◌, ◌^◌, min, max, Bool, false, not, ◌||◌, Option, none, some,
  List, [], ◌∷◌, ◌++◌, ltb, leb, ◌==◌, if◌then◌else◌, length, get_elem?, take, drop,
}
use branchscore.Cache.State.{TextModelConfig, create}
use branchscore.Decision.{TokenId}
use branchscore.Result.{Result, ok, out_of_fuel, runtime_error, throw_if, ◌>>=◌, ◌>>◌}

abbrev pub microbatch_size : ℕ
microbatch_size = 512

-- A column of the input: the embedding of a token, or a visual token.
pub data Column : Type 0 where
  text_column : TokenId → Column
  visual_column : ℕ → Column

pub record Chunk : Type 0 where
  pub start : ℕ
  pub query_count : ℕ
  pub cache_count : ℕ
  pub per_layer_ids : List TokenId
  pub positions : List ℕ
  pub input : List Column

-- `padded_count`, on `std::size_t`
unfoldable pub padded_count : ℕ → ℕ
padded_count count = (count + 255) % 2 ^ 64 / 256 * 256

unfoldable pub columns_of : List TokenId → List Column
columns_of [] = []
columns_of (id ∷ ids) = text_column id ∷ columns_of ids

-- So many visual tokens, from an offset on
unfoldable pub visual_columns : ℕ → ℕ → List Column
visual_columns offset zero = []
visual_columns offset (suc count) = visual_column offset ∷ visual_columns (suc offset) count

-- `append_text`: the tokens of a segment that lie in the chunk
unfoldable pub overlap_text : List TokenId → ℕ → ℕ → ℕ → List TokenId
overlap_text tokens segment_start chunk_start chunk_end =
    let overlap_start = max chunk_start segment_start in
    let overlap_end = min chunk_end (segment_start + length tokens) in
    if leb overlap_end overlap_start
    then []
    else take (overlap_end - overlap_start) (drop (overlap_start - segment_start) tokens)

-- The visual tokens that lie in the chunk
unfoldable pub overlap_visual : ℕ → ℕ → ℕ → ℕ → List Column
overlap_visual visual_begin visual_end chunk_start chunk_end =
    let overlap_start = max chunk_start visual_begin in
    let overlap_end = min chunk_end visual_end in
    if ltb overlap_start overlap_end
    then visual_columns (overlap_start - visual_begin) (overlap_end - overlap_start)
    else []

-- The input of a chunk, in the order in which the code appends its parts
unfoldable pub chunk_input : List TokenId → ℕ → List TokenId → ℕ → ℕ → List Column
chunk_input before visual_count after chunk_start chunk_end =
    let visual_begin = length before in
    let visual_end = visual_begin + visual_count in
    columns_of (overlap_text before 0 chunk_start chunk_end)
    ++ overlap_visual visual_begin visual_end chunk_start chunk_end
    ++ columns_of (overlap_text after visual_end chunk_start chunk_end)

-- `vector[index]`, of an index inside
abbrev pub id_at : Option TokenId → TokenId
id_at none = 0
id_at (some id) = id

-- The per-layer id at a position: 0 for a visual token
unfoldable pub per_layer_id : List TokenId → ℕ → List TokenId → ℕ → TokenId
per_layer_id before visual_end after position =
    if ltb position (length before)
    then id_at (get_elem? before position)
    else if leb visual_end position
    then id_at (get_elem? after (position - visual_end))
    else 0

-- The loop over the positions of a chunk, of which `count` are left
unfoldable pub per_layer_ids_from : List TokenId → ℕ → List TokenId → ℕ → ℕ → List TokenId
per_layer_ids_from before visual_end after position zero = []
per_layer_ids_from before visual_end after position (suc count) =
    per_layer_id before visual_end after position
    ∷ per_layer_ids_from before visual_end after (suc position) count

-- The positions, each an `int32_t` as its bit pattern
unfoldable pub positions_from : ℕ → ℕ → List ℕ
positions_from position zero = []
positions_from position (suc count) = position % 2 ^ 32 ∷ positions_from (suc position) count

unfoldable pub make_chunk : Bool → List TokenId → ℕ → List TokenId → ℕ → ℕ → Result Chunk
make_chunk flash before visual_count after token_count chunk_start =
    let query_count = min microbatch_size (token_count - chunk_start) in
    let chunk_end = chunk_start + query_count in
    let input = chunk_input before visual_count after chunk_start chunk_end in
    throw_if (length input == 0 || not (length input == query_count)) runtime_error
    >> ok (record {
      start = chunk_start;
      query_count = query_count;
      cache_count = if flash then padded_count chunk_end else chunk_end;
      per_layer_ids =
          per_layer_ids_from before (length before + visual_count) after chunk_start query_count;
      positions = positions_from chunk_start query_count;
      input = input;
    })

-- The loop over the chunks
unfoldable pub chunks_from :
    Bool → List TokenId → ℕ → List TokenId → ℕ → ℕ → ℕ → Result (List Chunk)
chunks_from flash before visual_count after token_count zero chunk_start = out_of_fuel
chunks_from flash before visual_count after token_count (suc fuel) chunk_start =
    let chunk = make_chunk flash before visual_count after token_count chunk_start in
    let rest =
      chunks_from flash before visual_count after token_count fuel
        (chunk_start + microbatch_size) in
    if ltb chunk_start token_count
    then (chunk >>= λ first. rest >>= λ more. ok (first ∷ more))
    else ok []

-- `VisualTokens` of the vision encoder, without their tensor
pub record VisualTokens : Type 0 where
  pub embedding_length : ℕ
  pub token_count : ℕ

unfoldable pub visual_count_of : Option VisualTokens → ℕ
visual_count_of none = 0
visual_count_of (some visual) = visual.token_count

unfoldable pub has_other_width : TextModelConfig → Option VisualTokens → Bool
has_other_width config none = false
has_other_width config (some visual) = not (visual.embedding_length == config.embedding_length)

-- The capacity of the state cache
unfoldable pub capacity_of : Bool → ℕ → ℕ
capacity_of flash token_count = if flash then padded_count token_count else token_count

-- The chunks of a prefill: the checks, the state cache and the loop. `flash` is whether the device is
-- of the family CUDA.
unfoldable pub schedule :
    Bool → TextModelConfig → List TokenId → Option VisualTokens → List TokenId → Result (List Chunk)
schedule flash config before visual after =
    let visual_count = visual_count_of visual in
    let token_count = length before + visual_count + length after in
    throw_if (has_other_width config visual) runtime_error
    >> (throw_if (token_count == 0 || ltb config.context_length token_count) runtime_error
        >> (create config (capacity_of flash token_count) >>= λ cache.
            chunks_from flash before visual_count after token_count (suc token_count) 0))
