-- ===== src/Tests/Engine.antt =====
-- A small machine for src/gemma4_decision_engine.cpp and src/categorical_readout.cpp.
use branchscore.Base.{
  ◌*◌, ◌^◌, ◌≤◌, ◌≡◌, refl, sym, true, false, none, some, List, [], ◌∷◌, Bytes, codes, length,
  if◌then◌else◌, arith, equal, starts_with, find_text, take, drop, less, ◌==◌,
}
use branchscore.Decision.{
  DecisionOption, DecisionRequest, DecisionResult, TimingInfo, TokenId, direct_answer_disabled,
  has_image, max_prefill_positions,
}
use branchscore.Engine.Evaluate.{
  Machine, image_count, count_id, index_of, has_boundaries, check_image_tokens, contains,
  answer_tokens_of, ids_of, option_scores_of, selected_score, render_request, prepare_image,
  encode_image, make_result, positions_of, estimate_prefill_positions, evaluate,
}
use branchscore.Engine.Around.{CountsAgree}
use branchscore.Engine.Estimate.{IsPositions, estimate_prefill_positions-evaluate}
use branchscore.Engine.Sound.{IsDecision, evaluate_sound}
use branchscore.Engine.Validate.{seen, validate_options, validate_request, check_position_budget}
use branchscore.Readout.Float.{Float}
use branchscore.Readout.Selected.{IsSummary, summarize_categorical_sound}
use branchscore.Readout.Summary.{
  Arithmetic, CategoricalSummary, all_inside, all_finite, computed, vocabulary_of,
  gather_categorical_logits, max_element, sum_weights, is_not_positive, probabilities, has_tie,
  summarize_categorical,
}
use branchscore.Readout.Float.{is_finite_float, is_nan, place, float_less, float_equal}
use branchscore.Double.{is_finite}
use branchscore.Result.{Result, ok, throw, out_of_fuel, image_decode_error}
use branchscore.Tokenizer.AnswerLabel.{
  tokenize_answer_label, boundary_prompt, is_fixed_suffix, all_uppercase, ends_with, spans_boundary,
  require_only, check_label_token, extends_by, back,
}
use branchscore.Tokenizer.Merge.{
  at, store, split_symbols, bigram_later, push, enqueue, add_bigram, first_bigrams, relink, join,
  is_stale, add_neighbours, merge_symbols, require_id, byte_tokens, whole_or, symbol_tokens, emit,
  all_newlines, tokenize_symbols, tokenize_segment,
}
use branchscore.Tokenizer.Segments.{
  run_length, tokenize_runs, tokenize_raw, earlier, first_match, raw_part, consume, tokenize_rest,
  tokenize,
}
use branchscore.Tokenizer.Vocabulary.{
  Impl, in_range, find_id, find_rank, find_token, byte_piece, piece, is_special_id,
  utf8_character_size, escape_spaces,
}
use branchscore.Tests.Adapter.{no_image}
use branchscore.Tests.Codec.{unary_libc}
use branchscore.Prompt.Render.{
  RenderedPrompt, render, render_options, answer_label, rendered_option, renderer_id, preamble,
  prompt_identity,
}
use branchscore.Json.Printer.{append_escaped, stringify}
use branchscore.Json.Value.{emplace}

-- Every number stands for 1.0, but for the conversion of a `float`.
abbrev arithmetic : Arithmetic
arithmetic = record {
  widen = λ f. f;
  add = λ a b. 1023 * 2 ^ 52;
  subtract = λ a b. 1023 * 2 ^ 52;
  divide = λ a b. 1023 * 2 ^ 52;
  exp = λ a. 1023 * 2 ^ 52;
}

-- 1.0, 2.0 and 2.0
abbrev three_scores : List Float
three_scores = 0x3f800000 ∷ 0x40000000 ∷ 0x40000000 ∷ []

abbrev second : CategoricalSummary
second = record {
  relative_probabilities = 1023 * 2 ^ 52 ∷ 1023 * 2 ^ 52 ∷ 1023 * 2 ^ 52 ∷ [];
  selected_index = 1;
  exact_tie = true;
}

second_selected : summarize_categorical arithmetic three_scores ≡ ok second
unfolding summarize_categorical max_element sum_weights is_not_positive probabilities has_tie
    is_finite_float is_nan place float_less float_equal is_finite
second_selected = refl

summarize_categorical_sound_example : IsSummary three_scores second
summarize_categorical_sound_example =
    summarize_categorical_sound arithmetic three_scores second second_selected

-- A machine whose tokenizer has one special token, the prompt, and whose model prefers B.
abbrev two_options : List DecisionOption
two_options =
    record { id = codes "a"; description = codes "first" }
    ∷ record { id = codes "b"; description = codes "second" }
    ∷ []

abbrev text_of : Result RenderedPrompt → Bytes
text_of (ok rendered) = rendered.text
text_of (throw e) = []
text_of out_of_fuel = []

abbrev rendered_text : Bytes
rendered_text = text_of (render unary_libc (codes "s") (codes "q") two_options false none false)

abbrev ascii : Impl
ascii = record {
  id_to_piece = [] ∷ [] ∷ [] ∷ codes "A" ∷ codes "B" ∷ [];
  token_types = [];
  piece_to_id = (codes "A", 3) ∷ (codes "B", 4) ∷ [];
  merge_ranks = [];
  special_tokens = record { text = rendered_text; id = 2; type = 3 } ∷ [];
  bos = 0;
  eos = 1;
  chat_template = none;
}

abbrev ones : List TokenId → List Float
ones [] = []
ones (id ∷ ids) = (if id == 4 then 0x40000000 else 0x3f800000) ∷ ones ids

length-ones : (ids : List TokenId) → length (ones ids) ≡ length ids
length-ones [] = refl
length-ones (id ∷ ids) = omega (arith, length-ones ids)

abbrev no_timings : TimingInfo
no_timings = record {
  prompt_rendering_ms = 0;
  tokenization_ms = 0;
  image_preprocessing_ms = 0;
  vision_ms = 0;
  vision_backend_copy_ms = 0;
  vision_synchronization_ms = 0;
  vision_graph_node_count = 0;
  vision_attention_path = [];
  prefill_ms = 0;
  prefill_backend_copy_ms = 0;
  prefill_synchronization_ms = 0;
  prefill_graph_node_count = 0;
  prefill_attention_path = [];
  prefill_kv_type = [];
  prefill_positions = 0;
  prefill_graph_count = 0;
  prefill_microbatch_size = 0;
  prefill_cache_bytes = 0;
  prefill_peak_graph_bytes = 0;
  readout_ms = 0;
  readout_backend_copy_ms = 0;
  readout_synchronization_ms = 0;
  readout_graph_node_count = 0;
  normalization_ms = 0;
  request_total_ms = 0;
}

abbrev machine : Machine Bytes Bytes (List TokenId)
machine = record {
  impl = ascii;
  libc = unary_libc;
  stbi_info = no_image;
  context_length = 4096;
  estimate_visual_token_count = λ info. ok 1;
  load = λ path. throw image_decode_error;
  load_encoded = λ bytes. throw image_decode_error;
  visual_token_count = λ image. ok 1;
  encode = λ image. ok image;
  prefill = λ before visual after. ok before;
  logits = λ state. record { vocabulary = some 400; gather = λ ids. some (ones ids) };
  arithmetic = arithmetic;
  timings = λ visual state. no_timings;
}

ones-length :
    (s asked : List TokenId) (given : List Float)
    → (machine.logits s).gather asked ≡ some given
    → length given ≡ length asked
ones-length s asked given e = rw (sym (some-injective e)) (length-ones asked)
  where
    some-injective : {a b : List Float} → some a ≡ some b → a ≡ b
    some-injective h = cc

abbrev request : DecisionRequest
request = record {
  state = codes "s";
  question = codes "q";
  options = two_options;
  image_path = none;
  image_bytes = none;
  reasoning = direct_answer_disabled;
  chat_template_file = none;
  capture_vision_debug = false;
}

-- What a run returned, with `fallback` where it did not.
abbrev returned : DecisionResult → Result DecisionResult → DecisionResult
returned fallback (ok result) = result
returned fallback (throw e) = fallback
returned fallback out_of_fuel = fallback

abbrev fallback : DecisionResult
fallback = record {
  option_scores = [];
  selected_index = 0;
  selected_id = [];
  exact_tie = false;
  scoring_basis = [];
  readout_id = [];
  prompt_format = record {
    renderer_id = [];
    model_family = [];
    effective_source = [];
    requested_template_file = none;
    requested_template_applied = false;
    gguf_chat_template_present = false;
    gguf_chat_template_used = false;
  };
  rendered_prompt_identity = [];
  rendered_prompt_token_ids = [];
  timings = no_timings;
}

abbrev decision : DecisionResult
decision = returned fallback (evaluate machine request)

decided : evaluate machine request ≡ ok decision
unfolding evaluate validate_request validate_options seen check_position_budget render_request
    render render_options answer_label rendered_option renderer_id preamble prompt_identity
    stringify tokenize tokenize_rest consume first_match earlier find_text starts_with raw_part take
    drop tokenize_raw tokenize_runs escape_spaces tokenize_segment all_newlines tokenize_symbols
    split_symbols run_length equal add_bigram add_neighbours at bigram_later byte_tokens emit
    enqueue first_bigrams is_stale join merge_symbols push relink require_id store symbol_tokens
    whole_or byte_piece find_id find_rank utf8_character_size tokenize_answer_label boundary_prompt
    is_fixed_suffix all_uppercase ends_with spans_boundary require_only check_label_token extends_by
    back piece in_range is_special_id count_id index_of has_boundaries check_image_tokens contains
    answer_tokens_of ids_of option_scores_of selected_score prepare_image encode_image make_result
    all_inside all_finite computed vocabulary_of gather_categorical_logits summarize_categorical
    max_element sum_weights is_not_positive probabilities has_tie is_finite_float is_nan place
    float_less float_equal is_finite emplace less append_escaped
decided = refl

decided_second : decision.selected_id ≡ codes "b"
unfolding evaluate validate_request validate_options seen check_position_budget render_request
    render render_options answer_label rendered_option renderer_id preamble prompt_identity
    stringify tokenize tokenize_rest consume first_match earlier find_text starts_with raw_part take
    drop tokenize_raw tokenize_runs escape_spaces tokenize_segment all_newlines tokenize_symbols
    split_symbols run_length equal add_bigram add_neighbours at bigram_later byte_tokens emit
    enqueue first_bigrams is_stale join merge_symbols push relink require_id store symbol_tokens
    whole_or byte_piece find_id find_rank utf8_character_size tokenize_answer_label boundary_prompt
    is_fixed_suffix all_uppercase ends_with spans_boundary require_only check_label_token extends_by
    back piece in_range is_special_id count_id index_of has_boundaries check_image_tokens contains
    answer_tokens_of ids_of option_scores_of selected_score prepare_image encode_image make_result
    all_inside all_finite computed vocabulary_of gather_categorical_logits summarize_categorical
    max_element sum_weights is_not_positive probabilities has_tie is_finite_float is_nan place
    float_less float_equal is_finite emplace less append_escaped
decided_second = refl

evaluate_sound_example :
    IsDecision arithmetic request.options decision
    × (length decision.rendered_prompt_token_ids ≤ 4096)
    × (length decision.rendered_prompt_token_ids ≤ max_prefill_positions)
    × (image_count (find_token ascii (codes "<|image|>")) decision.rendered_prompt_token_ids
        ≡ (if has_image request then 1 else 0))
evaluate_sound_example = evaluate_sound machine request decision ones-length decided

estimated : estimate_prefill_positions machine request ≡ ok 1
unfolding evaluate validate_request validate_options seen check_position_budget render_request
    render render_options answer_label rendered_option renderer_id preamble prompt_identity
    stringify tokenize tokenize_rest consume first_match earlier find_text starts_with raw_part take
    drop tokenize_raw tokenize_runs escape_spaces tokenize_segment all_newlines tokenize_symbols
    split_symbols run_length equal add_bigram add_neighbours at bigram_later byte_tokens emit
    enqueue first_bigrams is_stale join merge_symbols push relink require_id store symbol_tokens
    whole_or byte_piece find_id find_rank utf8_character_size tokenize_answer_label boundary_prompt
    is_fixed_suffix all_uppercase ends_with spans_boundary require_only check_label_token extends_by
    back piece in_range is_special_id count_id index_of has_boundaries check_image_tokens contains
    answer_tokens_of ids_of option_scores_of selected_score prepare_image encode_image make_result
    all_inside all_finite computed vocabulary_of gather_categorical_logits summarize_categorical
    max_element sum_weights is_not_positive probabilities has_tie is_finite_float is_nan place
    float_less float_equal is_finite emplace less append_escaped estimate_prefill_positions
    positions_of
estimated = refl

machine-CountsAgree : CountsAgree machine
machine-CountsAgree = record {
  same_count = λ bytes info image inspected loaded. absurd (no_image_there loaded);
}
  where
    no_image_there : {image : Bytes} → throw image_decode_error ≡ ok image → ⊥
    no_image_there h = cc

estimate_prefill_positions-evaluate_example :
    IsPositions machine request decision.rendered_prompt_token_ids 1
    × (1 ≤ 4096)
    × (1 ≤ max_prefill_positions)
estimate_prefill_positions-evaluate_example =
    estimate_prefill_positions-evaluate machine request 1 decision machine-CountsAgree estimated
      decided
