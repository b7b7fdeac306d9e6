-- ===== src/Adapter/Response.antt =====
-- `make_response` of src/systemone_adapter.cpp, with the helpers above it.
pub mod Encodable
use branchscore.Adapter.Request.{Request, ChoiceQuestion}
use branchscore.Base.{
  ℕ, suc, ◌+◌, ◌-◌, ◌^◌, Bool, true, false, not, ◌&&◌, ◌||◌, Option, none, some, List, [], ◌∷◌,
  Bytes, codes, equal, less, ltb, ◌==◌, if◌then◌else◌, length,
}
use branchscore.Decision.{DecisionOption, DecisionResult, OptionScore, TimingInfo}
use branchscore.Double.{Double, is_finite, double_of_size}
use branchscore.Json.Value.{
  Value, Items, Fields, string, array, object, no_items, item, no_fields, emplace,
}
use branchscore.Json.Value
use branchscore.Result.{Result, ok, throw, runtime_error, throw_if, ◌>>=◌, ◌>>◌}

unfoldable pub number : Double → Result Value
number value = if is_finite value then ok (Value.number value) else throw runtime_error

unfoldable pub size_number : ℕ → Result Value
unfolding number
size_number value = number (double_of_size value)

-- `emplace` of each in turn; a value is computed before it is stored.
unfoldable pub emplace_all : Fields → List (Bytes × Result Value) → Result Fields
emplace_all fs [] = ok fs
emplace_all fs ((key, value) ∷ members) = do v ← value; emplace_all (emplace key v fs) members

abbrev pub timing_members : TimingInfo → List (Bytes × Result Value)
timing_members timing =
    (codes "prompt_rendering_ms", number timing.prompt_rendering_ms)
    ∷ (codes "tokenization_ms", number timing.tokenization_ms)
    ∷ (codes "image_preprocessing_ms", number timing.image_preprocessing_ms)
    ∷ (codes "vision_ms", number timing.vision_ms)
    ∷ (codes "vision_backend_copy_ms", number timing.vision_backend_copy_ms)
    ∷ (codes "vision_synchronization_ms", number timing.vision_synchronization_ms)
    ∷ (codes "vision_graph_node_count", size_number timing.vision_graph_node_count)
    ∷ (codes "vision_attention_path", ok (string timing.vision_attention_path))
    ∷ (codes "prefill_ms", number timing.prefill_ms)
    ∷ (codes "prefill_backend_copy_ms", number timing.prefill_backend_copy_ms)
    ∷ (codes "prefill_synchronization_ms", number timing.prefill_synchronization_ms)
    ∷ (codes "prefill_graph_node_count", size_number timing.prefill_graph_node_count)
    ∷ (codes "prefill_attention_path", ok (string timing.prefill_attention_path))
    ∷ (codes "prefill_kv_type", ok (string timing.prefill_kv_type))
    ∷ (codes "prefill_positions", size_number timing.prefill_positions)
    ∷ (codes "prefill_graph_count", size_number timing.prefill_graph_count)
    ∷ (codes "prefill_microbatch_size", size_number timing.prefill_microbatch_size)
    ∷ (codes "prefill_cache_bytes", size_number timing.prefill_cache_bytes)
    ∷ (codes "prefill_peak_graph_bytes", size_number timing.prefill_peak_graph_bytes)
    ∷ (codes "readout_ms", number timing.readout_ms)
    ∷ (codes "readout_backend_copy_ms", number timing.readout_backend_copy_ms)
    ∷ (codes "readout_synchronization_ms", number timing.readout_synchronization_ms)
    ∷ (codes "readout_graph_node_count", size_number timing.readout_graph_node_count)
    ∷ (codes "normalization_ms", number timing.normalization_ms)
    ∷ (codes "request_total_ms", number timing.request_total_ms)
    ∷ []

unfoldable pub timing_json : TimingInfo → Result Value
unfolding emplace_all number size_number
timing_json timing = do result ← emplace_all no_fields (timing_members timing); ok (object result)

-- `std::set::insert`
unfoldable pub insert : Bytes → List Bytes → List Bytes
insert k [] = k ∷ []
insert k (j ∷ js) = if less k j then k ∷ j ∷ js else if equal k j then j ∷ js else j ∷ insert k js

-- `operator==` of two sets
unfoldable pub same_set : List Bytes → List Bytes → Bool
same_set [] [] = true
same_set (x ∷ xs) (y ∷ ys) = equal x y && same_set xs ys
same_set _ _ = false

-- `std::set::count`
unfoldable pub member : Bytes → List Bytes → Bool
member k [] = false
member k (j ∷ js) = if equal j k then true else member k js

unfoldable pub expected_ids : List Bytes → List DecisionOption → List Bytes
unfolding insert
expected_ids ids [] = ids
expected_ids ids (option ∷ options) = expected_ids (insert option.id ids) options

unfoldable pub actual_ids : List Bytes → List OptionScore → List Bytes
unfolding insert
actual_ids ids [] = ids
actual_ids ids (score ∷ scores) = actual_ids (insert score.option_id ids) scores

unfoldable pub validate_result : ChoiceQuestion → DecisionResult → Result (Unit {0})
unfolding expected_ids actual_ids same_set member
validate_result question result = do
  throw_if (not (length result.option_scores == length question.decision.options)) runtime_error
  let expected = expected_ids [] question.decision.options
  let actual = actual_ids [] result.option_scores
  throw_if (not (same_set actual expected) || not (length actual == length result.option_scores))
      runtime_error
  throw_if (not (member result.selected_id expected)) runtime_error

-- The loop over the scores.
unfoldable pub score_maps : Fields → Fields → List OptionScore → Result (Fields × Fields)
unfolding number
score_maps probabilities raw_logits [] = ok (probabilities, raw_logits)
score_maps probabilities raw_logits (score ∷ scores) = do
  probability ← number score.relative_probability
  raw ← number score.raw_score
  score_maps (emplace score.option_id probability probabilities)
      (emplace score.option_id raw raw_logits) scores

unfoldable pub option_order : List OptionScore → Items
option_order [] = no_items
option_order (score ∷ scores) = item (string score.option_id) (option_order scores)

abbrev pub answer_members : Bytes → Fields → List (Bytes × Result Value)
answer_members selected_id probabilities =
    (codes "type", ok (string (codes "choice")))
    ∷ (codes "choice", ok (string selected_id))
    ∷ (codes "probabilities", ok (object probabilities))
    ∷ (codes "confidence", number (double_of_size 1))
    ∷ []

unfoldable pub answer_json : Bytes → Fields → Result Value
unfolding emplace_all number
answer_json selected_id probabilities = do
  answer ← emplace_all no_fields (answer_members selected_id probabilities)
  ok (object answer)

abbrev pub diagnostic_members : DecisionResult → List (Bytes × Result Value)
diagnostic_members result =
    (codes "scoring_basis", ok (string result.scoring_basis))
    ∷ (codes "readout_id", ok (string result.readout_id))
    ∷ (codes "prompt_identity", ok (string result.rendered_prompt_identity))
    ∷ (codes "renderer_id", ok (string result.prompt_format.renderer_id))
    ∷ (codes "option_order", ok (array (option_order result.option_scores)))
    ∷ (codes "timings_ms", timing_json result.timings)
    ∷ []

unfoldable pub diagnostic_json : DecisionResult → Fields → Bool → Result Value
unfolding emplace_all timing_json option_order
diagnostic_json result raw_logits include_raw_logits = do
  diagnostic ← emplace_all no_fields (diagnostic_members result)
  ok (
      object (
        if include_raw_logits
        then emplace (codes "raw_logits") (object raw_logits) diagnostic
        else diagnostic))

-- What the loop over the questions has built.
pub record Progress : Type 0 where
  pub answers : Fields
  pub diagnostic_questions : Fields
  pub input_tokens : ℕ

-- The loop over the questions; there are as many results.
unfoldable pub answer_questions :
    Bool → Progress → List ChoiceQuestion → List DecisionResult → Result Progress
unfolding validate_result score_maps answer_json diagnostic_json
answer_questions include_raw_logits p (question ∷ questions) (result ∷ results) = do
  validate_result question result
  let token_count = length result.rendered_prompt_token_ids
  throw_if (ltb (2 ^ 64 - 1 - p.input_tokens) token_count) runtime_error
  (probabilities, raw_logits) ← score_maps no_fields no_fields result.option_scores
  answer ← answer_json result.selected_id probabilities
  diagnostic ← diagnostic_json result raw_logits include_raw_logits
  answer_questions include_raw_logits
      (record {
        answers = emplace question.id answer p.answers;
        diagnostic_questions = emplace question.id diagnostic p.diagnostic_questions;
        input_tokens = p.input_tokens + token_count;
      })
      questions results
answer_questions include_raw_logits p _ _ = ok p

abbrev pub usage_members : Progress → List (Bytes × Result Value)
usage_members p =
    (codes "input_tokens", size_number p.input_tokens)
    ∷ (codes "output_tokens", number (double_of_size 0))
    ∷ []

abbrev pub metadata_members : Progress → List (Bytes × Result Value)
metadata_members p =
    (codes "schema_version", number (double_of_size 2))
    ∷ (codes "confidence_kind", ok (string (codes "constant_placeholder")))
    ∷ (codes "questions", ok (object p.diagnostic_questions))
    ∷ []

abbrev pub response_members : Request → Progress → Fields → Fields → List (Bytes × Result Value)
response_members request p usage metadata =
    (codes "model", ok (string request.model_id))
    ∷ (codes "answers", ok (object p.answers))
    ∷ (codes "usage", ok (object usage))
    ∷ (codes "branchscore", ok (object metadata))
    ∷ []

-- `if (request_id) response.emplace("request_id", *request_id);`
abbrev pub with_request_id : Option Bytes → Fields → Fields
with_request_id none response = response
with_request_id (some id) response = emplace (codes "request_id") (string id) response

unfoldable pub make_response : Request → List DecisionResult → Bool → Result Value
unfolding answer_questions emplace_all size_number number
make_response request results include_raw_logits = do
  throw_if (not (length results == length request.questions)) runtime_error
  p ←
      answer_questions include_raw_logits
        (record { answers = no_fields; diagnostic_questions = no_fields; input_tokens = 0 })
        request.questions results
  usage ← emplace_all no_fields (usage_members p)
  metadata ← emplace_all no_fields (metadata_members p)
  response ← emplace_all no_fields (response_members request p usage metadata)
  ok (object (with_request_id request.request_id response))
