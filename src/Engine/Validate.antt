-- ===== src/Engine/Validate.antt =====
-- `validate_request` and `check_position_budget` of src/gemma4_decision_engine.cpp.
use branchscore.Base.{
  ℕ, Bool, true, false, not, ◌&&◌, ◌||◌, Option, none, some, List, [], ◌∷◌, Bytes, equal, ltb,
  if◌then◌else◌, length,
}
use branchscore.Decision.{
  DecisionOption, DecisionRequest, min_decision_options, max_decision_options,
  max_prefill_positions, has_value, has_image,
}
use branchscore.Result.{Result, ok, runtime_error, decision_budget_error, throw_if, ◌>>◌}

abbrev pub is_empty : Bytes → Bool
is_empty [] = true
is_empty (c ∷ cs) = false

-- `ids.insert(id).second` is false: the id is there.
unfoldable pub seen : Bytes → List Bytes → Bool
seen id [] = false
seen id (i ∷ is) = if equal i id then true else seen id is

-- The loop over the options, with the ids inserted so far.
unfoldable pub validate_options : List Bytes → List DecisionOption → Result (Unit {0})
unfolding seen
validate_options ids [] = ok tt
validate_options ids (option ∷ options) = do
  throw_if (is_empty option.id) runtime_error
  throw_if (is_empty option.description) runtime_error
  throw_if (seen option.id ids) runtime_error
  validate_options (option.id ∷ ids) options

-- A path or a file name that is there and empty.
abbrev pub is_blank : Option Bytes → Bool
is_blank none = false
is_blank (some s) = is_empty s

unfoldable pub validate_request : DecisionRequest → Result (Unit {0})
unfolding validate_options
validate_request request = do
  throw_if (is_empty request.state) runtime_error
  throw_if (is_empty request.question) runtime_error
  throw_if
      (ltb (length request.options) min_decision_options
        || ltb max_decision_options (length request.options))
      runtime_error
  validate_options [] request.options
  throw_if (is_blank request.image_path) runtime_error
  throw_if (has_value request.image_path && has_value request.image_bytes) runtime_error
  throw_if (is_blank request.chat_template_file) runtime_error
  throw_if (request.capture_vision_debug && not (has_image request)) runtime_error

unfoldable pub check_position_budget : ℕ → ℕ → Result (Unit {0})
check_position_budget positions context_length = do
  throw_if (ltb context_length positions) (decision_budget_error "context_limit_exceeded")
  throw_if (ltb max_prefill_positions positions) (decision_budget_error "token_budget_exceeded")
