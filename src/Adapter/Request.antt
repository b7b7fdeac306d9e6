-- ===== src/Adapter/Request.antt =====
-- `parse_request` of src/systemone_adapter.cpp, with the helpers above it.
use branchscore.Adapter.Base64.{decode_base64}
use branchscore.Base.{
  ℕ, Bool, true, false, not, ◌&&◌, ◌||◌, Option, none, some, List, [], ◌∷◌, ◌++◌, Bytes, codes,
  equal, ltb, ◌==◌, starts_with, if◌then◌else◌,
}
use branchscore.Decision.{
  DecisionOption, DecisionRequest, direct_answer_disabled, min_decision_options,
  max_decision_options,
}
use branchscore.Double.{Libc}
use branchscore.Image.Inspect.{StbiInfo, inspect_encoded}
use branchscore.Json.Printer.{stringify}
use branchscore.Json.Value.{
  Value, Fields, null_value, string, array, object, no_fields, field, find, size,
}
use branchscore.Result.{
  Exception, Result, ok, throw, out_of_fuel, request_error, invalid_argument, throw_if, ◌>>=◌, ◌>>◌,
}

abbrev pub invalid_request : Exception
invalid_request = request_error "invalid_request"

abbrev pub max_questions_per_request : ℕ
max_questions_per_request = 16

unfoldable pub required : Value → Bytes → Result Value
unfolding find
required v key = elim (find key v) [ none ↦ throw invalid_request | some w ↦ ok w ]

unfoldable pub required_string : Value → Bytes → Result Bytes
unfolding required
required_string v key =
    required v key >>= λ w. elim w [ string s ↦ ok s | _ ↦ throw invalid_request ]

unfoldable pub require_object : Value → Result Fields
require_object (object fs) = ok fs
require_object _ = throw invalid_request

-- `std::set::count`
unfoldable pub member : Bytes → List Bytes → Bool
member k [] = false
member k (j ∷ js) = if equal j k then true else member k js

unfoldable pub reject_unknown_fields : Fields → List Bytes → Result (Unit {0})
unfolding member
reject_unknown_fields no_fields supported = ok tt
reject_unknown_fields (field k v fs) supported =
    let rest = reject_unknown_fields fs supported in
    if member k supported then rest else throw invalid_request

abbrev pub is_empty : Bytes → Bool
is_empty [] = true
is_empty (c ∷ cs) = false

unfoldable pub serialize_state : Libc → Value → Result Bytes
serialize_state libc (string s) = if is_empty s then throw invalid_request else ok s
serialize_state libc (array xs) = stringify libc (array xs)
serialize_state libc (object fs) = stringify libc (object fs)
serialize_state libc _ = throw invalid_request

abbrev pub png_signature : Bytes
png_signature = 0x89 ∷ b'P' ∷ b'N' ∷ b'G' ∷ 0x0d ∷ 0x0a ∷ 0x1a ∷ 0x0a ∷ []

abbrev pub jpeg_signature : Bytes
jpeg_signature = 0xff ∷ 0xd8 ∷ 0xff ∷ []

-- `catch (const std::exception &)`: every exception becomes this one.
abbrev pub rethrow {ℓ} : {A : Type ℓ} → Exception → Result A → Result A
rethrow e (ok a) = ok a
rethrow e (throw e') = throw e
rethrow e out_of_fuel = out_of_fuel

unfoldable pub parse_image : StbiInfo → Value → Result Bytes
unfolding require_object reject_unknown_fields required_string starts_with
parse_image stbi_info image = do
  fields ← require_object image
  reject_unknown_fields fields (codes "media_type" ∷ codes "data_base64" ∷ [])
  media_type ← required_string image (codes "media_type")
  encoded ← required_string image (codes "data_base64")
  let is_png = equal media_type (codes "image/png")
  throw_if (not is_png && not (equal media_type (codes "image/jpeg")))
      (request_error "unsupported_media_type")
  bytes ← decode_base64 encoded
  throw_if
      (not (if is_png then starts_with png_signature bytes else starts_with jpeg_signature bytes))
      (request_error "invalid_image")
  _ ← rethrow (request_error "invalid_image") (inspect_encoded stbi_info bytes)
  ok bytes

pub record ChoiceQuestion : Type 0 where
  pub id : Bytes
  pub decision : DecisionRequest

pub record Request : Type 0 where
  pub model_id : Bytes
  pub request_id : Option Bytes
  pub image_bytes : Option Bytes
  pub questions : List ChoiceQuestion

-- What the model sees of a criterion.
unfoldable pub visible_description : Bytes → Value → Result Bytes
visible_description option_id null_value = ok option_id
visible_description option_id (string s) = ok (option_id ++ codes ": " ++ s)
visible_description option_id _ = throw invalid_request

-- The loop over the criteria.
unfoldable pub parse_criteria : Fields → Result (List DecisionOption)
unfolding visible_description
parse_criteria no_fields = ok []
parse_criteria (field option_id description fs) = do
  throw_if (is_empty option_id) invalid_request
  visible ← visible_description option_id description
  more ← parse_criteria fs
  ok (record { id = option_id; description = visible } ∷ more)

-- The body of the loop over the questions.
unfoldable pub parse_question : Bytes → Option Bytes → Bytes → Value → Result ChoiceQuestion
unfolding require_object reject_unknown_fields required_string parse_criteria
parse_question state image_bytes question_id value = do
  throw_if (is_empty question_id) invalid_request
  fields ← require_object value
  reject_unknown_fields fields (codes "type" ∷ codes "instructions" ∷ codes "criteria" ∷ [])
  kind ← required_string value (codes "type")
  throw_if (not (equal kind (codes "choice"))) (request_error "unsupported_question_type")
  instructions ← required_string value (codes "instructions")
  throw_if (is_empty instructions) invalid_request
  criteria_value ← required value (codes "criteria")
  criteria ← require_object criteria_value
  throw_if (ltb (size criteria) min_decision_options || ltb max_decision_options (size criteria))
      invalid_request
  options ← parse_criteria criteria
  ok (record {
    id = question_id;
    decision = record {
      state = state;
      question = instructions;
      options = options;
      image_path = none;
      image_bytes = image_bytes;
      reasoning = direct_answer_disabled;
      chat_template_file = none;
      capture_vision_debug = false;
    };
  })

unfoldable pub parse_questions : Bytes → Option Bytes → Fields → Result (List ChoiceQuestion)
parse_questions state image_bytes no_fields = ok []
parse_questions state image_bytes (field question_id value fs) = do
  question ← parse_question state image_bytes question_id value
  more ← parse_questions state image_bytes fs
  ok (question ∷ more)

unfoldable pub parse_request_id : Value → Result (Option Bytes)
unfolding find
parse_request_id envelope = elim (find (codes "request_id") envelope) [
  | none ↦ ok none
  | some v ↦ elim v [ string s ↦ ok (some s) | _ ↦ throw invalid_request ]
]

unfoldable pub parse_request_image : StbiInfo → Value → Result (Option Bytes)
unfolding find
parse_request_image stbi_info envelope = elim (find (codes "image") envelope) [
  | none ↦ ok none
  | some v ↦ (parse_image stbi_info v >>= λ bytes. ok (some bytes))
]

unfoldable pub parse_request : Libc → StbiInfo → Value → Bytes → Result Request
unfolding require_object reject_unknown_fields required_string serialize_state parse_request_id
    parse_request_image parse_questions
parse_request libc stbi_info envelope advertised_model_id = do
  fields ← require_object envelope
  reject_unknown_fields fields
      (codes "state" ∷ codes "model" ∷ codes "questions" ∷ codes "request_id" ∷ codes "image" ∷ [])
  throw_if (is_empty advertised_model_id) invalid_argument
  state_value ← required envelope (codes "state")
  state ← serialize_state libc state_value
  model_id ← required_string envelope (codes "model")
  throw_if (not (equal model_id advertised_model_id)) (request_error "unsupported_model")
  request_id ← parse_request_id envelope
  image_bytes ← parse_request_image stbi_info envelope
  questions_value ← required envelope (codes "questions")
  questions ← require_object questions_value
  throw_if (size questions == 0) invalid_request
  throw_if (ltb max_questions_per_request (size questions)) invalid_request
  parsed ← parse_questions state image_bytes questions
  ok (record {
    model_id = model_id;
    request_id = request_id;
    image_bytes = image_bytes;
    questions = parsed;
  })
