-- ===== src/Server/Handle.antt =====
-- `handle_connection` of tools/branchscore_server.cpp, behind `receive_request`.
use branchscore.Adapter.Request.{Request, ChoiceQuestion, parse_request}
use branchscore.Adapter.Response.{make_response}
use branchscore.Base.{
  ℕ, ◌+◌, ◌*◌, Bool, true, false, not, ◌&&◌, ◌||◌, String, Option, none, some, List, [], ◌∷◌, Bytes,
  codes, equal, ltb, ◌==◌, if◌then◌else◌,
}
use branchscore.Base.Words.{sub64}
use branchscore.Decision.{
  DecisionRequest, DecisionResult, max_decision_options, max_prefill_positions,
  max_request_prefill_positions,
}
use branchscore.Double.{Double, Libc, double_of_size}
use branchscore.Image.Inspect.{StbiInfo, EncodedImageInfo, inspect_encoded}
use branchscore.Json.Parser.{parse}
use branchscore.Json.Value.{
  Value, Fields, string, object, number, boolean, no_fields, emplace, assign, find, lookup,
  as_object, set,
}
use branchscore.Result.{
  Result, ok, throw, out_of_fuel, request_error, decision_budget_error, image_decode_error,
  out_of_range, throw_if, ◌>>=◌, ◌>>◌,
}
use branchscore.Server.Intake.{ParseResult}
use branchscore.Server.Replies.{status_for_code, error_json, json_response, content_type_is_json}

abbrev pub max_image_dimension : ℕ
max_image_dimension = 8192

abbrev pub max_decoded_image_pixels : ℕ
max_decoded_image_pixels = 8 * 1024 * 1024

-- What the handler asks of `Gemma4DecisionEngine`.
pub record Engine : Type 0 where
  pub estimate_prefill_positions : DecisionRequest → Result ℕ
  pub evaluate : DecisionRequest → Result DecisionResult

-- The status that is logged, the bytes that are sent, and the request's id.
pub record Reply : Type 0 where
  pub status : ℕ
  pub bytes : Bytes
  pub request_id : Option Bytes

unfoldable pub send_json : Libc → ℕ → Value → Option Bytes → Result Reply
send_json libc status body request_id = do
  bytes ← json_response libc status body
  ok (record { status = status; bytes = bytes; request_id = request_id })

unfoldable pub send_error : Libc → ℕ → String → Option Bytes → Result Reply
send_error libc status code request_id =
    send_json libc status (error_json code request_id) request_id

-- The loop that adds up the positions.
unfoldable pub request_positions : Engine → ℕ → List ChoiceQuestion → Result ℕ
request_positions engine total [] = ok total
request_positions engine total (question ∷ questions) = do
  positions ← engine.estimate_prefill_positions question.decision
  throw_if (ltb (sub64 max_request_prefill_positions total) positions)
      (request_error "request_token_budget_exceeded")
  request_positions engine (total + positions) questions

unfoldable pub evaluate_all : Engine → List ChoiceQuestion → Result (List DecisionResult)
evaluate_all engine [] = ok []
evaluate_all engine (question ∷ questions) = do
  result ← engine.evaluate question.decision
  results ← evaluate_all engine questions
  ok (result ∷ results)

abbrev pub is_too_large : EncodedImageInfo → Bool
is_too_large info =
    ltb max_image_dimension info.width
    || (ltb max_image_dimension info.height
        || ltb max_decoded_image_pixels (info.width * info.height))

-- Whether the image of a request, if it has one, is too large.
unfoldable pub image_too_large : StbiInfo → Option Bytes → Result Bool
image_too_large stbi_info none = ok false
image_too_large stbi_info (some bytes) = do
  info ← inspect_encoded stbi_info bytes
  ok (is_too_large info)

-- The three members that the handler sets in the response's `branchscore`.
unfoldable pub set_metadata : Double → ℕ → Value → Result Value
set_metadata handling_ms positions metadata = do
  m₁ ← set (codes "http_handling_ms") (number handling_ms) metadata
  m₂ ← set (codes "input_tokens_include_visual") (boolean false) m₁
  set (codes "prefill_positions") (number (double_of_size positions)) m₂

-- `std::map::at`
abbrev pub at : Bytes → Fields → Result Value
at key fs = elim (lookup key fs) [ none ↦ throw out_of_range | some v ↦ ok v ]

-- From the results to the response with status 200.
unfoldable pub respond :
    Libc → Double → Request → ℕ → List DecisionResult → Option Bytes → Result Reply
respond libc handling_ms request positions results request_id = do
  response ← make_response request results true
  fields ← as_object response
  metadata ← at (codes "branchscore") fields
  metadata' ← set_metadata handling_ms positions metadata
  send_json libc 200 (object (assign (codes "branchscore") metadata' fields)) request_id

-- The body of the second `try`.
unfoldable pub answer :
    Libc → StbiInfo → Engine → Double → Bytes → Value → Option Bytes → Result Reply
answer libc stbi_info engine handling_ms model_id envelope request_id =
    parse_request libc stbi_info envelope model_id >>= λ request.
    image_too_large stbi_info request.image_bytes >>= λ too_large.
    if too_large
    then send_error libc 413 "image_too_large" request_id
    else (request_positions engine 0 request.questions >>= λ positions.
        evaluate_all engine request.questions >>= λ results.
        respond libc handling_ms request positions results request_id)

-- The handlers of the second `try`.
unfoldable pub catch_errors : Libc → Option Bytes → Result Reply → Result Reply
catch_errors libc request_id (ok reply) = ok reply
catch_errors libc request_id (throw (request_error code)) =
    send_error libc (status_for_code code) code request_id
catch_errors libc request_id (throw (decision_budget_error code)) =
    send_error libc (status_for_code code) code request_id
catch_errors libc request_id (throw image_decode_error) =
    send_error libc 422 "invalid_image" request_id
catch_errors libc request_id (throw e) = send_error libc 500 "internal_error" request_id
catch_errors libc request_id out_of_fuel = out_of_fuel

-- `request_id`, if the envelope has it as a string
abbrev pub string_of : Option Value → Option Bytes
string_of (some (string s)) = some s
string_of _ = none

-- Behind the first `try`: `catch (const std::exception &)` of the parse.
unfoldable pub answer_parsed :
    Libc → StbiInfo → Engine → Double → Bytes → Result Value → Result Reply
answer_parsed libc stbi_info engine handling_ms model_id (ok envelope) =
    let request_id = string_of (find (codes "request_id") envelope) in
    catch_errors libc request_id
      (answer libc stbi_info engine handling_ms model_id envelope request_id)
answer_parsed libc stbi_info engine handling_ms model_id (throw e) =
    send_error libc 400 "invalid_json" none
answer_parsed libc stbi_info engine handling_ms model_id out_of_fuel = out_of_fuel

unfoldable pub health_json : Bytes → Value
health_json model_id =
    let limits =
      emplace (codes "max_request_prefill_positions")
        (number (double_of_size max_request_prefill_positions))
        (emplace (codes "max_prefill_positions") (number (double_of_size max_prefill_positions)) (
          emplace (codes "max_options") (number (double_of_size max_decision_options))
            no_fields)) in
    object (
      emplace (codes "limits") (object limits) (
        emplace (codes "model") (string model_id)
          (emplace (codes "status") (string (codes "ready")) no_fields)))

-- The outer `catch (const std::exception &)`; what can still throw there has no request id.
unfoldable pub catch_all : Libc → Result Reply → Result Reply
catch_all libc (ok reply) = ok reply
catch_all libc (throw e) = send_error libc 500 "internal_error" none
catch_all libc out_of_fuel = out_of_fuel

-- The chain of routes. `ui` is what `send_ui` sends, a constant of the program.
unfoldable pub route :
    Libc → StbiInfo → Engine → Double → Bytes → Bytes → ParseResult → Result Reply
route libc stbi_info engine handling_ms ui model_id parsed =
    let url = parsed.request.url in
    let method = parsed.request.method in
    if not (parsed.status == 0)
    then send_error libc parsed.status parsed.error_code none
    else if not (equal url (codes "/ui"))
        && (not (equal url (codes "/v1/systemone")) && not (equal url (codes "/healthz")))
    then send_error libc 404 "not_found" none
    else if equal url (codes "/ui") && not (equal method (codes "GET"))
    then send_error libc 405 "method_not_allowed" none
    else if equal url (codes "/healthz") && not (equal method (codes "GET"))
    then send_error libc 405 "method_not_allowed" none
    else if equal url (codes "/v1/systemone") && not (equal method (codes "POST"))
    then send_error libc 405 "method_not_allowed" none
    else if equal url (codes "/ui")
    then ok (record { status = 200; bytes = ui; request_id = none })
    else if equal url (codes "/healthz")
    then send_json libc 200 (health_json model_id) none
    else if not (content_type_is_json parsed.request.content_type)
    then send_error libc 415 "unsupported_content_type" none
    else answer_parsed libc stbi_info engine handling_ms model_id (parse libc parsed.request.body)

unfoldable pub handle :
    Libc → StbiInfo → Engine → Double → Bytes → Bytes → ParseResult → Result Reply
handle libc stbi_info engine handling_ms ui model_id parsed =
    catch_all libc (route libc stbi_info engine handling_ms ui model_id parsed)
