-- ===== src/Server/Replies.antt =====
-- What tools/branchscore_server.cpp answers: statuses, error bodies and HTTP responses.
use branchscore.Base.{
  ℕ, zero, suc, ◌+◌, ◌/◌, ◌%◌, Bool, ◌&&◌, String, Option, none, some, List, [], ◌∷◌, ◌++◌, Bytes,
  codes, equal, leb, ltb, ◌==◌, if◌then◌else◌, length,
}
use branchscore.Double.{Libc}
use branchscore.Json.Printer.{stringify}
use branchscore.Json.Value.{Value, Fields, string, object, no_fields, emplace}
use branchscore.Result.{Result, ok, ◌>>=◌}
use branchscore.Server.Authorization.{lowercase, trim, split_at}

unfoldable pub reason_phrase : ℕ → String
reason_phrase status =
    if status == 200
    then "OK"
    else if status == 400
    then "Bad Request"
    else if status == 401
    then "Unauthorized"
    else if status == 404
    then "Not Found"
    else if status == 405
    then "Method Not Allowed"
    else if status == 408
    then "Request Timeout"
    else if status == 413
    then "Payload Too Large"
    else if status == 414
    then "URI Too Long"
    else if status == 415
    then "Unsupported Media Type"
    else if status == 417
    then "Expectation Failed"
    else if status == 422
    then "Unprocessable Entity"
    else if status == 431
    then "Request Header Fields Too Large"
    else if status == 500
    then "Internal Server Error"
    else "Error"

-- The first row whose key is the code.
abbrev pub first_match {ℓ} : {A : Type ℓ} → Bytes → A → List (String × A) → A
first_match code default [] = default
first_match code default ((key, a) ∷ rows) =
    let rest = first_match code default rows in if equal code (codes key) then a else rest

unfoldable pub public_message : String → String
public_message code = first_match (codes code) "request fields are invalid or unsupported" (
    ("unauthorized", "a valid bearer token is required")
    ∷ ("unsupported_model", "requested model is not served here")
    ∷ ("unsupported_question_type", "only Choice questions are supported")
    ∷ ("unsupported_media_type", "only JSON, PNG, and JPEG are supported")
    ∷ ("invalid_image", "image data is invalid")
    ∷ ("image_too_large", "image dimensions exceed the server limit")
    ∷ ("request_too_large", "request body exceeds the server limit")
    ∷ ("token_budget_exceeded", "question exceeds the Prefill token budget")
    ∷ ("context_limit_exceeded", "question exceeds the model context")
    ∷ ("request_token_budget_exceeded", "questions exceed the total request token budget")
    ∷ ("request_timeout", "request did not complete before the timeout")
    ∷ ("headers_too_large", "request headers exceed the server limit")
    ∷ ("request_target_too_large", "request target exceeds the server limit")
    ∷ ("expectation_not_supported", "Expect headers are not supported")
    ∷ ("unsupported_content_encoding", "compressed request bodies are not supported")
    ∷ ("invalid_json", "request body is not valid JSON")
    ∷ ("invalid_http_request", "HTTP request is malformed")
    ∷ ("unsupported_content_type", "Content-Type must be application/json")
    ∷ ("not_found", "route not found")
    ∷ ("method_not_allowed", "method is not supported for this route")
    ∷ [])

unfoldable pub status_for_code : String → ℕ
status_for_code code = first_match (codes code) 422 (
    ("unauthorized", 401)
    ∷ ("unsupported_media_type", 415)
    ∷ ("unsupported_content_type", 415)
    ∷ ("unsupported_content_encoding", 415)
    ∷ ("request_too_large", 413)
    ∷ ("image_too_large", 413)
    ∷ ("token_budget_exceeded", 413)
    ∷ ("context_limit_exceeded", 413)
    ∷ ("request_token_budget_exceeded", 413)
    ∷ ("request_timeout", 408)
    ∷ ("headers_too_large", 431)
    ∷ ("request_target_too_large", 414)
    ∷ ("expectation_not_supported", 417)
    ∷ ("not_found", 404)
    ∷ ("method_not_allowed", 405)
    ∷ ("invalid_http_request", 400)
    ∷ ("invalid_json", 400)
    ∷ [])

-- `if (request_id) response.emplace("request_id", *request_id);`
abbrev pub with_request_id : Option Bytes → Fields → Fields
with_request_id none response = response
with_request_id (some id) response = emplace (codes "request_id") (string id) response

unfoldable pub error_json : String → Option Bytes → Value
error_json code request_id =
    let error =
      emplace (codes "message") (string (codes (public_message code)))
        (emplace (codes "code") (string (codes code)) no_fields) in
    object (with_request_id request_id (emplace (codes "error") (object error) no_fields))

-- `std::to_string`, for a number of at most `fuel` digits
unfoldable pub to_string : ℕ → ℕ → Bytes
to_string zero n = []
to_string (suc fuel) n =
    let leading = to_string fuel (n / 10) in
    if ltb n 10 then (b'0' + n) ∷ [] else leading ++ ((b'0' + n % 10) ∷ [])

abbrev pub line_end : Bytes
line_end = 13 ∷ 10 ∷ []

-- The response that `send_json` sends.
unfoldable pub json_response : Libc → ℕ → Value → Result Bytes
json_response libc status body = do
  encoded ← stringify libc body
  ok (
      codes "HTTP/1.1 "
      ++ to_string 20 status
      ++ codes " "
      ++ codes (reason_phrase status)
      ++ line_end
      ++ codes "Content-Type: application/json; charset=utf-8"
      ++ line_end
      ++ codes "Cache-Control: no-store"
      ++ line_end
      ++ codes "Connection: close"
      ++ line_end
      ++ (if status == 401
          then codes "WWW-Authenticate: Bearer realm=\"branchscore\"" ++ line_end
          else [])
      ++ codes "Content-Length: "
      ++ to_string 20 (length encoded)
      ++ line_end
      ++ line_end
      ++ encoded)

unfoldable pub content_type_is_json : Bytes → Bool
unfolding lowercase trim split_at
content_type_is_json content_type =
    let value = lowercase (trim content_type) in
    equal (elim (split_at b';' value) [ none ↦ value | some (before, behind) ↦ trim before ])
      (codes "application/json")

-- The loop of `safe_log_id`, with the room that is left.
unfoldable pub safe_bytes : ℕ → Bytes → Bytes
safe_bytes zero id = []
safe_bytes (suc room) [] = []
safe_bytes (suc room) (c ∷ cs) = (if leb 0x20 c && leb c 0x7e then c else b'?') ∷ safe_bytes room cs

unfoldable pub safe_log_id : Option Bytes → Bytes
unfolding safe_bytes
safe_log_id none = codes "-"
safe_log_id (some []) = codes "-"
safe_log_id (some (c ∷ cs)) = safe_bytes 96 (c ∷ cs)
