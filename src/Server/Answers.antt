-- ===== src/Server/Answers.antt =====
-- What `handle_connection` of tools/branchscore_server.cpp answers, on every path.
mod Sent
pub mod Causes
mod Runs
use branchscore.Adapter.Request.{is_empty}
use branchscore.Base.{
  ℕ, ◌≡◌, ◌≢◌, refl, Bool, true, false, not, ◌&&◌, String, Option, none, Bytes, codes, equal, arith,
  inl, inr, ◌==◌, if◌then◌else◌,
}
use branchscore.Double.{Double, Libc}
use branchscore.Image.Inspect.{StbiInfo}
use branchscore.Json.Parser.{parse}
use branchscore.Json.Render.{stringify-render}
use branchscore.Json.Sound.{parse_sound}
use branchscore.Json.Value.{Value, find}
use branchscore.Json.WellFormed.{IsWellFormed}
use branchscore.Result.{
  Exception, Result, ok, throw, out_of_fuel, request_error, decision_budget_error,
  image_decode_error, Outcome, Ensures,
}
use branchscore.Server.Intake.{ParseResult}
use branchscore.Server.Handle.{
  Engine, Reply, send_json, send_error, answer, catch_errors, answer_parsed, route, handle,
  health_json, string_of, catch_all,
}
use branchscore.Server.Replies.{status_for_code, content_type_is_json, json_response}
use branchscore.Server.Answers.Causes.{IsClientError, Terminates, FailedRun}
use branchscore.Server.Answers.Runs.{Fine, sent, Explained, answer-Outcome}
use branchscore.Server.Answers.Sent.{send_error-Outcome, health_json-IsWellFormed, Outcome-map}

-- A body whose run fails: it is an envelope, the request in it is accepted, and an exception that is
-- no fault of the client's comes out of the run.
pub record Failed (libc : Libc) (stbi_info : StbiInfo) (engine : Engine) (handling_ms : Double)
    (model_id body : Bytes) : Type 0 where
  pub envelope : Value
  pub read : parse libc body ≡ ok envelope
  pub exception : Exception
  pub not_client : IsClientError exception → ⊥
  pub run :
      FailedRun libc stbi_info engine handling_ms model_id envelope
        (string_of (find (codes "request_id") envelope))
        exception

module _ (libc : Libc) (stbi_info : StbiInfo) (engine : Engine) (handling_ms : Double)
    (model_id : Bytes) where
  -- An answer with status 500 has a cause.
  abbrev Caused : Bytes → Reply → Type 0
  Caused body reply = reply.status ≡ 500 → Failed libc stbi_info engine handling_ms model_id body

  Fine-Caused : (body : Bytes) (r : Reply) → Fine r → Caused body r
  Fine-Caused body r f five = absurd (f five)

  sent-Caused :
      (body : Bytes) (status : ℕ) (code : String) (id : Option Bytes)
      → status ≢ 500
      → Outcome (Caused body) (λ e. ⊥) (send_error libc status code id)
  sent-Caused body status code id h =
      Outcome-map Fine (Caused body) (λ e. ⊥) (send_error libc status code id)
        (sent libc status code id h) (Fine-Caused body)

  Failed-Caused :
      (body : Bytes) (id : Option Bytes)
      → Failed libc stbi_info engine handling_ms model_id body
      → Outcome (Caused body) (λ e. ⊥) (send_error libc 500 "internal_error" id)
  Failed-Caused body id f =
      Outcome-map (λ r. r.status ≡ 500) (Caused body) (λ e. ⊥)
        (send_error libc 500 "internal_error" id) (send_error-Outcome libc 500 "internal_error" id)
        λ r _ _. f

  status_for_code-Fine : (code : String) → status_for_code code ≢ 500
  unfolding status_for_code
  status_for_code-Fine code = ground arith

  -- The envelope of a body, and why its run throws
  abbrev Because : Value → Exception → Type 0
  Because envelope =
      Explained libc engine handling_ms stbi_info model_id envelope
        (string_of (find (codes "request_id") envelope))

  internal-Caused :
      (body : Bytes) (envelope : Value) (id : Option Bytes) (e : Exception)
      → parse libc body ≡ ok envelope
      → (IsClientError e → ⊥)
      → Because envelope e
      → Outcome (Caused body) (λ e. ⊥) (send_error libc 500 "internal_error" id)
  internal-Caused body envelope id e reads not_client (inl h) = absurd (not_client h)
  internal-Caused body envelope id e reads not_client (inr f) = Failed-Caused body id (record {
    envelope = envelope;
    read = reads;
    exception = e;
    not_client = not_client;
    run = f;
  })

  catch_errors-Caused :
      (body : Bytes) (envelope : Value) (id : Option Bytes) (m : Result Reply)
      → parse libc body ≡ ok envelope
      → Outcome Fine (Because envelope) m
      → Outcome (Caused body) (λ e. ⊥) (catch_errors libc id m)
  unfolding catch_errors
  catch_errors-Caused body envelope id (ok r) reads h = Fine-Caused body r h
  catch_errors-Caused body envelope id (throw (request_error code)) reads h =
      sent-Caused body _ code id (status_for_code-Fine code)
  catch_errors-Caused body envelope id (throw (decision_budget_error code)) reads h =
      sent-Caused body _ code id (status_for_code-Fine code)
  catch_errors-Caused body envelope id (throw image_decode_error) reads h =
      sent-Caused body 422 "invalid_image" id (omega arith)
  catch_errors-Caused body envelope id (throw e) reads h =
      internal-Caused body envelope id e reads (λ c. c) h
  catch_errors-Caused body envelope id out_of_fuel reads h = absurd h

  answer_parsed-Caused :
      (body : Bytes) (parsed : Result Value)
      → Terminates engine
      → is_empty model_id ≡ false
      → parse libc body ≡ parsed
      → Ensures IsWellFormed parsed
      → Outcome
          (Caused body)
          (λ e. ⊥)
          (answer_parsed libc stbi_info engine handling_ms model_id parsed)
  unfolding answer_parsed
  answer_parsed-Caused body (ok v) t named reads w =
      catch_errors-Caused body v (string_of (find (codes "request_id") v)) _ reads (
        answer-Outcome libc engine handling_ms stbi_info model_id v
          (string_of (find (codes "request_id") v)) t w named)
  answer_parsed-Caused body (throw e) t named reads w =
      sent-Caused body 400 "invalid_json" none (omega arith)
  answer_parsed-Caused body out_of_fuel t named reads w = absurd w

  -- The outcome as a data type, whose argument can be inferred.
  data IsCaused (body : Bytes) (m : Result Reply) : Type 0 where
    caused : Outcome (Caused body) (λ e. ⊥) m → IsCaused body m

  if-Caused :
      {body : Bytes} (b : Bool) {x y : Result Reply}
      → IsCaused body x
      → IsCaused body y
      → IsCaused body (if b then x else y)
  if-Caused true hx hy = hx
  if-Caused false hx hy = hy

  error-Caused :
      {body : Bytes} (status : ℕ) (code : String)
      → status ≢ 500
      → IsCaused body (send_error libc status code none)
  error-Caused {body} status code h = caused (sent-Caused body status code none h)

  sent_json-Caused :
      (body : Bytes) (v : Value) (id : Option Bytes)
      → IsWellFormed v
      → Outcome (Caused body) (λ e. ⊥) (send_json libc 200 v id)
  unfolding send_json json_response
  sent_json-Caused body v id w = rw (stringify-render libc v w) λ five. absurd (omega (arith, five))

  ui_sent :
      {body : Bytes} (ui : Bytes)
      → IsCaused body (ok (record { status = 200; bytes = ui; request_id = none }))
  ui_sent ui = caused (λ five. absurd (omega (arith, five)))

  -- Routing, for a request that was received.
  route-Caused :
      (ui : Bytes) (parsed : ParseResult)
      → Terminates engine
      → is_empty model_id ≡ false
      → parsed.status ≢ 500
      → IsCaused parsed.request.body (route libc stbi_info engine handling_ms ui model_id parsed)
  unfolding route
  route-Caused ui parsed t named h =
      let url = parsed.request.url in
      let method = parsed.request.method in
      let wrong_method = error-Caused 405 "method_not_allowed" (omega arith) in
      let health : IsCaused parsed.request.body (send_json libc 200 (health_json model_id) none) =
        caused (
          sent_json-Caused parsed.request.body (health_json model_id) none
            (health_json-IsWellFormed model_id)) in
      let body : Result Value = parse libc parsed.request.body in
      let answered : IsCaused parsed.request.body
          (answer_parsed libc stbi_info engine handling_ms model_id body) =
        caused (
          answer_parsed-Caused parsed.request.body body t named refl
            (parse_sound libc parsed.request.body)) in
      if-Caused (not (parsed.status == 0)) (error-Caused parsed.status parsed.error_code h) (
        if-Caused
          (not (equal url (codes "/ui"))
            && (not (equal url (codes "/v1/systemone")) && not (equal url (codes "/healthz"))))
          (error-Caused 404 "not_found" (omega arith))
          (if-Caused (equal url (codes "/ui") && not (equal method (codes "GET"))) wrong_method (
            if-Caused (equal url (codes "/healthz") && not (equal method (codes "GET")))
              wrong_method
              (if-Caused (equal url (codes "/v1/systemone") && not (equal method (codes "POST")))
                wrong_method
                (if-Caused (equal url (codes "/ui")) (ui_sent ui) (
                  if-Caused (equal url (codes "/healthz")) health (
                    if-Caused (not (content_type_is_json parsed.request.content_type))
                      (error-Caused 415 "unsupported_content_type" (omega arith)) answered)))))))

  -- Every connection is answered: if the engine returns from every call, the advertised model id is not
  -- empty and `receive_request` gave no status 500, then `handle` returns a reply, with no exception
  -- and within its fuel; and if the status of the reply is 500, then the body is an envelope with a
  -- request that is accepted, and in the run of this request an exception that is no fault of the
  -- client's was thrown: by the estimate of one of its questions, by the evaluation of one of them,
  -- behind the check of the budget, or by the construction of the response from the results of all.
  pub handle-Caused :
      (ui : Bytes) (parsed : ParseResult)
      → Terminates engine
      → is_empty model_id ≡ false
      → parsed.status ≢ 500
      → Outcome
          (λ reply.
            reply.status ≡ 500
            → Failed libc stbi_info engine handling_ms model_id parsed.request.body)
          (λ e. ⊥)
          (handle libc stbi_info engine handling_ms ui model_id parsed)
  unfolding handle
  handle-Caused ui parsed t named h =
      all_caught (route libc stbi_info engine handling_ms ui model_id parsed)
        (route-Caused ui parsed t named h)
    where
      all_caught :
          (m : Result Reply)
          → IsCaused parsed.request.body m
          → Outcome (Caused parsed.request.body) (λ e. ⊥) (catch_all libc m)
      all_caught (ok r) (caused c) = unfold catch_all in c
      all_caught (throw e) (caused c) = absurd c
      all_caught out_of_fuel (caused c) = absurd c
