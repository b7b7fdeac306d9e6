-- ===== src/Server/Answers/Runs.antt =====
-- How the parts of `handle_connection` of tools/branchscore_server.cpp end, behind the parse.
use branchscore.Adapter.Request.{Request, ChoiceQuestion, parse_request, is_empty}
use branchscore.Adapter.Valid.{parse_request-Outcome, IsAccepted}
use branchscore.Adapter.Valid.Members.{Any}
use branchscore.Adapter.Valid.Options.{IsRequestError}
use branchscore.Adapter.Response.Encodable.{make_response-IsWellFormed}
use branchscore.Base.{
  ℕ, ◌+◌, ◌≡◌, ◌≢◌, ◌⊎◌, refl, sym, ap, ◌∙◌, Bool, true, false, String, Option, none, some, List,
  [], ◌∷◌, Bytes, codes, arith, ltb, inl, inr, if◌then◌else◌,
}
use branchscore.Base.Words.{sub64}
use branchscore.Decision.{DecisionResult, max_request_prefill_positions}
use branchscore.Double.{Double, Libc}
use branchscore.Image.Inspect.{StbiInfo, inspect_encoded}
use branchscore.Json.Returns.{stringify-Returns}
use branchscore.Json.Value.{Value, object, as_object, assign}
use branchscore.Json.WellFormed.{IsWellFormed}
use branchscore.Result.{
  Exception, Result, ok, throw, out_of_fuel, request_error, Ensures-bind, Outcome, Outcome-bind,
  Outcome-weaken, Outcome-throw_if, Ensures, ◌>>=◌,
}
use branchscore.Server.Handle.{
  Engine, Reply, send_json, send_error, request_positions, evaluate_all, image_too_large, respond,
  at, set_metadata, answer,
}
use branchscore.Server.Replies.{json_response}
use branchscore.Server.Answers.Sent.{
  send_error-Outcome, Outcome-map, set_metadata-Ensures, at-Ensures, as_object-Ensures,
}
use branchscore.Server.Answers.Causes.{
  IsClientError, Terminates, Occurs, first, later, FailedOn, estimate_failed, evaluate_failed,
  respond_failed, FailedRun,
}

-- What a run threw, it threw.
Outcome-thrown :
    {A : Type 0} (P : A → Type 0) (m : Result A) → Outcome P Any m → Outcome P (λ e. m ≡ throw e) m
Outcome-thrown P (ok a) h = h
Outcome-thrown P (throw e) h = refl
Outcome-thrown P out_of_fuel h = h

-- What a run returned, it returned.
Outcome-returned :
    {A : Type 0} (P : A → Type 0) (E : Exception → Type 0) (m : Result A)
    → Outcome P E m
    → Outcome (λ a. m ≡ ok a) E m
Outcome-returned P E (ok a) h = refl
Outcome-returned P E (throw e) h = h
Outcome-returned P E out_of_fuel h = h

Outcome-of-Ensures {ℓ} :
    {A : Type ℓ} (P : A → Type 0) (m : Result A) → Ensures P m → Outcome P Any m
Outcome-of-Ensures P (ok a) h = h
Outcome-of-Ensures P (throw e) h = tt
Outcome-of-Ensures P out_of_fuel h = h

inspect_encoded-Outcome :
    (stbi_info : StbiInfo) (bytes : Bytes)
    → Outcome Any IsClientError (inspect_encoded stbi_info bytes)
unfolding inspect_encoded
inspect_encoded-Outcome stbi_info bytes = ground arith

image_too_large-Outcome :
    (stbi_info : StbiInfo) (image : Option Bytes)
    → Outcome Any IsClientError (image_too_large stbi_info image)
unfolding image_too_large
image_too_large-Outcome stbi_info none = tt
image_too_large-Outcome stbi_info (some bytes) =
    Outcome-bind Any Any IsClientError (inspect_encoded stbi_info bytes) _
      (inspect_encoded-Outcome stbi_info bytes) λ info _. tt

IsRequestError-IsClientError : (e : Exception) → IsRequestError e → IsClientError e
IsRequestError-IsClientError (request_error code) h = tt
IsRequestError-IsClientError _ h = absurd h

-- The server does not blame itself.
abbrev pub Fine : Reply → Type 0
Fine reply = reply.status ≢ 500

pub sent :
    (libc : Libc) (status : ℕ) (code : String) (id : Option Bytes)
    → status ≢ 500
    → Outcome Fine (λ e. ⊥) (send_error libc status code id)
sent libc status code id h =
    Outcome-map (λ r. r.status ≡ status) Fine (λ e. ⊥) (send_error libc status code id)
      (send_error-Outcome libc status code id) λ r same five. h (sym same ∙ five)

Outcome-if :
    (E : Exception → Type 0) (b : Bool) (x y : Result Reply)
    → (b ≡ true → Outcome Fine E x)
    → (b ≡ false → Outcome Fine E y)
    → Outcome Fine E (if b then x else y)
Outcome-if E true x y hx hy = hx refl
Outcome-if E false x y hx hy = hy refl

module _ (libc : Libc) (engine : Engine) (handling_ms : Double) where
  request_positions-Outcome :
      (E : Exception → Type 0)
      → Terminates engine
      → E (request_error "request_token_budget_exceeded")
      → (qs : List ChoiceQuestion) (total : ℕ)
      → ((q : ChoiceQuestion) (e : Exception)
          → Occurs q qs
          → engine.estimate_prefill_positions q.decision ≡ throw e
          → E e)
      → Outcome Any E (request_positions engine total qs)
  unfolding request_positions
  request_positions-Outcome E t budget [] total thrown = tt
  request_positions-Outcome E t budget (q ∷ qs) total thrown =
      let estimate : Result ℕ = engine.estimate_prefill_positions q.decision in
      Outcome-bind Any Any E estimate _
        (Outcome-weaken Any _ E estimate (Outcome-thrown Any estimate (t.estimate_ends q.decision))
          λ e h. thrown q e (first qs) h)
        λ p _.
          Outcome-throw_if Any E (ltb (sub64 max_request_prefill_positions total) p)
            (request_error "request_token_budget_exceeded") _ budget
            λ _.
              request_positions-Outcome E t budget qs (total + p)
                λ r e o h. thrown r e (later q qs o) h

  evaluate_all-Outcome :
      (E : Exception → Type 0)
      → Terminates engine
      → (qs : List ChoiceQuestion)
      → ((q : ChoiceQuestion) (e : Exception)
          → Occurs q qs
          → engine.evaluate q.decision ≡ throw e
          → E e)
      → Outcome Any E (evaluate_all engine qs)
  unfolding evaluate_all
  evaluate_all-Outcome E t [] thrown = tt
  evaluate_all-Outcome E t (q ∷ qs) thrown =
      Outcome-bind Any Any E (engine.evaluate q.decision) _
        (Outcome-weaken Any _ E (engine.evaluate q.decision)
          (Outcome-thrown Any (engine.evaluate q.decision) (t.evaluate_ends q.decision))
          λ e h. thrown q e (first qs) h)
        λ r _.
          Outcome-bind Any Any E _ _
            (evaluate_all-Outcome E t qs λ p e o h. thrown p e (later q qs o) h) λ rs _. tt

  respond-Ensures :
      (request : Request) (positions : ℕ) (results : List DecisionResult) (id : Option Bytes)
      → Ensures Fine (respond libc handling_ms request positions results id)
  unfolding respond send_json json_response
  respond-Ensures request positions results id =
      Ensures-bind IsWellFormed Fine _ _ (make_response-IsWellFormed request results true) λ v _.
        Ensures-bind Any Fine (as_object v) _ (as_object-Ensures v) λ fs _.
          Ensures-bind Any Fine (at (codes "branchscore") fs) _
            (at-Ensures (codes "branchscore") fs)
            λ m _.
              Ensures-bind Any Fine (set_metadata handling_ms positions m) _
                (set_metadata-Ensures handling_ms positions m)
                λ m' _.
                  Ensures-bind Any Fine _ _
                    (Ensures-bind Any Any _ _
                      (stringify-Returns libc (object (assign (codes "branchscore") m' fs)))
                      λ b _. tt)
                    λ b _. omega arith

  respond-Outcome :
      (E : Exception → Type 0) (request : Request) (positions : ℕ) (results : List DecisionResult)
      (id : Option Bytes)
      → ((e : Exception) → respond libc handling_ms request positions results id ≡ throw e → E e)
      → Outcome Fine E (respond libc handling_ms request positions results id)
  respond-Outcome E request positions results id thrown =
      let run : Result Reply = respond libc handling_ms request positions results id in
      Outcome-weaken Fine _ E run
        (Outcome-thrown Fine run
          (Outcome-of-Ensures Fine run (respond-Ensures request positions results id)))
        thrown

  -- Why `answer` throws
  abbrev pub Explained : StbiInfo → Bytes → Value → Option Bytes → Exception → Type 0
  Explained stbi_info model_id envelope id e =
      IsClientError e ⊎ FailedRun libc stbi_info engine handling_ms model_id envelope id e

  -- The run of a request that is accepted
  evaluated :
      (stbi_info : StbiInfo) (model_id : Bytes) (envelope : Value) (id : Option Bytes)
      (request : Request)
      → Terminates engine
      → parse_request libc stbi_info envelope model_id ≡ ok request
      → image_too_large stbi_info request.image_bytes ≡ ok false
      → Outcome Fine (Explained stbi_info model_id envelope id) (
          request_positions engine 0 request.questions >>= λ positions.
          evaluate_all engine request.questions >>= λ results.
          respond libc handling_ms request positions results id)
  evaluated stbi_info model_id envelope id request t accepted small =
      let E = Explained stbi_info model_id envelope id in
      let qs = request.questions in
      let because : (e : Exception) → FailedOn libc engine handling_ms request id e → E e = λ e f.
        inr
          (record { request = request; accepted = accepted; not_too_large = small; failed = f }) in
      Outcome-bind (λ positions. request_positions engine 0 qs ≡ ok positions) Fine E _ _
        (Outcome-returned Any E _ (
          request_positions-Outcome E t (inl tt) qs 0 λ q e o h. because e (estimate_failed q o h)))
        λ positions counted.
          Outcome-bind (λ results. evaluate_all engine qs ≡ ok results) Fine E _ _
            (Outcome-returned Any E _ (
              evaluate_all-Outcome E t qs
                λ q e o h. because e (evaluate_failed q positions o counted h)))
            λ results made.
              respond-Outcome E request positions results id
                λ e h. because e (respond_failed positions results counted made h)

  pub answer-Outcome :
      (stbi_info : StbiInfo) (model_id : Bytes) (envelope : Value) (id : Option Bytes)
      → Terminates engine
      → IsWellFormed envelope
      → is_empty model_id ≡ false
      → Outcome Fine
          (Explained stbi_info model_id envelope id)
          (answer libc stbi_info engine handling_ms model_id envelope id)
  unfolding answer
  answer-Outcome stbi_info model_id envelope id t w named =
      let E = Explained stbi_info model_id envelope id in
      let parsed : Result Request = parse_request libc stbi_info envelope model_id in
      Outcome-bind (λ request. parsed ≡ ok request) Fine E parsed _
        (Outcome-returned (IsAccepted model_id) E parsed (
          Outcome-weaken (IsAccepted model_id) IsRequestError E parsed
            (parse_request-Outcome libc stbi_info envelope model_id w named)
            λ e h. inl (IsRequestError-IsClientError e h)))
        λ request accepted.
          let large : Result Bool = image_too_large stbi_info request.image_bytes in
          Outcome-bind (λ b. large ≡ ok b) Fine E large _
            (Outcome-returned Any E large (
              Outcome-weaken Any IsClientError E large
                (image_too_large-Outcome stbi_info request.image_bytes) λ e h. inl h))
            λ too_large measured.
              Outcome-if E too_large _ _
                (λ yes.
                  Outcome-weaken Fine (λ e. ⊥) E (send_error libc 413 "image_too_large" id)
                    (sent libc 413 "image_too_large" id (omega arith)) λ e h. absurd h)
                λ no.
                  evaluated stbi_info model_id envelope id request t accepted (measured ∙ ap ok no)
