-- ===== src/Server/Answers/Causes.antt =====
-- What can go wrong behind the parse of the body in `handle_connection` of
-- tools/branchscore_server.cpp, and why.
use branchscore.Adapter.Request.{Request, ChoiceQuestion, parse_request}
use branchscore.Adapter.Valid.Members.{Any}
use branchscore.Base.{ℕ, ◌≡◌, false, Option, List, ◌∷◌, Bytes}
use branchscore.Decision.{DecisionRequest, DecisionResult}
use branchscore.Double.{Double, Libc}
use branchscore.Image.Inspect.{StbiInfo}
use branchscore.Json.Value.{Value}
use branchscore.Result.{
  Exception, ok, throw, request_error, decision_budget_error, image_decode_error, Outcome,
}
use branchscore.Server.Handle.{Engine, request_positions, evaluate_all, image_too_large, respond}

-- The exceptions that have an answer with a status of the client's fault.
abbrev pub IsClientError : Exception → Type 0
IsClientError (request_error code) = Unit
IsClientError (decision_budget_error code) = Unit
IsClientError image_decode_error = Unit
IsClientError _ = ⊥

-- The engine returns from every call, with a value or an exception.
pub record Terminates (engine : Engine) : Type 0 where
  pub estimate_ends : (d : DecisionRequest) → Outcome Any Any (engine.estimate_prefill_positions d)
  pub evaluate_ends : (d : DecisionRequest) → Outcome Any Any (engine.evaluate d)

pub data Occurs (q : ChoiceQuestion) : List ChoiceQuestion → Type 0 where
  first : (qs : List ChoiceQuestion) → Occurs q (q ∷ qs)
  later : (p : ChoiceQuestion) (qs : List ChoiceQuestion) → Occurs q qs → Occurs q (p ∷ qs)

-- How an exception comes out of the run of a request that is accepted: the engine throws it on a
-- question of the request, or the construction of the response from the engine's results does.
pub data FailedOn (libc : Libc) (engine : Engine) (handling_ms : Double) (request : Request)
    (id : Option Bytes) (e : Exception) : Type 0 where
  estimate_failed :
      (q : ChoiceQuestion)
      → Occurs q request.questions
      → engine.estimate_prefill_positions q.decision ≡ throw e
      → FailedOn libc engine handling_ms request id e
  evaluate_failed :
      (q : ChoiceQuestion) (positions : ℕ)
      → Occurs q request.questions
      → request_positions engine 0 request.questions ≡ ok positions
      → engine.evaluate q.decision ≡ throw e
      → FailedOn libc engine handling_ms request id e
  respond_failed :
      (positions : ℕ) (results : List DecisionResult)
      → request_positions engine 0 request.questions ≡ ok positions
      → evaluate_all engine request.questions ≡ ok results
      → respond libc handling_ms request positions results id ≡ throw e
      → FailedOn libc engine handling_ms request id e

-- The run of an envelope: the request that it is parsed to, whose image is not too large, fails.
pub record FailedRun (libc : Libc) (stbi_info : StbiInfo) (engine : Engine) (handling_ms : Double)
    (model_id : Bytes) (envelope : Value) (id : Option Bytes) (e : Exception) : Type 0 where
  pub request : Request
  pub accepted : parse_request libc stbi_info envelope model_id ≡ ok request
  pub not_too_large : image_too_large stbi_info request.image_bytes ≡ ok false
  pub failed : FailedOn libc engine handling_ms request id e
