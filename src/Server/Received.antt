-- ===== src/Server/Received.antt =====
-- What `receive_request` of tools/branchscore_server.cpp hands on.
use branchscore.Base.{
  ℕ, ◌≤◌, Bool, not, ◌&&◌, String, List, [], ◌∷◌, Bytes, length, arith, Bool-cases, inl, inr, ◌==◌,
}
use branchscore.Server.Context.{HttpRequest, ParseContext, Signal, initial, max_request_body_bytes}
use branchscore.Server.Intake.{
  LlHttp, Read, timed_out, end_of_stream, interrupted, failed, received, callbacks, fail_once,
  after_finish, after_execute, at_end, read_loop, conclude, receive_request,
}
use branchscore.Server.Bounds.{IsBounded, callbacks-IsBounded}

fail_once-IsBounded :
    (status : ℕ) (code : String) (c : ParseContext)
    → IsBounded c
    → IsBounded (fail_once status code c)
unfolding fail_once
fail_once-IsBounded status code c b = ground arith

after_finish-IsBounded :
    (r : Signal × ParseContext) (malformed : Bool)
    → IsBounded r.1
    → IsBounded (after_finish r malformed)
unfolding after_finish
after_finish-IsBounded (s, c) malformed b = ground arith

after_execute-IsBounded :
    (r : Signal × ParseContext) (malformed : Bool) (rest : ParseContext → ParseContext)
    → IsBounded r.1
    → ((c' : ParseContext) → IsBounded c' → IsBounded (rest c'))
    → IsBounded (after_execute r malformed rest)
unfolding after_execute
after_execute-IsBounded (s, c) malformed rest b k =
    let failed_once = fail_once-IsBounded 400 "invalid_http_request" c b in ground (arith, k c)

read_loop-IsBounded :
    (llhttp : LlHttp) (c : ParseContext) (s : llhttp.State) (reads : List Read)
    → IsBounded c
    → IsBounded (read_loop llhttp c s reads)
unfolding read_loop at_end
read_loop-IsBounded llhttp c s [] b = fail_once-IsBounded _ _ c b
read_loop-IsBounded llhttp c s (timed_out ∷ reads) b = fail_once-IsBounded _ _ c b
read_loop-IsBounded llhttp c s (end_of_stream ∷ reads) b =
    elim (Bool-cases (not c.complete && c.failure_status == 0)) [
      | inl open_still ↦ rw (open_still) (
          after_finish-IsBounded (callbacks c (llhttp.finish s).0) (llhttp.finish s).1
            (callbacks-IsBounded c (llhttp.finish s).0 b))
      | inr over ↦ rw (over) b
    ]
read_loop-IsBounded llhttp c s (interrupted ∷ reads) b = read_loop-IsBounded llhttp c s reads b
read_loop-IsBounded llhttp c s (failed ∷ reads) b = omega arith
read_loop-IsBounded llhttp c s (received bytes ∷ reads) b =
    after_execute-IsBounded (callbacks c (llhttp.execute s bytes).0) (llhttp.execute s bytes).1 _
      (callbacks-IsBounded c (llhttp.execute s bytes).0 b)
      λ c' b'. read_loop-IsBounded llhttp c' (llhttp.execute s bytes).2 reads b'

-- A request that is handed on is complete: its status is 0 only then.
pub record IsWithinLimits (r : HttpRequest) : Type 0 where
  pub method_limit : length r.method ≤ 32
  pub url_limit : length r.url ≤ 4096
  pub body_limit : length r.body ≤ max_request_body_bytes

-- For every behaviour of llhttp and of the socket, the request that `receive_request` hands on has a
-- method of at most 32 bytes, a target of at most 4096 and a body of at most 16 MiB.
pub receive_request-IsWithinLimits :
    (llhttp : LlHttp) (reads : List Read) (require_bearer : Bool) (bearer_token : Bytes)
    → IsWithinLimits (receive_request llhttp reads require_bearer bearer_token).request
unfolding receive_request conclude
receive_request-IsWithinLimits llhttp reads require_bearer bearer_token =
    let bounded : IsBounded
        (read_loop llhttp (initial require_bearer bearer_token) llhttp.start reads) =
      read_loop-IsBounded llhttp (initial require_bearer bearer_token) llhttp.start reads
        (omega arith) in
    ground arith
