-- ===== src/Tests/Server.antt =====
-- The server of tools/branchscore_server.cpp on small inputs.
use branchscore.Adapter.Request.{ChoiceQuestion}
use branchscore.Base.{
  ◌≤◌, some, ◌≡◌, ◌≢◌, ◌↔◌, refl, true, false, none, List, [], ◌∷◌, ◌++◌, Bytes, codes, equal,
  length, arith,
}
use branchscore.Base.Words.{sub64}
use branchscore.Decision.{max_request_prefill_positions, direct_answer_disabled}
use branchscore.Result.{ok, throw, runtime_error, Outcome}
use branchscore.Server.Answers.{Failed, handle-Caused}
use branchscore.Server.Answers.Causes.{Terminates}
use branchscore.Server.Authorization.{
  lowercase, trim, constant_time_equal, constant_time_equal_iff, authorized, authorized_sound,
  split_at, accumulate,
}
use branchscore.Server.Bounds.{IsBounded, callbacks-IsBounded}
use branchscore.Server.Budget.{Sums, request_positions_iff}
use branchscore.Server.Context.{
  ParseContext, initial, on_method, on_url, on_header_field, on_header_field_complete,
  on_header_value, on_header_value_complete, on_headers_complete, on_body, on_message_complete,
  add_header_bytes, finish_header, store_header,
}
use branchscore.Server.Gate.{IsOpen, complete-IsOpen}
use branchscore.Server.Handle.{Engine, handle, request_positions}
use branchscore.Server.Intake.{
  LlHttp, Event, method, url, header_field, header_value, body, header_field_complete,
  header_value_complete, message_complete, headers_complete, callback, callbacks, received,
  end_of_stream, receive_request, ParseResult,
}
use branchscore.Server.LogId.{AllPrintable, safe_log_id-AllPrintable}
use branchscore.Server.Replies.{safe_log_id}
use branchscore.Server.Received.{IsWithinLimits, receive_request-IsWithinLimits}
use branchscore.Tests.Adapter.{no_image}
use branchscore.Tests.Codec.{unary_libc}

-- The callbacks of a small request that carries a token.
abbrev before : List Event
before =
    method (codes "POST")
    ∷ url (codes "/v1/systemone")
    ∷ header_field (codes "Authorization")
    ∷ header_field_complete
    ∷ header_value (codes "Bearer t")
    ∷ header_value_complete
    ∷ []

abbrev behind : List Event
behind = body (codes "{}") ∷ message_complete ∷ []

abbrev start : ParseContext
start = initial true (codes "t")

completes : (callbacks start (before ++ headers_complete 2 ∷ behind)).1.complete ≡ true
unfolding callbacks callback on_method on_url on_header_field on_header_field_complete
    on_header_value on_header_value_complete on_headers_complete on_body on_message_complete
    add_header_bytes finish_header store_header authorized split_at lowercase trim
    constant_time_equal accumulate equal sub64
completes = refl

complete-IsOpen_example : IsOpen start (callbacks start before).1 2
complete-IsOpen_example = complete-IsOpen start before behind 2 refl tt completes

start-IsBounded : IsBounded start
start-IsBounded = omega arith

callbacks-IsBounded_example : IsBounded (callbacks start before).1
callbacks-IsBounded_example = callbacks-IsBounded start before start-IsBounded

-- A parser that finds the whole request in the first read.
abbrev one_shot : LlHttp
one_shot = record {
  State = Unit;
  start = tt;
  execute = λ s bytes. (before ++ headers_complete 2 ∷ behind, false, tt);
  finish = λ s. ([], true);
}

receive_request-IsWithinLimits_example :
    IsWithinLimits
      (receive_request one_shot
        (received (codes "POST") ∷ end_of_stream ∷ [])
        true
        (codes "t")).request
receive_request-IsWithinLimits_example =
    receive_request-IsWithinLimits one_shot (received (codes "POST") ∷ end_of_stream ∷ []) true
      (codes "t")

constant_time_equal_iff_example :
    (constant_time_equal (codes "tok") (codes "toe") ≡ true) ↔ (codes "tok" ≡ codes "toe")
constant_time_equal_iff_example =
    constant_time_equal_iff (codes "tok") (codes "toe") (omega arith) (omega arith)

token_accepted : authorized (codes "bEarer  t ") (codes "t") ≡ true
unfolding authorized split_at lowercase trim constant_time_equal accumulate equal
token_accepted = refl

authorized_sound_example :
    (scheme : Bytes) × (rest : Bytes) × (codes "bEarer  t " ≡ scheme ++ b' ' ∷ rest)
    × (lowercase scheme ≡ codes "bearer")
    × (trim rest ≡ codes "t")
    × (codes "t" ≢ [])
authorized_sound_example =
    authorized_sound (codes "bEarer  t ") (codes "t") (omega arith) (omega arith) token_accepted

-- An engine that estimates 20000 positions for each question, and fails to evaluate.
abbrev failing_engine : Engine
failing_engine = record {
  estimate_prefill_positions = λ d. ok 20000;
  evaluate = λ d. throw runtime_error;
}

failing-Terminates : Terminates failing_engine
failing-Terminates = record { estimate_ends = λ d. tt; evaluate_ends = λ d. tt }

abbrev small_question : ChoiceQuestion
small_question = record {
  id = codes "q";
  decision = record {
    state = codes "s";
    question = codes "i";
    options = [];
    image_path = none;
    image_bytes = none;
    reasoning = direct_answer_disabled;
    chat_template_file = none;
    capture_vision_debug = false;
  };
}

request_positions_iff_example :
    (request_positions failing_engine 0 (small_question ∷ []) ≡ ok 20000)
    ↔ (Sums failing_engine (small_question ∷ []) 20000 × (20000 ≤ max_request_prefill_positions))
request_positions_iff_example = request_positions_iff failing_engine (small_question ∷ []) 20000

abbrev posted : ParseResult
posted = record {
  request = record {
    method = codes "POST";
    url = codes "/v1/systemone";
    content_type = codes "application/json; charset=utf-8";
    authorization = [];
    content_encoding = [];
    expect = [];
    body =
        codes
          "{\"model\":\"m\",\"questions\":{\"q\":{\"criteria\":{\"a\":null,\"b\":\"x\"},\"instructions\":\"i\",\"type\":\"choice\"}},\"state\":\"s\"}";
  };
  status = 0;
  error_code = "";
}

handle-Caused_example :
    Outcome
      (λ reply.
        reply.status ≡ 500
        → Failed unary_libc no_image failing_engine 0 (codes "m") posted.request.body)
      (λ e. ⊥)
      (handle unary_libc no_image failing_engine 0 (codes "<html>") (codes "m") posted)
handle-Caused_example =
    handle-Caused unary_libc no_image failing_engine 0 (codes "m") (codes "<html>") posted
      failing-Terminates refl (λ e. absurd (omega (arith, e)))

safe_log_id-AllPrintable_example :
    AllPrintable (safe_log_id (some (10 ∷ b'a' ∷ [])))
    × (1 ≤ length (safe_log_id (some (10 ∷ b'a' ∷ []))))
    × (length (safe_log_id (some (10 ∷ b'a' ∷ []))) ≤ 96)
safe_log_id-AllPrintable_example = safe_log_id-AllPrintable (some (10 ∷ b'a' ∷ []))
