-- ===== src/Server/Intake.antt =====
-- `receive_request` of tools/branchscore_server.cpp: the loop that feeds llhttp from the socket.
use branchscore.Base.{ℕ, Bool, true, not, ◌&&◌, String, List, [], ◌∷◌, Bytes, ◌==◌, if◌then◌else◌}
use branchscore.Server.Context.{
  HttpRequest, ParseContext, Signal, go_on, halt, pause, no_request, initial, on_method, on_url,
  on_version, on_header_field, on_header_field_complete, on_header_value, on_header_value_complete,
  on_headers_complete, on_body, on_message_complete,
}

-- A callback that llhttp makes.
pub data Event : Type 0 where
  method url version header_field header_value body : Bytes → Event
  header_field_complete header_value_complete message_complete : Event
  headers_complete : ℕ → Event

unfoldable pub callback : ParseContext → Event → Signal × ParseContext
callback c (method bytes) = on_method c bytes
callback c (url bytes) = on_url c bytes
callback c (version bytes) = on_version c bytes
callback c (header_field bytes) = on_header_field c bytes
callback c header_field_complete = on_header_field_complete c
callback c (header_value bytes) = on_header_value c bytes
callback c header_value_complete = on_header_value_complete c
callback c (headers_complete content_length) = on_headers_complete c content_length
callback c (body bytes) = on_body c bytes
callback c message_complete = on_message_complete c

abbrev pub unless_stopped :
    Signal × ParseContext → (ParseContext → Signal × ParseContext) → Signal × ParseContext
unless_stopped (go_on, c) rest = rest c
unless_stopped (halt, c) rest = (halt, c)
unless_stopped (pause, c) rest = (pause, c)

-- llhttp makes its callbacks in order and stops at the first that does not return `HPE_OK`.
unfoldable pub callbacks : ParseContext → List Event → Signal × ParseContext
callbacks c [] = (go_on, c)
callbacks c (event ∷ events) = unless_stopped (callback c event) (λ c'. callbacks c' events)

-- llhttp, with its own state: the callbacks for some input, and whether the input is in error behind
-- them.
pub record LlHttp : Type 1 where
  pub State : Type 0
  pub start : State
  pub execute : State → Bytes → List Event × Bool × State
  pub finish : State → List Event × Bool

-- What one turn of the loop gets from `wait_for` and `::recv`.
pub data Read : Type 0 where
  timed_out end_of_stream interrupted failed : Read
  received : Bytes → Read

pub record ParseResult : Type 0 where
  pub request : HttpRequest
  pub status : ℕ
  pub error_code : String

-- `if (context.failure_status == 0)`, then the failure
unfoldable pub fail_once : ℕ → String → ParseContext → ParseContext
fail_once status code c =
    if c.failure_status == 0 then record c { failure_status = status; failure_code = code } else c

-- `parser_status != HPE_OK`
abbrev pub is_error : Signal → Bool → Bool
is_error go_on malformed = malformed
is_error halt malformed = true
is_error pause malformed = true

-- Behind `llhttp_finish`
unfoldable pub after_finish : Signal × ParseContext → Bool → ParseContext
after_finish (signal, c) malformed =
    if is_error signal malformed && not c.complete
    then record c { failure_status = 400; failure_code = "invalid_http_request" }
    else c

-- Behind `llhttp_execute`
unfoldable pub after_execute :
    Signal × ParseContext → Bool → (ParseContext → ParseContext) → ParseContext
unfolding fail_once
after_execute (signal, c) malformed rest =
    if c.complete
    then c
    else if is_error signal malformed
    then fail_once 400 "invalid_http_request" c
    else rest c

module _ (llhttp : LlHttp) where
  unfoldable pub at_end : ParseContext → llhttp.State → ParseContext
  unfolding callbacks after_finish
  at_end c s =
      if not c.complete && c.failure_status == 0
      then (let (events, malformed) = llhttp.finish s in
          after_finish (callbacks c events) malformed)
      else c

  -- The loop, over what the socket will give; a stream that gives no more is a timeout.
  unfoldable pub read_loop : ParseContext → llhttp.State → List Read → ParseContext
  unfolding fail_once at_end callbacks after_execute
  read_loop c s [] = fail_once 408 "request_timeout" c
  read_loop c s (timed_out ∷ reads) = fail_once 408 "request_timeout" c
  read_loop c s (end_of_stream ∷ reads) = at_end c s
  read_loop c s (interrupted ∷ reads) = read_loop c s reads
  read_loop c s (failed ∷ reads) = record c {
    failure_status = 400;
    failure_code = "invalid_http_request";
  }
  read_loop c s (received bytes ∷ reads) =
      let (events, malformed, s') = llhttp.execute s bytes in
      after_execute (callbacks c events) malformed (λ c'. read_loop c' s' reads)

  -- Behind the loop.
  unfoldable pub conclude : ParseContext → ParseResult
  unfolding fail_once
  conclude c =
      if c.complete
      then record { request = c.request; status = 0; error_code = "" }
      else (let c' = fail_once 400 "invalid_http_request" c in
          record { request = no_request; status = c'.failure_status; error_code = c'.failure_code })

  unfoldable pub receive_request : List Read → Bool → Bytes → ParseResult
  unfolding read_loop conclude
  receive_request reads require_bearer bearer_token =
      conclude (read_loop (initial require_bearer bearer_token) llhttp.start reads)
