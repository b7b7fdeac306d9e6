-- ===== src/Server/Context.antt =====
-- `ParseContext` of tools/branchscore_server.cpp and the callbacks that llhttp makes on it.
use branchscore.Base.{
  ℕ, suc, ◌+◌, ◌*◌, min, Bool, true, false, not, ◌&&◌, ◌||◌, String, Option, none, some, [], ◌++◌,
  Bytes, codes, equal, ltb, if◌then◌else◌, length,
}
use branchscore.Base.Words.{sub64}
use branchscore.Server.Authorization.{lowercase, trim, authorized, is_empty}

abbrev pub max_request_body_bytes : ℕ
max_request_body_bytes = 16 * 1024 * 1024

abbrev pub max_request_header_bytes : ℕ
max_request_header_bytes = 16 * 1024

abbrev pub max_request_header_count : ℕ
max_request_header_count = 64

pub record HttpRequest : Type 0 where
  pub method : Bytes
  pub url : Bytes
  pub content_type : Bytes
  pub authorization : Bytes
  pub content_encoding : Bytes
  pub expect : Bytes
  pub body : Bytes

pub record ParseContext : Type 0 where
  pub request : HttpRequest
  pub header_name : Bytes
  pub header_value : Bytes
  pub header_bytes : ℕ
  pub header_count : ℕ
  pub authorization_count : ℕ
  pub content_type_count : ℕ
  -- a status of 0 is no failure
  pub failure_status : ℕ
  pub failure_code : String
  pub complete : Bool
  pub require_bearer : Bool
  pub bearer_token : Option Bytes

abbrev pub no_request : HttpRequest
no_request = record {
  method = [];
  url = [];
  content_type = [];
  authorization = [];
  content_encoding = [];
  expect = [];
  body = [];
}

abbrev pub initial : Bool → Bytes → ParseContext
initial require_bearer bearer_token = record {
  request = no_request;
  header_name = [];
  header_value = [];
  header_bytes = 0;
  header_count = 0;
  authorization_count = 0;
  content_type_count = 0;
  failure_status = 0;
  failure_code = "";
  complete = false;
  require_bearer = require_bearer;
  bearer_token = some bearer_token;
}

-- What a callback returns: `HPE_OK`, an error (`HPE_USER` or -1), or `HPE_PAUSED`.
pub data Signal : Type 0 where
  go_on halt pause : Signal

abbrev pub fail : ℕ → String → ParseContext → Signal × ParseContext
fail status code context = (halt, record context { failure_status = status; failure_code = code })

unfoldable pub add_header_bytes : ParseContext → ℕ → Bool × ParseContext
add_header_bytes context count =
    if ltb (sub64 max_request_header_bytes context.header_bytes) count
    then (false, record context { failure_status = 431; failure_code = "headers_too_large" })
    else (true, record context { header_bytes = context.header_bytes + count })

-- `if (!add_header_bytes(context, count)) return HPE_USER;`, and what follows it
abbrev pub unless_full :
    Bool × ParseContext → (ParseContext → Signal × ParseContext) → Signal × ParseContext
unless_full (true, c) rest = rest c
unless_full (false, c) rest = (halt, c)

abbrev pub counted :
    ParseContext → ℕ → (ParseContext → Signal × ParseContext) → Signal × ParseContext
counted context count rest = unless_full (add_header_bytes context count) rest

-- `length > limit - std::min(limit, size)`
abbrev pub overruns : ℕ → ℕ → ℕ → Bool
overruns len limit size = ltb (sub64 limit (min limit size)) len

unfoldable pub on_method : ParseContext → Bytes → Signal × ParseContext
on_method context bytes =
    if overruns (length bytes) 32 (length context.request.method)
    then fail 414 "request_target_too_large" context
    else counted context (length bytes) (λ c.
      (go_on, record c { request = record c.request { method = c.request.method ++ bytes } }))

unfoldable pub on_url : ParseContext → Bytes → Signal × ParseContext
on_url context bytes =
    if overruns (length bytes) 4096 (length context.request.url)
    then fail 414 "request_target_too_large" context
    else counted context (length bytes)
        (λ c. (go_on, record c { request = record c.request { url = c.request.url ++ bytes } }))

unfoldable pub on_version : ParseContext → Bytes → Signal × ParseContext
on_version context bytes = counted context (length bytes) (λ c. (go_on, c))

unfoldable pub on_header_field : ParseContext → Bytes → Signal × ParseContext
on_header_field context bytes =
    if overruns (length bytes) max_request_header_bytes (length context.header_name)
    then fail 431 "headers_too_large" context
    else counted context (length bytes)
        (λ c. (go_on, record c { header_name = c.header_name ++ bytes }))

unfoldable pub on_header_field_complete : ParseContext → Signal × ParseContext
on_header_field_complete context =
    (go_on, record context { header_name = lowercase context.header_name })

unfoldable pub on_header_value : ParseContext → Bytes → Signal × ParseContext
on_header_value context bytes =
    if overruns (length bytes) max_request_header_bytes (length context.header_value)
    then fail 431 "headers_too_large" context
    else counted context (length bytes)
        (λ c. (go_on, record c { header_value = c.header_value ++ bytes }))

-- The chain of comparisons on the header's name.
unfoldable pub store_header : ParseContext → Bytes → ParseContext
store_header c value =
    if equal c.header_name (codes "content-type")
    then record c {
      content_type_count = suc c.content_type_count;
      request = record c.request { content_type = value };
    }
    else if equal c.header_name (codes "authorization")
    then record c {
      authorization_count = suc c.authorization_count;
      request = record c.request { authorization = value };
    }
    else if equal c.header_name (codes "content-encoding")
    then record c { request = record c.request { content_encoding = lowercase value } }
    else if equal c.header_name (codes "expect")
    then record c { request = record c.request { expect = lowercase value } }
    else c

-- `on_header_value_complete`, behind the call of `add_header_bytes`
unfoldable pub finish_header : Bool × ParseContext → Signal × ParseContext
unfolding store_header
finish_header (false, c) = fail 431 "headers_too_large" c
finish_header (true, c) =
    if ltb max_request_header_count c.header_count then fail 431 "headers_too_large" c else (
      go_on,
      record (store_header c (trim c.header_value)) { header_name = []; header_value = [] },
    )

unfoldable pub on_header_value_complete : ParseContext → Signal × ParseContext
unfolding finish_header
on_header_value_complete context =
    finish_header (add_header_bytes (record context { header_count = suc context.header_count }) 4)

-- No token is a token that matches nothing.
abbrev pub is_authorized : ParseContext → Bool
is_authorized context = elim context.bearer_token [
  | none ↦ false
  | some token ↦ authorized context.request.authorization token
]

-- `content_length` is the field of llhttp's parser.
unfoldable pub on_headers_complete : ParseContext → ℕ → Signal × ParseContext
on_headers_complete context content_length =
    if ltb 1 context.authorization_count || ltb 1 context.content_type_count
    then fail 400 "invalid_http_request" context
    else if context.require_bearer
        && (not (equal context.request.url (codes "/ui")) && not (is_authorized context))
    then fail 401 "unauthorized" context
    else if ltb max_request_body_bytes content_length
    then fail 413 "request_too_large" context
    else if not (is_empty context.request.expect)
    then fail 417 "expectation_not_supported" context
    else if not (is_empty context.request.content_encoding)
        && not (equal context.request.content_encoding (codes "identity"))
    then fail 415 "unsupported_content_encoding" context
    else (go_on, context)

unfoldable pub on_body : ParseContext → Bytes → Signal × ParseContext
on_body context bytes =
    if ltb (sub64 max_request_body_bytes (length context.request.body)) (length bytes)
    then fail 413 "request_too_large" context
    else (
      go_on,
      record context { request = record context.request { body = context.request.body ++ bytes } },
    )

unfoldable pub on_message_complete : ParseContext → Signal × ParseContext
on_message_complete context = (pause, record context { complete = true })
