-- ===== src/Tests/Adapter.antt =====
-- The adapter of src/systemone_adapter.cpp on small inputs.
use branchscore.Adapter.Base64.{decode_base64, encode, AllBytes}
use branchscore.Adapter.Base64.Canonical.{decode_base64_iff, decode_base64-Refuses, Refuses}
use branchscore.Adapter.Request.{Request, parse_request}
use branchscore.Adapter.Response.{make_response}
use branchscore.Adapter.Response.Encodable.{make_response-IsWellFormed}
use branchscore.Adapter.Valid.{IsAccepted, parse_request-Outcome}
use branchscore.Adapter.Valid.Options.{IsRequestError}
use branchscore.Base.{◌≡◌, ◌≢◌, ◌↔◌, refl, arith, none, some, [], ◌∷◌, Bytes, codes, true, less}
use branchscore.Image.Inspect.{StbiInfo}
use branchscore.Json.Value.{Value, null_value, string, object, no_fields, field}
use branchscore.Json.WellFormed.{IsWellFormed}
use branchscore.Result.{ok, Outcome, Ensures}
use branchscore.Tests.Codec.{unary_libc}

abbrev pub no_image : StbiInfo
no_image = λ bytes. none

-- {"model":"m","questions":{"q":{"criteria":{"a":null,"b":"x"},"instructions":"i","type":"choice"}},
--  "state":"s"}
abbrev envelope : Value
envelope = object (
    field (codes "model") (string (codes "m")) (
      field (codes "questions")
        (object (
          field (codes "q")
            (object (
              field (codes "criteria")
                (object
                  (field (codes "a") null_value (field (codes "b") (string (codes "x")) no_fields)))
                (field (codes "instructions") (string (codes "i"))
                  (field (codes "type") (string (codes "choice")) no_fields))))
            no_fields))
        (field (codes "state") (string (codes "s")) no_fields)))

envelope-IsWellFormed : IsWellFormed envelope
unfolding less
envelope-IsWellFormed = ground arith

parse_request-Outcome_example :
    Outcome
      (IsAccepted (codes "m"))
      IsRequestError
      (parse_request unary_libc no_image envelope (codes "m"))
parse_request-Outcome_example =
    parse_request-Outcome unary_libc no_image envelope (codes "m") envelope-IsWellFormed refl

abbrev one_byte : Bytes
one_byte = 1 ∷ []

decode_base64_iff_example :
    (decode_base64 (codes "AQ==") ≡ ok one_byte)
    ↔ ((one_byte ≢ []) × AllBytes one_byte × (codes "AQ==" ≡ encode one_byte))
decode_base64_iff_example = decode_base64_iff (codes "AQ==") one_byte

decode_base64-Refuses_example : Refuses (decode_base64 (codes "AR=="))
decode_base64-Refuses_example = decode_base64-Refuses (codes "AR==")

abbrev empty_request : Request
empty_request = record {
  model_id = codes "m";
  request_id = some (codes "r");
  image_bytes = none;
  questions = [];
}

make_response-IsWellFormed_example : Ensures IsWellFormed (make_response empty_request [] true)
make_response-IsWellFormed_example = make_response-IsWellFormed empty_request [] true
