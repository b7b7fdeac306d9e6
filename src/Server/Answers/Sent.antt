-- ===== src/Server/Answers/Sent.antt =====
-- What `handle_connection` of tools/branchscore_server.cpp sends can be encoded.
use branchscore.Adapter.Valid.Members.{Any}
use branchscore.Base.{ℕ, ◌≡◌, refl, true, String, Option, none, some, Bytes, codes}
use branchscore.Decision.{
  max_decision_options, max_prefill_positions, max_request_prefill_positions,
}
use branchscore.Double.{Double, Libc, double_of_size, log2, is_finite}
use branchscore.Json.Render.{stringify-render}
use branchscore.Json.Value.{
  Value, Fields, string, object, as_object, lookup, set, no_fields, emplace,
}
use branchscore.Json.WellFormed.{IsWellFormed, WellFormedFields, emplace-WellFormed}
use branchscore.Result.{Exception, Result, ok, throw, out_of_fuel, out_of_range, Outcome, Ensures}
use branchscore.Server.Handle.{send_json, send_error, at, set_metadata, health_json}
use branchscore.Server.Replies.{public_message, with_request_id, error_json, json_response}

pub error_json-IsWellFormed :
    (code : String) (id : Option Bytes) → IsWellFormed (error_json code id)
unfolding error_json
error_json-IsWellFormed code id = given id
  where
    error : Fields
    error =
        emplace (codes "message") (string (codes (public_message code)))
          (emplace (codes "code") (string (codes code)) no_fields)

    error_good : WellFormedFields (emplace (codes "error") (object error) no_fields)
    error_good =
        emplace-WellFormed (codes "error") (object error) no_fields
          (emplace-WellFormed (codes "message") _ _ tt
            (emplace-WellFormed (codes "code") _ no_fields tt tt))
          tt

    given :
        (id : Option Bytes)
        → WellFormedFields (with_request_id id (emplace (codes "error") (object error) no_fields))
    given none = error_good
    given (some i) = emplace-WellFormed (codes "request_id") (string i) _ tt error_good

-- An error can always be sent.
pub send_error-Outcome :
    (libc : Libc) (status : ℕ) (code : String) (id : Option Bytes)
    → Outcome (λ r. r.status ≡ status) (λ e. ⊥) (send_error libc status code id)
unfolding send_error send_json json_response
send_error-Outcome libc status code id =
    rw (stringify-render libc (error_json code id) (error_json-IsWellFormed code id)) refl

pub limits-IsFinite :
    (is_finite (double_of_size max_decision_options) ≡ true)
    × (is_finite (double_of_size max_prefill_positions) ≡ true)
    × (is_finite (double_of_size max_request_prefill_positions) ≡ true)
unfolding double_of_size log2 is_finite
limits-IsFinite = (refl, refl, refl)

pub health_json-IsWellFormed : (model_id : Bytes) → IsWellFormed (health_json model_id)
unfolding health_json
health_json-IsWellFormed model_id =
    emplace-WellFormed _ _ _
      (emplace-WellFormed _ _ _ limits-IsFinite.2 (
        emplace-WellFormed _ _ _ limits-IsFinite.1
          (emplace-WellFormed _ _ no_fields limits-IsFinite.0 tt)))
      (emplace-WellFormed _ _ _ tt (emplace-WellFormed _ _ no_fields tt tt))

pub Outcome-map :
    {A : Type 0} (P Q : A → Type 0) (E : Exception → Type 0) (m : Result A)
    → Outcome P E m
    → ((a : A) → P a → Q a)
    → Outcome Q E m
Outcome-map P Q E (ok a) h k = k a h
Outcome-map P Q E (throw e) h k = h
Outcome-map P Q E out_of_fuel h k = h

pub set_metadata-Ensures : (ms : Double) (n : ℕ) (m : Value) → Ensures Any (set_metadata ms n m)
unfolding set_metadata set
set_metadata-Ensures ms n (object fs) = tt
set_metadata-Ensures ms n _ = tt

pub at-Ensures : (k : Bytes) (fs : Fields) → Ensures Any (at k fs)
at-Ensures k fs = given (lookup k fs)
  where
    given : (o : Option Value) → Ensures Any (elim o [ none ↦ throw out_of_range | some v ↦ ok v ])
    given none = tt
    given (some v) = tt

pub as_object-Ensures : (v : Value) → Ensures Any (as_object v)
unfolding as_object
as_object-Ensures (object fs) = tt
as_object-Ensures _ = tt
