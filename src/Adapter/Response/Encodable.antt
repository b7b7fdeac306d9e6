-- ===== src/Adapter/Response/Encodable.antt =====
-- What `make_response` of src/systemone_adapter.cpp builds can be encoded.
use branchscore.Adapter.Request.{Request, ChoiceQuestion}
use branchscore.Adapter.Response.{
  number, size_number, emplace_all, timing_members, answer_members, diagnostic_members,
  usage_members, metadata_members, response_members, with_request_id, timing_json, validate_result,
  score_maps, option_order, answer_json, diagnostic_json, Progress, answer_questions, make_response,
}
use branchscore.Base.{
  ℕ, ◌+◌, arith, ◌-◌, ◌^◌, Bool, true, false, not, Option, none, some, List, [], ◌∷◌, Bytes, codes,
  length, ltb, ◌==◌,
}
use branchscore.Decision.{DecisionResult, OptionScore, TimingInfo}
use branchscore.Double.{Double, is_finite, double_of_size}
use branchscore.Json.Value.{Value, Fields, string, object, no_fields, emplace}
use branchscore.Json.WellFormed.{
  IsWellFormed, WellFormedFields, WellFormedItems, emplace-WellFormed,
}
use branchscore.Result.{
  Result, ok, throw, runtime_error, Ensures, Ensures-bind, Ensures-if, ◌>>=◌, Ensures-throw_if,
}

abbrev Encodable : Result Value → Type 0
Encodable = Ensures IsWellFormed

abbrev AllEncodable : List (Bytes × Result Value) → Type 0
AllEncodable [] = Unit
AllEncodable ((k, r) ∷ rs) = Encodable r × AllEncodable rs

number-Encodable : (d : Double) → Encodable (number d)
unfolding number
number-Encodable d =
    Ensures-if IsWellFormed (is_finite d) (ok (Value.number d)) (throw runtime_error) (λ h. h)
      λ h. tt

size_number-Encodable : (n : ℕ) → Encodable (size_number n)
unfolding size_number
size_number-Encodable n = number-Encodable (double_of_size n)

emplace_all-Encodable :
    (fs : Fields) (members : List (Bytes × Result Value))
    → WellFormedFields fs
    → AllEncodable members
    → Ensures WellFormedFields (emplace_all fs members)
unfolding emplace_all
emplace_all-Encodable fs [] w a = w
emplace_all-Encodable fs ((k, r) ∷ members) w a =
    Ensures-bind IsWellFormed WellFormedFields r _ a.0
      λ v h. emplace_all-Encodable (emplace k v fs) members (emplace-WellFormed k v fs h w) a.1

as_object-Encodable :
    (r : Result Fields) → Ensures WellFormedFields r → Encodable (r >>= λ fs. ok (object fs))
as_object-Encodable r h = Ensures-bind WellFormedFields IsWellFormed r _ h λ fs w. w

timing_json-Encodable : (t : TimingInfo) → Encodable (timing_json t)
unfolding timing_json
timing_json-Encodable t = as_object-Encodable _ (
    emplace_all-Encodable no_fields (timing_members t) tt (
      number-Encodable _,
      (
        number-Encodable _,
        (
          number-Encodable _,
          (
            number-Encodable _,
            (
              number-Encodable _,
              (
                number-Encodable _,
                (
                  size_number-Encodable _,
                  (
                    tt,
                    (
                      number-Encodable _,
                      (
                        number-Encodable _,
                        (
                          number-Encodable _,
                          (
                            size_number-Encodable _,
                            (
                              tt,
                              (
                                tt,
                                (
                                  size_number-Encodable _,
                                  (
                                    size_number-Encodable _,
                                    (
                                      size_number-Encodable _,
                                      (
                                        size_number-Encodable _,
                                        (
                                          size_number-Encodable _,
                                          (
                                            number-Encodable _,
                                            (
                                              number-Encodable _,
                                              (
                                                number-Encodable _,
                                                (
                                                  size_number-Encodable _,
                                                  (number-Encodable _, (number-Encodable _, tt)),
                                                ),
                                              ),
                                            ),
                                          ),
                                        ),
                                      ),
                                    ),
                                  ),
                                ),
                              ),
                            ),
                          ),
                        ),
                      ),
                    ),
                  ),
                ),
              ),
            ),
          ),
        ),
      ),
    ))

option_order-WellFormed : (scores : List OptionScore) → WellFormedItems (option_order scores)
unfolding option_order
option_order-WellFormed [] = tt
option_order-WellFormed (score ∷ scores) = (tt, option_order-WellFormed scores)

abbrev BothWellFormed : Fields × Fields → Type 0
BothWellFormed (a, b) = WellFormedFields a × WellFormedFields b

score_maps-WellFormed :
    (a b : Fields) (scores : List OptionScore)
    → WellFormedFields a
    → WellFormedFields b
    → Ensures BothWellFormed (score_maps a b scores)
unfolding score_maps
score_maps-WellFormed a b [] wa wb = (wa, wb)
score_maps-WellFormed a b (score ∷ scores) wa wb =
    Ensures-bind IsWellFormed BothWellFormed _ _ (number-Encodable score.relative_probability)
      λ p hp.
        Ensures-bind IsWellFormed BothWellFormed _ _ (number-Encodable score.raw_score) λ r hr.
          score_maps-WellFormed (emplace score.option_id p a) (emplace score.option_id r b) scores
            (emplace-WellFormed score.option_id p a hp wa)
            (emplace-WellFormed score.option_id r b hr wb)

answer_json-Encodable :
    (id : Bytes) (fs : Fields) → WellFormedFields fs → Encodable (answer_json id fs)
unfolding answer_json
answer_json-Encodable id fs w = as_object-Encodable _ (
    emplace_all-Encodable no_fields (answer_members id fs) tt
      (tt, (tt, (w, (number-Encodable _, tt)))))

diagnostic_json-Encodable :
    (result : DecisionResult) (raw : Fields) (include_raw : Bool)
    → WellFormedFields raw
    → Encodable (diagnostic_json result raw include_raw)
unfolding diagnostic_json
diagnostic_json-Encodable result raw true w =
    Ensures-bind WellFormedFields IsWellFormed _ _
      (emplace_all-Encodable no_fields (diagnostic_members result) tt (
        tt,
        (
          tt,
          (
            tt,
            (
              tt,
              (
                option_order-WellFormed result.option_scores,
                (timing_json-Encodable result.timings, tt),
              ),
            ),
          ),
        ),
      ))
      λ fs h. emplace-WellFormed (codes "raw_logits") (object raw) fs w h
diagnostic_json-Encodable result raw false w =
    Ensures-bind WellFormedFields IsWellFormed _ _
      (emplace_all-Encodable no_fields (diagnostic_members result) tt (
        tt,
        (
          tt,
          (
            tt,
            (
              tt,
              (
                option_order-WellFormed result.option_scores,
                (timing_json-Encodable result.timings, tt),
              ),
            ),
          ),
        ),
      ))
      λ fs h. h

abbrev Any {ℓ} : {A : Type ℓ} → A → Type 0
Any a = Unit

validate_result-Ensures :
    (q : ChoiceQuestion) (result : DecisionResult) → Ensures Any (validate_result q result)
unfolding validate_result
validate_result-Ensures q result = ground arith

record GoodProgress (p : Progress) : Type 0 where
  answers_good : WellFormedFields p.answers
  diagnostics_good : WellFormedFields p.diagnostic_questions

answer_questions-Good :
    (raw : Bool) (p : Progress) (questions : List ChoiceQuestion) (results : List DecisionResult)
    → GoodProgress p
    → Ensures GoodProgress (answer_questions raw p questions results)
unfolding answer_questions
answer_questions-Good raw p [] results g = g
answer_questions-Good raw p (q ∷ questions) [] g = g
answer_questions-Good raw p (q ∷ questions) (result ∷ results) g =
    Ensures-bind Any GoodProgress (validate_result q result) _ (validate_result-Ensures q result)
      λ _ _.
        Ensures-throw_if GoodProgress
          (ltb (2 ^ 64 - 1 - p.input_tokens) (length result.rendered_prompt_token_ids))
          runtime_error _
          λ _.
            Ensures-bind BothWellFormed GoodProgress _ _
              (score_maps-WellFormed no_fields no_fields result.option_scores tt tt)
              λ (a, b) h.
                Ensures-bind IsWellFormed GoodProgress _ _
                  (answer_json-Encodable result.selected_id a h.0)
                  λ answer wa.
                    Ensures-bind IsWellFormed GoodProgress _ _
                      (diagnostic_json-Encodable result b raw h.1)
                      λ diagnostic wd.
                        answer_questions-Good raw
                          (record {
                            answers = emplace q.id answer p.answers;
                            diagnostic_questions = emplace q.id diagnostic p.diagnostic_questions;
                            input_tokens = p.input_tokens + length result.rendered_prompt_token_ids;
                          })
                          questions results
                          (record {
                            answers_good =
                                emplace-WellFormed q.id answer p.answers wa g.answers_good;
                            diagnostics_good =
                                emplace-WellFormed q.id diagnostic p.diagnostic_questions wd
                                  g.diagnostics_good;
                          })

with_request_id-WellFormed :
    (id : Option Bytes) (fs : Fields)
    → WellFormedFields fs
    → WellFormedFields (with_request_id id fs)
with_request_id-WellFormed none fs w = w
with_request_id-WellFormed (some i) fs w =
    emplace-WellFormed (codes "request_id") (string i) fs tt w

-- A response that `make_response` returns is a well-formed value, whatever the engine computed: its
-- numbers are finite and its objects have each key once. It never runs out of fuel.
pub make_response-IsWellFormed :
    (request : Request) (results : List DecisionResult) (raw : Bool)
    → Ensures IsWellFormed (make_response request results raw)
unfolding make_response
make_response-IsWellFormed request results raw =
    Ensures-throw_if IsWellFormed (not (length results == length request.questions)) runtime_error _
      λ _.
        Ensures-bind GoodProgress IsWellFormed _ _
          (answer_questions-Good raw _ request.questions results
            (record { answers_good = tt; diagnostics_good = tt }))
          λ p g.
            Ensures-bind WellFormedFields IsWellFormed _ _
              (emplace_all-Encodable no_fields (usage_members p) tt
                (size_number-Encodable p.input_tokens, (number-Encodable (double_of_size 0), tt)))
              λ usage wu.
                Ensures-bind WellFormedFields IsWellFormed _ _
                  (emplace_all-Encodable no_fields (metadata_members p) tt
                    (number-Encodable (double_of_size 2), (tt, (g.diagnostics_good, tt))))
                  λ metadata wm.
                    Ensures-bind WellFormedFields IsWellFormed
                      (emplace_all no_fields (response_members request p usage metadata))
                      (λ response. ok (object (with_request_id request.request_id response)))
                      (emplace_all-Encodable no_fields (response_members request p usage metadata)
                        tt (tt, (g.answers_good, (wu, (wm, tt)))))
                      λ response wr. with_request_id-WellFormed request.request_id response wr
