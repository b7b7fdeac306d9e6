-- ===== src/Adapter/Valid.antt =====
-- A request that the adapter accepts passes the checks of the engine.
pub mod Options
pub mod Members
use branchscore.Adapter.Request.{
  invalid_request, max_questions_per_request, required, required_string, require_object,
  reject_unknown_fields, member, serialize_state, parse_image, ChoiceQuestion, Request,
  visible_description, parse_criteria, parse_question, parse_questions, parse_request_id,
  parse_request_image, parse_request, rethrow, is_empty, png_signature, jpeg_signature,
}
use branchscore.Adapter.Base64.{decode_base64}
use branchscore.Adapter.Base64.Canonical.{decode_base64-Refuses}
use branchscore.Base.{
  starts_with, ℕ, suc, ap, equal_iff, ◌==◌, ◌≡◌, ◌≤◌, refl, Bool, true, false, not, Option, none,
  some, List, [], ◌∷◌, ◌++◌, Bytes, codes, equal, less, less_trans, less-equal, arith, length, ltb,
  ◌||◌, ◌&&◌, if◌then◌else◌, Bool-cases, inl, inr,
}
use mathlib.Core.Path.{subst}
use branchscore.Decision.{
  DecisionOption, DecisionRequest, direct_answer_disabled, min_decision_options,
  max_decision_options,
}
use branchscore.Double.{Libc}
use branchscore.Engine.Validate.{seen, validate_options, validate_request}
use branchscore.Image.Inspect.{StbiInfo, inspect_encoded}
use branchscore.Json.Render.{stringify-render}
use branchscore.Json.Value.{
  Value, Fields, null_value, boolean, number, string, array, object, no_fields, field, find, lookup,
  size,
}
use branchscore.Json.WellFormed.{IsWellFormed, WellFormedFields, Above}
use branchscore.Result.{
  Exception, Result, ok, throw, out_of_fuel, request_error, invalid_argument, throw_if, Outcome,
  Outcome-bind, Outcome-throw_if, Outcome-weaken, ◌>>=◌,
}
use branchscore.Adapter.Valid.Options.{
  IsRequestError, GoodOptions, parse_criteria-Outcome, validate_options-GoodOptions,
  length-GoodOptions, AllUnder-empty,
}
use branchscore.Adapter.Valid.Members.{
  Any, required-Outcome, required_string-Outcome, require_object-Outcome,
  reject_unknown_fields-Outcome, StateIsGood, serialize_state-Outcome, parse_image-Outcome,
  find-IsWellFormed,
}

-- A question with an id and a decision that the engine does not refuse.
abbrev pub Passes : ChoiceQuestion → Type 0
Passes q = (is_empty q.id ≡ false) × (validate_request q.decision ≡ ok tt)

abbrev pub AllPass : List ChoiceQuestion → Type 0
AllPass [] = Unit
AllPass (q ∷ qs) = Passes q × AllPass qs

abbrev Accepted : Bytes → ChoiceQuestion → Type 0
Accepted k q = (q.id ≡ k) × (is_empty k ≡ false) × (validate_request q.decision ≡ ok tt)

-- The checks of the engine, on what a question is made of.
checks_pass :
    (state question : Bytes) (image : Option Bytes) (fs : Fields) (os : List DecisionOption)
    → StateIsGood state
    → is_empty question ≡ false
    → (ltb (size fs) min_decision_options || ltb max_decision_options (size fs)) ≡ false
    → WellFormedFields fs
    → GoodOptions fs os
    → validate_request (record {
      state = state;
      question = question;
      options = os;
      image_path = none;
      image_bytes = image;
      reasoning = direct_answer_disabled;
      chat_template_file = none;
      capture_vision_debug = false;
    })
      ≡ ok tt
unfolding validate_request
checks_pass state question image fs os hs hq hn w g = rw (
  hs,
  hq,
  length-GoodOptions fs os g,
  hn,
  validate_options-GoodOptions fs os [] g w (AllUnder-empty fs),
)

parse_question-Outcome :
    (state : Bytes) (image : Option Bytes) (question_id : Bytes) (v : Value)
    → StateIsGood state
    → IsWellFormed v
    → Outcome (Accepted question_id) IsRequestError (parse_question state image question_id v)
unfolding parse_question
parse_question-Outcome state image question_id v hs w =
    let P : ChoiceQuestion → Type 0 = Accepted question_id in
    Outcome-throw_if P IsRequestError (is_empty question_id) invalid_request _ tt λ named.
      Outcome-bind WellFormedFields P IsRequestError _ _ (require_object-Outcome v w) λ fs _.
        Outcome-bind Any P IsRequestError _ _ (reject_unknown_fields-Outcome fs _) λ _ _.
          Outcome-bind Any P IsRequestError _ _ (required_string-Outcome v (codes "type") w)
            λ kind _.
              Outcome-throw_if P IsRequestError (not (equal kind (codes "choice")))
                (request_error "unsupported_question_type") _ tt
                λ _.
                  Outcome-bind Any P IsRequestError _ _
                    (required_string-Outcome v (codes "instructions") w)
                    λ instructions _.
                      Outcome-throw_if P IsRequestError (is_empty instructions) invalid_request _ tt
                        λ hq.
                          Outcome-bind IsWellFormed P IsRequestError _ _
                            (required-Outcome v (codes "criteria") w)
                            λ cv wc.
                              Outcome-bind WellFormedFields P IsRequestError _ _
                                (require_object-Outcome cv wc)
                                λ criteria wf.
                                  Outcome-throw_if P IsRequestError
                                    (ltb (size criteria) min_decision_options
                                      || ltb max_decision_options (size criteria))
                                    invalid_request _ tt
                                    λ hn.
                                      Outcome-bind (GoodOptions criteria) P IsRequestError _ _
                                        (parse_criteria-Outcome criteria)
                                        λ os g. (
                                          refl,
                                          named,
                                          checks_pass state instructions image criteria os hs hq hn
                                              wf g,
                                        )

parse_questions-Outcome :
    (state : Bytes) (image : Option Bytes) (fs : Fields)
    → StateIsGood state
    → WellFormedFields fs
    → Outcome
        (λ qs. (length qs ≡ size fs) × AllPass qs)
        IsRequestError
        (parse_questions state image fs)
unfolding parse_questions size
parse_questions-Outcome state image no_fields hs w = (refl, tt)
parse_questions-Outcome state image (field k v fs) hs w =
    let P : List ChoiceQuestion → Type 0 = λ qs. (length qs ≡ size (field k v fs)) × AllPass qs in
    Outcome-bind (Accepted k) P IsRequestError _ _ (parse_question-Outcome state image k v hs w.1)
      λ q hq.
        Outcome-bind (λ qs. (length qs ≡ size fs) × AllPass qs) P IsRequestError _ _
          (parse_questions-Outcome state image fs hs w.2)
          λ qs hqs. (ap suc hqs.0, ((rw (hq.0) hq.1, hq.2), hqs.1))

parse_request_id-Outcome : (v : Value) → Outcome Any IsRequestError (parse_request_id v)
unfolding parse_request_id
parse_request_id-Outcome v = by_kind (find (codes "request_id") v)
  where
    by_kind :
        (o : Option Value)
        → Outcome Any IsRequestError (elim o [
          | none ↦ ok none
          | some w ↦ elim w [ string s ↦ ok (some s) | _ ↦ throw invalid_request ]
        ])
    by_kind none = tt
    by_kind (some (string s)) = tt
    by_kind (some _) = tt

parse_request_image-Outcome :
    (stbi_info : StbiInfo) (v : Value)
    → IsWellFormed v
    → Outcome Any IsRequestError (parse_request_image stbi_info v)
unfolding parse_request_image
parse_request_image-Outcome stbi_info v w =
    given (find (codes "image") v) λ u e. find-IsWellFormed (codes "image") v w e
  where
    given :
        (o : Option Value)
        → ((u : Value) → o ≡ some u → IsWellFormed u)
        → Outcome Any IsRequestError (elim o [
          | none ↦ ok none
          | some u ↦ (parse_image stbi_info u >>= λ bytes. ok (some bytes))
        ])
    given none h = tt
    given (some u) h =
        Outcome-bind Any Any IsRequestError _ _ (parse_image-Outcome stbi_info u (h u refl))
          λ _ _. tt

-- What the caller may rely on in a request that was accepted.
abbrev pub IsAccepted : Bytes → Request → Type 0
IsAccepted advertised r =
    (r.model_id ≡ advertised)
    × (1 ≤ length r.questions)
    × (length r.questions ≤ max_questions_per_request)
    × AllPass r.questions

-- For a well-formed envelope and an advertised model id that is not empty, `parse_request` throws a
-- `RequestError` and nothing else, or returns a request for the advertised model, with 1 to 16
-- questions, each with an id and a decision that `validate_request` of the engine accepts.
pub parse_request-Outcome :
    (libc : Libc) (stbi_info : StbiInfo) (envelope : Value) (advertised : Bytes)
    → IsWellFormed envelope
    → is_empty advertised ≡ false
    → Outcome
        (IsAccepted advertised)
        IsRequestError
        (parse_request libc stbi_info envelope advertised)
unfolding parse_request
parse_request-Outcome libc stbi_info envelope advertised w ha =
    let P : Request → Type 0 = IsAccepted advertised in
    Outcome-bind WellFormedFields P IsRequestError _ _ (require_object-Outcome envelope w) λ fs _.
      Outcome-bind Any P IsRequestError _ _ (reject_unknown_fields-Outcome fs _) λ _ _.
        Outcome-bind Any P IsRequestError (throw_if (is_empty advertised) invalid_argument) _
          (rw (ha) tt)
          λ _ _.
            Outcome-bind IsWellFormed P IsRequestError _ _
              (required-Outcome envelope (codes "state") w)
              λ sv ws.
                Outcome-bind StateIsGood P IsRequestError _ _ (serialize_state-Outcome libc sv ws)
                  λ state hs.
                    Outcome-bind Any P IsRequestError _ _
                      (required_string-Outcome envelope (codes "model") w)
                      λ model _.
                        Outcome-throw_if P IsRequestError (not (equal model advertised))
                          (request_error "unsupported_model") _ tt
                          λ same.
                            Outcome-bind Any P IsRequestError _ _
                              (parse_request_id-Outcome envelope)
                              λ request_id _.
                                Outcome-bind Any P IsRequestError _ _
                                  (parse_request_image-Outcome stbi_info envelope w)
                                  λ image _.
                                    Outcome-bind IsWellFormed P IsRequestError _ _
                                      (required-Outcome envelope (codes "questions") w)
                                      λ qv wq.
                                        Outcome-bind WellFormedFields P IsRequestError _ _
                                          (require_object-Outcome qv wq)
                                          λ questions wf.
                                            Outcome-throw_if P IsRequestError (size questions == 0)
                                              invalid_request _ tt
                                              λ some_given.
                                                Outcome-throw_if P IsRequestError
                                                  (ltb max_questions_per_request (size questions))
                                                  invalid_request _ tt
                                                  λ few.
                                                    Outcome-bind
                                                      (λ qs.
                                                        (length qs ≡ size questions) × AllPass qs)
                                                      P IsRequestError _ _
                                                      (parse_questions-Outcome state image questions
                                                        hs wf)
                                                      λ qs hqs. (
                                                        ground (arith, equal_iff model advertised),
                                                        ground (arith, hqs.0),
                                                        ground (arith, hqs.0),
                                                        hqs.1,
                                                      )
