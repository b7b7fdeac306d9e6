-- ===== src/Engine/Checks.antt =====
-- What the checks of `evaluate` in src/gemma4_decision_engine.cpp let through.
use branchscore.Base.{
  ℕ, suc, ◌≤◌, ◌≡◌, refl, sym, subst, Bool, true, false, not, ◌&&◌, ◌||◌, Option, List, [], ◌∷◌,
  Bytes, codes, length, if◌then◌else◌, ltb, ◌==◌, arith,
}
use branchscore.Decision.{
  DecisionOption, TokenId, max_prefill_positions, min_decision_options, max_decision_options,
}
use branchscore.Double.{Libc}
use branchscore.Engine.Evaluate.{
  image_count, check_image_tokens, contains, answer_tokens_of, ids_of,
}
use branchscore.Engine.Validate.{check_position_budget}
use branchscore.Prompt.Render.{RenderedAnswerSlot, RenderedPrompt, render}
use branchscore.Prompt.Slots.{SlotsFor, render-Outcome}
use branchscore.Result.{
  Result, Exception, ok, throw, out_of_fuel, runtime_error, decision_budget_error, throw_if,
  Outcome, ok_of_bind, ok-injective,
}
use branchscore.Tokenizer.AnswerLabel.{AnswerToken, tokenize_answer_label}
use branchscore.Tokenizer.Vocabulary.{Impl, find_token}

-- `throw_if` that returns
pub if_passed : (b : Bool) (e : Exception) (u : Unit {0}) → throw_if b e ≡ ok u → b ≡ false
if_passed true e u h = absurd (cc)
if_passed false e u h = refl

pub render-SlotsFor :
    (libc : Libc) (state question : Bytes) (options : List DecisionOption) (with_image : Bool)
    (template : Option Bytes) (gguf : Bool) (prompt : RenderedPrompt)
    → render libc state question options with_image template gguf ≡ ok prompt
    → SlotsFor 0 options prompt.answer_slots
unfolding render
render-SlotsFor libc state question options with_image template gguf prompt h =
    let (u, state_there, h₁) = ok_of_bind (throw_if (length state == 0) runtime_error) _ prompt h in
    let (v, question_there, h₂) =
      ok_of_bind (throw_if (length question == 0) runtime_error) _ prompt h₁ in
    let (w, in_limits, h₃) =
      ok_of_bind
        (throw_if
          (ltb (length options) min_decision_options || ltb max_decision_options (length options))
          runtime_error)
        _ prompt h₂ in
    let limits = if_passed _ _ w in_limits in
    at_ok (render libc state question options with_image template gguf) h (
      render-Outcome libc state question options with_image template gguf
        (if_passed _ _ u state_there) (if_passed _ _ v question_there) (ground arith)
        (ground arith))
  where
    at_ok :
        (r : Result RenderedPrompt)
        → r ≡ ok prompt
        → Outcome (λ p. SlotsFor 0 options p.answer_slots) (λ e. ⊥) r
        → SlotsFor 0 options prompt.answer_slots
    at_ok (ok p) e outcome = rw (sym (ok-injective e)) outcome
    at_ok (throw x) e outcome = absurd outcome
    at_ok out_of_fuel e outcome = absurd outcome

-- Distinct ids, none of which is among those before
pub data AllNew : List TokenId → List TokenId → Type 0 where
  all_done : (seen : List TokenId) → AllNew seen []
  one_new :
      (seen : List TokenId) (id : TokenId) (ids : List TokenId)
      → contains id seen ≡ false
      → AllNew (id ∷ seen) ids
      → AllNew seen (id ∷ ids)

pub answer_tokens_of_sound :
    (impl : Impl) (text : Bytes) (seen : List TokenId) (slots : List RenderedAnswerSlot)
    (answers : List AnswerToken)
    → answer_tokens_of impl text seen slots ≡ ok answers
    → (length answers ≡ length slots) × AllNew seen (ids_of answers)
unfolding answer_tokens_of ids_of
answer_tokens_of_sound impl text seen [] answers h =
    subst (λ made. (length made ≡ 0) × AllNew seen (ids_of made)) (ok-injective h)
      (refl, all_done seen)
answer_tokens_of_sound impl text seen (slot ∷ slots) answers h =
    let (answer, _, h₁) = ok_of_bind (tokenize_answer_label impl text slot.label) _ answers h in
    let (u, new, h₂) =
      ok_of_bind (throw_if (not answer.boundary_valid || contains answer.id seen) runtime_error) _
        answers h₁ in
    let (rest, run, h₃) =
      ok_of_bind (answer_tokens_of impl text (answer.id ∷ seen) slots) _ answers h₂ in
    let (same, distinct) = answer_tokens_of_sound impl text (answer.id ∷ seen) slots rest run in
    let fresh = if_passed _ _ u new in
    subst (λ made. (length made ≡ suc (length slots)) × AllNew seen (ids_of made)) (ok-injective h₃)
      (omega (arith, same), one_new seen answer.id (ids_of rest) (ground arith) distinct)

pub check_image_tokens-count :
    (impl : Impl) (with_image : Bool) (ids : List TokenId) (u : Unit {0})
    → check_image_tokens impl with_image ids ≡ ok u
    → image_count (find_token impl (codes "<|image|>")) ids ≡ (if with_image then 1 else 0)
unfolding check_image_tokens
check_image_tokens-count impl with_image ids u h =
    let count = image_count (find_token impl (codes "<|image|>")) ids in
    let (v, one, h₁) = ok_of_bind (throw_if (with_image && not (count == 1)) runtime_error) _ u h in
    let (w, no_other, h₂) =
      ok_of_bind (throw_if (not with_image && not (count == 0)) runtime_error) _ u h₁ in
    counted with_image count (if_passed _ _ v one) (if_passed _ _ w no_other)
  where
    counted :
        (b : Bool) (n : ℕ)
        → (b && not (n == 1)) ≡ false
        → (not b && not (n == 0)) ≡ false
        → n ≡ (if b then 1 else 0)
    counted true n one none_else = ground arith
    counted false n one none_else = ground arith

pub check_position_budget-le :
    (n context : ℕ) (u : Unit {0})
    → check_position_budget n context ≡ ok u
    → (n ≤ context) × (n ≤ max_prefill_positions)
unfolding check_position_budget
check_position_budget-le n context u h =
    let (v, inside, h₁) =
      ok_of_bind (throw_if (ltb context n) (decision_budget_error "context_limit_exceeded")) _ u
        h in
    let below = if_passed _ _ v inside in
    let capped = if_passed _ _ u h₁ in (ground arith, ground arith)
