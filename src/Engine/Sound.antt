-- ===== src/Engine/Sound.antt =====
-- What `evaluate` of src/gemma4_decision_engine.cpp returns.
use branchscore.Base.{
  ◌+◌, ◌≤◌, ◌≡◌, refl, ap, subst, true, false, not, Option, none, some, List, [], ◌∷◌, codes,
  length, get_elem?, if◌then◌else◌, ◌==◌, arith,
}
use branchscore.Decision.{
  DecisionOption, DecisionRequest, DecisionResult, OptionScore, TokenId, has_image, has_value,
  max_prefill_positions,
}
use branchscore.Engine.Evaluate.{
  Machine, image_count, check_image_tokens, answer_tokens_of, ids_of, option_scores_of,
  selected_score, render_request, prepare_image, encode_image, make_result, tokens_before,
  tokens_after, evaluate,
}
use branchscore.Engine.Scores.{ScoresFor, option_scores_of-ScoresFor, ScoresFor-Stands}
use branchscore.Engine.Validate.{validate_request, check_position_budget}
use branchscore.Prompt.Render.{RenderedPrompt}
use branchscore.Prompt.Slots.{SlotsFor}
use branchscore.Readout.Float.{Float}
use branchscore.Readout.Maximum.{IsFirstMaximum}
use branchscore.Readout.Selected.{summarize_categorical_sound}
use branchscore.Readout.Summary.{
  Arithmetic, Logits, all_inside, all_finite, computed, vocabulary_of, gather_categorical_logits,
  summarize_categorical,
}
use branchscore.Result.{ok, runtime_error, throw_if, ok_of_bind, ok-injective}
use branchscore.Tokenizer.AnswerLabel.{AnswerToken}
use branchscore.Tokenizer.Segments.{tokenize}
use branchscore.Tokenizer.Vocabulary.{find_token}
use branchscore.Engine.Checks.{
  render-SlotsFor, AllNew, answer_tokens_of_sound, check_image_tokens-count,
  check_position_budget-le,
}

gather-length :
    (state : Logits) (ids : List TokenId) (values : List Float)
    → ((asked : List TokenId) (given : List Float)
        → state.gather asked ≡ some given
        → length given ≡ length asked)
    → gather_categorical_logits state ids ≡ ok values
    → length values ≡ length ids
unfolding gather_categorical_logits computed
gather-length state ids values law h =
    let (u, _, h₁) = ok_of_bind (throw_if (length ids == 0) runtime_error) _ values h in
    let (n, _, h₂) = ok_of_bind (vocabulary_of state.vocabulary) _ values h₁ in
    let (v, _, h₃) = ok_of_bind (throw_if (not (all_inside n ids)) runtime_error) _ values h₂ in
    let (raws, given, h₄) = ok_of_bind (computed (state.gather ids)) _ values h₃ in
    let (w, _, h₅) = ok_of_bind (throw_if (not (all_finite raws)) runtime_error) _ values h₄ in
    let same = ok-injective h₅ in
    subst (λ vs. length vs ≡ length ids) same
      (law ids raws (of_computed (state.gather ids) raws given))
  where
    of_computed :
        (o : Option (List Float)) (raws : List Float) → computed o ≡ ok raws → o ≡ some raws
    of_computed none raws e = absurd (cc)
    of_computed (some vs) raws e = ap some (ok-injective e)

length-ids_of : (answers : List AnswerToken) → length (ids_of answers) ≡ length answers
unfolding ids_of
length-ids_of [] = refl
length-ids_of (a ∷ answers) = omega (arith, length-ids_of answers)

-- What the readout and the result say of the options
pub record IsDecision (a : Arithmetic) (options : List DecisionOption) (result : DecisionResult)
    : Type 0 where
  pub answer_ids : List TokenId
  pub raw_scores : List Float
  pub all_distinct : AllNew [] answer_ids
  pub one_each : ScoresFor a 0 options answer_ids raw_scores result.option_scores
  pub largest : Float
  pub first_maximum : IsFirstMaximum raw_scores result.selected_index largest
  pub selected : DecisionOption
  pub selected_there : get_elem? options result.selected_index ≡ some selected
  pub selected_same : result.selected_id ≡ selected.id

selected_score-there :
    (o : Option OptionScore) (score : OptionScore) → selected_score o ≡ ok score → o ≡ some score
unfolding selected_score
selected_score-there none score e = absurd (cc)
selected_score-there (some s) score e = ap some (ok-injective e)

module _ {Image Visual State : Type 0} where
  make_result-IsDecision :
      (m : Machine Image Visual State) (rendered : RenderedPrompt) (ids : List TokenId)
      (answers : List AnswerToken) (visual : Option Visual) (state : State)
      (options : List DecisionOption) (result : DecisionResult)
      → ((s : State) (asked : List TokenId) (given : List Float)
          → (m.logits s).gather asked ≡ some given
          → length given ≡ length asked)
      → SlotsFor 0 options rendered.answer_slots
      → length answers ≡ length rendered.answer_slots
      → AllNew [] (ids_of answers)
      → make_result m rendered ids answers visual state ≡ ok result
      → IsDecision m.arithmetic options result × (result.rendered_prompt_token_ids ≡ ids)
  unfolding make_result
  make_result-IsDecision m rendered ids answers visual state options result law slots counted
        distinct h =
      let (raws, gathered, h₁) =
        ok_of_bind (gather_categorical_logits (m.logits state) (ids_of answers)) _ result h in
      let (summary, summed, h₂) =
        ok_of_bind (summarize_categorical m.arithmetic raws) _ result h₁ in
      let scores =
        option_scores_of m.arithmetic rendered.answer_slots answers raws
          summary.relative_probabilities in
      let (selected, found, h₃) =
        ok_of_bind (selected_score (get_elem? scores summary.selected_index)) _ result h₂ in
      let readout = summarize_categorical_sound m.arithmetic raws summary summed in
      let given = gather-length (m.logits state) (ids_of answers) raws (law state) gathered in
      let enough : length raws ≡ length rendered.answer_slots =
        omega (arith, given, length-ids_of answers, counted) in
      let for_each =
        option_scores_of-ScoresFor m.arithmetic 0 options rendered.answer_slots answers raws
          summary.relative_probabilities slots counted enough
          (omega (arith, readout.one_each, given, length-ids_of answers, counted)) in
      let stands =
        ScoresFor-Stands summary.selected_index for_each
          (selected_score-there (get_elem? scores summary.selected_index) selected found) in
      let index : summary.selected_index ≡ selected.input_index = omega (arith, stands.index) in
      subst (λ r. IsDecision m.arithmetic options r × (r.rendered_prompt_token_ids ≡ ids))
        (ok-injective h₃)
        (
          record {
            answer_ids = ids_of answers;
            raw_scores = raws;
            all_distinct = distinct;
            one_each = for_each;
            largest = readout.score;
            first_maximum =
                subst (λ k. IsFirstMaximum raws k readout.score) index readout.first_maximum;
            selected = stands.option;
            selected_there =
                subst (λ k. get_elem? options k ≡ some stands.option) index stands.at_place;
            selected_same = stands.same_id;
          },
          refl,
        )

  -- If the computation gives as many logits as ids, then what evaluate returns has a score for each
  -- option in order, made of distinct answer tokens; the selected option is the one with the first
  -- of the largest raw scores; the prompt's tokens are within the limits, and there is one image
  -- token in them if the request has an image, else none.
  pub evaluate_sound :
      (m : Machine Image Visual State) (request : DecisionRequest) (result : DecisionResult)
      → ((s : State) (asked : List TokenId) (given : List Float)
          → (m.logits s).gather asked ≡ some given
          → length given ≡ length asked)
      → evaluate m request ≡ ok result
      → IsDecision m.arithmetic request.options result
        × (length result.rendered_prompt_token_ids ≤ m.context_length)
        × (length result.rendered_prompt_token_ids ≤ max_prefill_positions)
        × (image_count (find_token m.impl (codes "<|image|>")) result.rendered_prompt_token_ids
            ≡ (if has_image request then 1 else 0))
  unfolding evaluate render_request
  evaluate_sound m request result law h =
      let (u, _, h₁) = ok_of_bind (validate_request request) _ result h in
      let (rendered, made, h₂) = ok_of_bind (render_request m request) _ result h₁ in
      let (ids, _, h₃) = ok_of_bind (tokenize m.impl rendered.text false true) _ result h₂ in
      let (v, within, h₄) =
        ok_of_bind (check_position_budget (length ids) m.context_length) _ result h₃ in
      let (w, imaged, h₅) =
        ok_of_bind (check_image_tokens m.impl (has_image request) ids) _ result h₄ in
      let (answers, asked, h₆) =
        ok_of_bind (answer_tokens_of m.impl rendered.text [] rendered.answer_slots) _ result h₅ in
      let (image, _, h₇) =
        ok_of_bind (prepare_image m request.image_path request.image_bytes) _ result h₆ in
      let (visual, _, h₈) =
        ok_of_bind
          (encode_image m (length (tokens_before m.impl ids) + length (tokens_after m.impl ids))
            image)
          _ result h₇ in
      let (state, _, h₉) =
        ok_of_bind (m.prefill (tokens_before m.impl ids) visual (tokens_after m.impl ids)) _ result
          h₈ in
      let slots =
        render-SlotsFor m.libc request.state request.question request.options (has_image request)
          request.chat_template_file (has_value m.impl.chat_template) rendered made in
      let (counted, distinct) =
        answer_tokens_of_sound m.impl rendered.text [] rendered.answer_slots answers asked in
      let (decision, same) =
        make_result-IsDecision m rendered ids answers visual state request.options result law slots
          counted distinct h₉ in
      let (in_context, in_budget) =
        check_position_budget-le (length ids) m.context_length v within in
      let count = check_image_tokens-count m.impl (has_image request) ids w imaged in
      (decision, rw same in_context, rw same in_budget, rw same count)
