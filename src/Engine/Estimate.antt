-- ===== src/Engine/Estimate.antt =====
-- The estimate of src/gemma4_decision_engine.cpp, and the prompt that is evaluated later.
use branchscore.Base.{
  ◌+◌, ◌%◌, ◌^◌, ◌≤◌, ◌≡◌, ◌⊎◌, inl, inr, ℕ, suc, Bool, ◌&&◌, Option, none, some, refl, sym, subst,
  ◌∙◌, ap, false, true, List, [], ◌∷◌, ◌++◌, codes, length, get_elem?, take, drop, if◌then◌else◌,
  arith,
}
use branchscore.Decision.{
  DecisionRequest, DecisionResult, TokenId, has_image, has_value, max_prefill_positions,
}
use branchscore.Engine.Around.{
  split_at_index_of, with_visual-around, validate_request-one_image, CountsAgree,
  estimate_visual-prepare_image,
}
use branchscore.Engine.Evaluate.{
  Machine, render_request, positions_of, estimate_prefill_positions, check_image_tokens, index_of,
  image_count, with_visual, estimate_visual, answer_tokens_of, ids_of, prepare_image, encode_image,
  make_result, option_scores_of, selected_score, tokens_before, tokens_after, evaluate,
}
use branchscore.Engine.Checks.{check_position_budget-le, check_image_tokens-count}
use branchscore.Engine.Validate.{validate_request, check_position_budget}
use branchscore.Prompt.Render.{RenderedPrompt}
use branchscore.Readout.Summary.{gather_categorical_logits, summarize_categorical}
use branchscore.Result.{ok, ok_of_bind, ok-injective, ◌>>=◌}
use branchscore.Tokenizer.AnswerLabel.{AnswerToken}
use branchscore.Tokenizer.Segments.{tokenize}
use branchscore.Tokenizer.Vocabulary.{find_token}

module _ {Image Visual State : Type 0} (m : Machine Image Visual State)
    (request : DecisionRequest) where
  -- The tokens of the request's prompt
  record IsPrompt (ids : List TokenId) : Type 0 where
    rendered : RenderedPrompt
    made : render_request m request ≡ ok rendered
    cut : tokenize m.impl rendered.text false true ≡ ok ids

  IsPrompt-unique : (ids others : List TokenId) → IsPrompt ids → IsPrompt others → ids ≡ others
  IsPrompt-unique ids others p q =
      let same : p.rendered ≡ q.rendered = ok-injective (sym p.made ∙ q.made) in
      ok-injective (sym p.cut ∙ ap (λ r. tokenize m.impl r.text false true) same ∙ q.cut)

  make_result-ids :
      (rendered : RenderedPrompt) (ids : List TokenId) (answers : List AnswerToken)
      (visual : Option Visual) (state : State) (result : DecisionResult)
      → make_result m rendered ids answers visual state ≡ ok result
      → ids ≡ result.rendered_prompt_token_ids
  unfolding make_result
  make_result-ids rendered ids answers visual state result h =
      let (raws, _, h₁) =
        ok_of_bind (gather_categorical_logits (m.logits state) (ids_of answers)) _ result h in
      let (summary, _, h₂) = ok_of_bind (summarize_categorical m.arithmetic raws) _ result h₁ in
      let scores =
        option_scores_of m.arithmetic rendered.answer_slots answers raws
          summary.relative_probabilities in
      let (selected, _, h₃) =
        ok_of_bind (selected_score (get_elem? scores summary.selected_index)) _ result h₂ in
      ap (λ r. r.rendered_prompt_token_ids) (ok-injective h₃)

  -- What the evaluation of a request has found when it returns
  record IsEvaluated (ids : List TokenId) : Type 0 where
    prompt : IsPrompt ids
    one_image : (has_value request.image_path && has_value request.image_bytes) ≡ false
    counted :
        image_count (find_token m.impl (codes "<|image|>")) ids
        ≡ (if has_image request then 1 else 0)
    prepared : Option Image
    prepares : prepare_image m request.image_path request.image_bytes ≡ ok prepared

  evaluate-IsEvaluated :
      (result : DecisionResult)
      → evaluate m request ≡ ok result
      → IsEvaluated result.rendered_prompt_token_ids
  unfolding evaluate
  evaluate-IsEvaluated result h =
      let (u, valid, h₁) = ok_of_bind (validate_request request) _ result h in
      let (rendered, made, h₂) = ok_of_bind (render_request m request) _ result h₁ in
      let (ids, cut, h₃) = ok_of_bind (tokenize m.impl rendered.text false true) _ result h₂ in
      let (v, _, h₄) =
        ok_of_bind (check_position_budget (length ids) m.context_length) _ result h₃ in
      let (w, checked, h₅) =
        ok_of_bind (check_image_tokens m.impl (has_image request) ids) _ result h₄ in
      let (answers, _, h₆) =
        ok_of_bind (answer_tokens_of m.impl rendered.text [] rendered.answer_slots) _ result h₅ in
      let (image, prepares, h₇) =
        ok_of_bind (prepare_image m request.image_path request.image_bytes) _ result h₆ in
      let around = length (tokens_before m.impl ids) + length (tokens_after m.impl ids) in
      let (visual, _, h₈) = ok_of_bind (encode_image m around image) _ result h₇ in
      let (state, _, h₉) =
        ok_of_bind (m.prefill (tokens_before m.impl ids) visual (tokens_after m.impl ids)) _ result
          h₈ in
      subst IsEvaluated (make_result-ids rendered ids answers visual state result h₉) (record {
        prompt = record { rendered = rendered; made = made; cut = cut };
        one_image = validate_request-one_image request u valid;
        counted = check_image_tokens-count m.impl (has_image request) ids w checked;
        prepared = image;
        prepares = prepares;
      })

  -- The number of positions of a prompt: its tokens, where the image's counts as the visual tokens of
  -- the image that is prepared for the request.
  pub data IsPositions (ids : List TokenId) (n : ℕ) : Type 0 where
    text_only : has_image request ≡ false → n ≡ length ids → IsPositions ids n
    with_image :
        (image : Image) (count : ℕ) (id : TokenId) (before after : List TokenId)
        → prepare_image m request.image_path request.image_bytes ≡ ok (some image)
        → m.visual_token_count image ≡ ok count
        → find_token m.impl (codes "<|image|>") ≡ some id
        → ids ≡ before ++ id ∷ after
        → n ≡ (length before + length after + count) % 2 ^ 64
        → IsPositions ids n

  -- The one token of the image, and the tokens around it
  around_image :
      (found : Option TokenId) (ids : List TokenId)
      → image_count found ids ≡ 1
      → (id : TokenId) × (before : List TokenId) × (after : List TokenId) × (found ≡ some id)
        × (ids ≡ before ++ id ∷ after)
  around_image none ids h = absurd (omega (arith, h))
  around_image (some id) ids h = (
    id,
    take (index_of id ids) ids,
    drop (suc (index_of id ids)) ids,
    refl,
    split_at_index_of id ids (omega (arith, h)),
  )

  positions_of-cases :
      (count n : ℕ)
      → positions_of m request count ≡ ok n
      → ((has_image request ≡ false) × (n ≡ count))
        ⊎ ((has_image request ≡ true)
            × ((visual : ℕ) × (estimate_visual m request.image_bytes request.image_path ≡ ok visual)
                × (with_visual count visual ≡ n)))
  unfolding positions_of
  positions_of-cases count n h = by_image (has_image request) refl h
    where
      by_image :
          (b : Bool)
          → has_image request ≡ b
          → (if b
              then (estimate_visual m request.image_bytes request.image_path >>= λ visual.
                  ok (with_visual count visual))
              else ok count)
            ≡ ok n
          → ((has_image request ≡ false) × (n ≡ count))
            ⊎ ((has_image request ≡ true)
                × ((visual : ℕ) × (estimate_visual m request.image_bytes request.image_path
                      ≡ ok visual)
                    × (with_visual count visual ≡ n)))
      by_image true e g =
          let (visual, estimated, done) =
            ok_of_bind (estimate_visual m request.image_bytes request.image_path) _ n g in
          inr (e, (visual, estimated, ok-injective done))
      by_image false e g = inl (e, sym (ok-injective g))

  positions_of-IsPositions :
      (ids : List TokenId) (n : ℕ)
      → CountsAgree m
      → IsEvaluated ids
      → positions_of m request (length ids) ≡ ok n
      → IsPositions ids n
  positions_of-IsPositions ids n agree run h = elim (positions_of-cases (length ids) n h) [
    | inl (no_image, same) ↦ text_only no_image same
    | inr (there, (visual, estimated, same)) ↦
        let counted = run.counted in
        let one : image_count (find_token m.impl (codes "<|image|>")) ids ≡ 1 =
          run.counted ∙ ap (λ b. if b then 1 else 0) there in
        let (id, before, after, found, split) =
          around_image (find_token m.impl (codes "<|image|>")) ids one in
        let (image, is_image, count) =
          estimate_visual-prepare_image m request.image_path request.image_bytes visual run.prepared
            agree run.one_image there estimated run.prepares in
        with_image image visual id before after (run.prepares ∙ ap ok is_image) count found split
          (sym same ∙ with_visual-around before after ids id visual split)
  ]

  -- If the header of an encoded image and the decoded image give one number of visual tokens, and the
  -- estimate and the evaluation of a request both return, then the estimate is the number of positions
  -- of the prompt that was evaluated: without an image the number of its tokens, else the tokens before
  -- and behind the image's token and the visual tokens of the image that the evaluation prepared; and
  -- it is within the limits.
  pub estimate_prefill_positions-evaluate :
      (n : ℕ) (result : DecisionResult)
      → CountsAgree m
      → estimate_prefill_positions m request ≡ ok n
      → evaluate m request ≡ ok result
      → IsPositions result.rendered_prompt_token_ids n
        × (n ≤ m.context_length)
        × (n ≤ max_prefill_positions)
  unfolding estimate_prefill_positions
  estimate_prefill_positions-evaluate n result agree h g =
      let (u, _, h₁) = ok_of_bind (validate_request request) _ n h in
      let (rendered, made, h₂) = ok_of_bind (render_request m request) _ n h₁ in
      let (ids, cut, h₃) = ok_of_bind (tokenize m.impl rendered.text false true) _ n h₂ in
      let (positions, counted, h₄) = ok_of_bind (positions_of m request (length ids)) _ n h₃ in
      let (v, within, h₅) = ok_of_bind (check_position_budget positions m.context_length) _ n h₄ in
      let same : positions ≡ n = ok-injective h₅ in
      let run = evaluate-IsEvaluated result g in
      let prompt : IsPrompt ids = record { rendered = rendered; made = made; cut = cut } in
      let one = IsPrompt-unique ids result.rendered_prompt_token_ids prompt run.prompt in
      let (in_context, in_budget) = check_position_budget-le positions m.context_length v within in
      (
        positions_of-IsPositions result.rendered_prompt_token_ids n agree run
            (ap (λ is. positions_of m request (length is)) (sym one) ∙ counted ∙ ap ok same),
        subst (λ k. k ≤ m.context_length) same in_context,
        subst (λ k. k ≤ max_prefill_positions) same in_budget,
      )
