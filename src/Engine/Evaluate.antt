-- ===== src/Engine/Evaluate.antt =====
-- `estimate_prefill_positions` and `evaluate` of src/gemma4_decision_engine.cpp.
use branchscore.Base.{
  ℕ, suc, ◌+◌, ◌%◌, ◌^◌, Bool, true, false, not, ◌&&◌, ◌||◌, Option, none, some, List, [], ◌∷◌,
  Bytes, codes, ◌==◌, leb, if◌then◌else◌, length, get_elem?, take, drop,
}
use branchscore.Base.Words.{sub64}
use branchscore.Decision.{
  DecisionRequest, DecisionResult, OptionScore, TimingInfo, TokenId, has_image, has_value,
}
use branchscore.Double.{Double, Libc}
use branchscore.Engine.Validate.{validate_request, check_position_budget}
use branchscore.Image.Inspect.{StbiInfo, EncodedImageInfo, inspect_encoded}
use branchscore.Prompt.Render.{RenderedAnswerSlot, RenderedPrompt, render}
use branchscore.Readout.Float.{Float}
use branchscore.Readout.Summary.{
  Arithmetic, Logits, gather_categorical_logits, summarize_categorical,
}
use branchscore.Result.{Result, ok, throw, runtime_error, out_of_range, throw_if, ◌>>=◌, ◌>>◌}
use branchscore.Tokenizer.AnswerLabel.{AnswerToken, tokenize_answer_label}
use branchscore.Tokenizer.Segments.{tokenize}
use branchscore.Tokenizer.Vocabulary.{Impl, find_token}

-- What the engine asks of the model, the image preprocessor, the vision encoder and the Prefill
-- engine. `timings` is what it reads off the clock and the two states; nothing depends on it.
pub record Machine (Image Visual State : Type 0) : Type 0 where
  pub impl : Impl
  pub libc : Libc
  pub stbi_info : StbiInfo
  pub context_length : ℕ
  pub estimate_visual_token_count : EncodedImageInfo → Result ℕ
  pub load : Bytes → Result Image
  pub load_encoded : Bytes → Result Image
  pub visual_token_count : Image → Result ℕ
  pub encode : Image → Result Visual
  pub prefill : List TokenId → Option Visual → List TokenId → Result State
  pub logits : State → Logits
  pub arithmetic : Arithmetic
  pub timings : Option Visual → State → TimingInfo

-- `std::count`
unfoldable pub count_id : TokenId → List TokenId → ℕ
count_id id [] = 0
count_id id (i ∷ is) = let rest = count_id id is in if i == id then suc rest else rest

-- `std::find`: the index of the first occurrence, or the length.
unfoldable pub index_of : TokenId → List TokenId → ℕ
index_of id [] = 0
index_of id (i ∷ is) = let rest = index_of id is in if i == id then 0 else suc rest

abbrev pub image_count : Option TokenId → List TokenId → ℕ
image_count none ids = 0
image_count (some id) ids = count_id id ids

abbrev pub image_index : Option TokenId → List TokenId → ℕ
image_index none ids = length ids
image_index (some id) ids = index_of id ids

-- Whether there is this token at an index.
abbrev pub is_token : Option TokenId → Option TokenId → Bool
is_token (some a) (some b) = a == b
is_token _ _ = false

-- The tokens around the image's: `image_index - 1` is only read where the index is not 0.
unfoldable pub has_boundaries : Impl → List TokenId → ℕ → Bool
has_boundaries impl ids index =
    not (index == 0)
    && not (leb (length ids) (index + 1))
    && is_token (get_elem? ids (sub64 index 1)) (find_token impl (codes "<|image>"))
    && is_token (get_elem? ids (index + 1)) (find_token impl (codes "<image|>"))

-- The checks on the image's token
unfoldable pub check_image_tokens : Impl → Bool → List TokenId → Result (Unit {0})
check_image_tokens impl with_image ids =
    let image_id = find_token impl (codes "<|image|>") in
    let count = image_count image_id ids in
    throw_if (with_image && not (count == 1)) runtime_error
    >> (throw_if (not with_image && not (count == 0)) runtime_error
        >> throw_if (with_image && not (has_boundaries impl ids (image_index image_id ids)))
            runtime_error)

unfoldable pub contains : TokenId → List TokenId → Bool
contains id [] = false
contains id (i ∷ is) = i == id || contains id is

-- The loop over the answer slots, with the ids inserted so far
unfoldable pub answer_tokens_of :
    Impl → Bytes → List TokenId → List RenderedAnswerSlot → Result (List AnswerToken)
answer_tokens_of impl text ids [] = ok []
answer_tokens_of impl text ids (slot ∷ slots) =
    tokenize_answer_label impl text slot.label >>= λ answer.
    throw_if (not answer.boundary_valid || contains answer.id ids) runtime_error
    >> (answer_tokens_of impl text (answer.id ∷ ids) slots >>= λ answers. ok (answer ∷ answers))

unfoldable pub ids_of : List AnswerToken → List TokenId
ids_of [] = []
ids_of (answer ∷ answers) = answer.id ∷ ids_of answers

-- The loop that makes the scores: the four vectors have one length.
unfoldable pub option_scores_of :
    Arithmetic
    → List RenderedAnswerSlot
    → List AnswerToken
    → List Float
    → List Double
    → List OptionScore
option_scores_of a (slot ∷ slots) (answer ∷ answers) (raw ∷ raws) (p ∷ ps) =
    record {
      input_index = slot.input_index;
      option_id = slot.option_id;
      answer_label = slot.label;
      answer_token_id = answer.id;
      raw_score = a.widen raw;
      relative_probability = p;
    }
    ∷ option_scores_of a slots answers raws ps
option_scores_of a _ _ _ _ = []

-- `option_scores[selected_index]`, which is inside of the vector.
unfoldable pub selected_score : Option OptionScore → Result OptionScore
selected_score none = throw out_of_range
selected_score (some score) = ok score

-- `positions - 1 + visual` on `std::size_t`
abbrev pub with_visual : ℕ → ℕ → ℕ
with_visual positions visual = (sub64 positions 1 + visual) % 2 ^ 64

-- The tokens before the image's, and those behind it
abbrev pub tokens_before : Impl → List TokenId → List TokenId
tokens_before impl ids = take (image_index (find_token impl (codes "<|image|>")) ids) ids

abbrev pub tokens_after : Impl → List TokenId → List TokenId
tokens_after impl ids = drop (suc (image_index (find_token impl (codes "<|image|>")) ids)) ids

module _ {Image Visual State : Type 0} where
  unfoldable pub render_request :
      Machine Image Visual State → DecisionRequest → Result RenderedPrompt
  render_request m request =
      render m.libc request.state request.question request.options (has_image request)
        request.chat_template_file (has_value m.impl.chat_template)

  -- The visual tokens of a request with an image: of its bytes, else of its path.
  unfoldable pub estimate_visual :
      Machine Image Visual State → Option Bytes → Option Bytes → Result ℕ
  estimate_visual m (some bytes) path =
      inspect_encoded m.stbi_info bytes >>= λ info. m.estimate_visual_token_count info
  estimate_visual m none (some path) = m.load path >>= λ image. m.visual_token_count image
  estimate_visual m none none = ok 0

  -- The positions of so many tokens, one of which stands for the image
  unfoldable pub positions_of : Machine Image Visual State → DecisionRequest → ℕ → Result ℕ
  positions_of m request count =
      if has_image request
      then (estimate_visual m request.image_bytes request.image_path >>= λ visual.
          ok (with_visual count visual))
      else ok count

  unfoldable pub estimate_prefill_positions :
      Machine Image Visual State → DecisionRequest → Result ℕ
  estimate_prefill_positions m request =
      validate_request request
      >> (render_request m request >>= λ rendered.
          tokenize m.impl rendered.text false true >>= λ ids.
          positions_of m request (length ids) >>= λ positions.
          check_position_budget positions m.context_length >> ok positions)

  -- The image of a request, of its path, else of its bytes
  unfoldable pub prepare_image :
      Machine Image Visual State → Option Bytes → Option Bytes → Result (Option Image)
  prepare_image m (some path) bytes = m.load path >>= λ image. ok (some image)
  prepare_image m none (some bytes) = m.load_encoded bytes >>= λ image. ok (some image)
  prepare_image m none none = ok none

  -- What is done with the image, for `text_positions` tokens around it
  unfoldable pub encode_image :
      Machine Image Visual State → ℕ → Option Image → Result (Option Visual)
  encode_image m text_positions none = ok none
  encode_image m text_positions (some image) = m.visual_token_count image >>= λ visual.
      check_position_budget ((text_positions + visual) % 2 ^ 64) m.context_length
      >> (m.encode image >>= λ tokens. ok (some tokens))

  -- From the readout to the result
  unfoldable pub make_result :
      Machine Image Visual State
      → RenderedPrompt
      → List TokenId
      → List AnswerToken
      → Option Visual
      → State
      → Result DecisionResult
  make_result m rendered all_ids answers visual state =
      gather_categorical_logits (m.logits state) (ids_of answers) >>= λ raw_scores.
      summarize_categorical m.arithmetic raw_scores >>= λ summary.
      (let scores =
          option_scores_of m.arithmetic rendered.answer_slots answers raw_scores
            summary.relative_probabilities in
        selected_score (get_elem? scores summary.selected_index) >>= λ selected. ok (record {
          option_scores = scores;
          selected_index = selected.input_index;
          selected_id = selected.option_id;
          exact_tie = summary.exact_tie;
          scoring_basis = codes "answer_slot_logit";
          readout_id = codes "gemma4-next-token-categorical-v1";
          prompt_format = rendered.format;
          rendered_prompt_identity = rendered.identity;
          rendered_prompt_token_ids = all_ids;
          timings = m.timings visual state;
        }))

  unfoldable pub evaluate : Machine Image Visual State → DecisionRequest → Result DecisionResult
  evaluate m request =
      validate_request request
      >> (render_request m request >>= λ rendered.
          tokenize m.impl rendered.text false true >>= λ ids.
          check_position_budget (length ids) m.context_length
          >> (check_image_tokens m.impl (has_image request) ids
              >> (answer_tokens_of m.impl rendered.text [] rendered.answer_slots >>= λ answers.
                  prepare_image m request.image_path request.image_bytes >>= λ image.
                  encode_image m
                    (length (tokens_before m.impl ids) + length (tokens_after m.impl ids)) image
                  >>= λ visual.
                      m.prefill (tokens_before m.impl ids) visual (tokens_after m.impl ids)
                      >>= λ state. make_result m rendered ids answers visual state)))
