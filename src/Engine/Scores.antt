-- ===== src/Engine/Scores.antt =====
-- The scores that `evaluate` of src/gemma4_decision_engine.cpp makes.
use branchscore.Base.{
  ℕ, zero, suc, ◌+◌, ◌≡◌, refl, subst, some, List, [], ◌∷◌, length, get_elem?, arith,
}
use branchscore.Decision.{DecisionOption, OptionScore, TokenId}
use branchscore.Double.{Double}
use branchscore.Engine.Evaluate.{ids_of, option_scores_of}
use branchscore.Prompt.Render.{RenderedAnswerSlot}
use branchscore.Prompt.Slots.{SlotsFor}
use branchscore.Readout.Float.{Float}
use branchscore.Readout.Summary.{Arithmetic}
use branchscore.Tokenizer.AnswerLabel.{AnswerToken}

-- A score for each option, in order: its place, its id, and the score and the token that it is made of.
pub data ScoresFor (a : Arithmetic)
    : ℕ → List DecisionOption → List TokenId → List Float → List OptionScore → Type 0 where
  no_scores : (i : ℕ) → ScoresFor a i [] [] [] []
  score_of :
      (i : ℕ) (option : DecisionOption) (id : TokenId) (raw : Float) (score : OptionScore)
      (options : List DecisionOption) (ids : List TokenId) (raws : List Float)
      (scores : List OptionScore)
      → score.input_index ≡ i
      → score.option_id ≡ option.id
      → score.answer_token_id ≡ id
      → score.raw_score ≡ a.widen raw
      → ScoresFor a (suc i) options ids raws scores
      → ScoresFor a i (option ∷ options) (id ∷ ids) (raw ∷ raws) (score ∷ scores)

pub option_scores_of-ScoresFor :
    (a : Arithmetic) (i : ℕ) (options : List DecisionOption) (slots : List RenderedAnswerSlot)
    (answers : List AnswerToken) (raws : List Float) (ps : List Double)
    → SlotsFor i options slots
    → length answers ≡ length slots
    → length raws ≡ length slots
    → length ps ≡ length slots
    → ScoresFor a i options (ids_of answers) raws (option_scores_of a slots answers raws ps)
unfolding option_scores_of ids_of
option_scores_of-ScoresFor a i [] [] [] [] ps s g r p = no_scores i
option_scores_of-ScoresFor a i (o ∷ os) (slot ∷ slots) (answer ∷ answers) (raw ∷ raws) (q ∷ ps) s g
      r p =
    score_of i o answer.id raw _ os (ids_of answers) raws _ s.0 s.1 refl refl (
      option_scores_of-ScoresFor a (suc i) os slots answers raws ps s.2 (omega (arith, g))
        (omega (arith, r)) (omega (arith, p)))
option_scores_of-ScoresFor a i [] [] (x ∷ xs) raws ps s g r p = absurd (omega (arith, g))
option_scores_of-ScoresFor a i [] [] [] (x ∷ xs) ps s g r p = absurd (omega (arith, r))
option_scores_of-ScoresFor a i [] (x ∷ xs) answers raws ps s g r p = absurd s
option_scores_of-ScoresFor a i (o ∷ os) [] answers raws ps s g r p = absurd s
option_scores_of-ScoresFor a i (o ∷ os) (x ∷ xs) [] raws ps s g r p = absurd (omega (arith, g))
option_scores_of-ScoresFor a i (o ∷ os) (x ∷ xs) (y ∷ ys) [] ps s g r p = absurd (omega (arith, r))
option_scores_of-ScoresFor a i (o ∷ os) (x ∷ xs) (y ∷ ys) (z ∷ zs) [] s g r p =
    absurd (omega (arith, p))

-- The place and the option of a score
pub record Stands (options : List DecisionOption) (i k : ℕ) (score : OptionScore) : Type 0 where
  pub option : DecisionOption
  pub index : score.input_index ≡ i + k
  pub at_place : get_elem? options k ≡ some option
  pub same_id : score.option_id ≡ option.id

pub ScoresFor-Stands :
    {a : Arithmetic} (k : ℕ) {i : ℕ} {options : List DecisionOption} {ids : List TokenId}
    {raws : List Float} {scores : List OptionScore} {score : OptionScore}
    → ScoresFor a i options ids raws scores
    → get_elem? scores k ≡ some score
    → Stands options i k score
ScoresFor-Stands k (no_scores i) e = absurd (cc)
ScoresFor-Stands zero (score_of i o id raw s os ids raws ss p q t r rest) e =
    subst (Stands (o ∷ os) i 0) (score-injective e)
      (record { option = o; index = omega (arith, p); at_place = refl; same_id = q })
  where
    score-injective : {x y : OptionScore} → some x ≡ some y → x ≡ y
    score-injective h = cc
ScoresFor-Stands (suc k) (score_of i o id raw s os ids raws ss p q t r rest) e =
    let there = ScoresFor-Stands k rest e in
    record {
      option = there.option;
      index = omega (arith, there.index);
      at_place = there.at_place;
      same_id = there.same_id;
    }
