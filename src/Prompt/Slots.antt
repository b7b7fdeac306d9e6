-- ===== src/Prompt/Slots.antt =====
-- `render` of src/gemma4_prompt_renderer.cpp returns a prompt for every request within the limits.
use branchscore.Base.{
  ℕ, zero, suc, ◌+◌, ◌≤◌, ◌<◌, ◌≡◌, refl, Bool, true, false, ◌||◌, String, Option, none, some, List,
  [], ◌∷◌, Bytes, codes, ltb, ◌==◌, length, get_elem?, arith,
}
use branchscore.Decision.{
  DecisionOption, legacy_decision_options, min_decision_options, max_decision_options,
}
use branchscore.Double.{Libc}
use branchscore.Json.Printer.{stringify}
use branchscore.Json.Render.{stringify-render}
use branchscore.Json.Value.{Items, array, no_fields}
use branchscore.Json.WellFormed.{IsWellFormed, WellFormedItems, emplace-WellFormed}
use branchscore.Prompt.Labels.{gemma4_extended_answer_labels}
use branchscore.Prompt.Render.{
  answer_label, RenderedAnswerSlot, RenderedPrompt, rendered_option, render_options, render,
}
use branchscore.Result.{Exception, ok, throw, out_of_range, Outcome, Outcome-bind}

-- A slot for each option, in order, with the option's place and id.
abbrev pub SlotsFor : ℕ → List DecisionOption → List RenderedAnswerSlot → Type 0
SlotsFor index [] [] = Unit
SlotsFor index (o ∷ os) (s ∷ ss) =
    (s.input_index ≡ index) × (s.option_id ≡ o.id) × SlotsFor (suc index) os ss
SlotsFor index _ _ = ⊥

abbrev Never : Exception → Type 0
Never e = ⊥

abbrev Any {ℓ} : {A : Type ℓ} → A → Type 0
Any a = Unit

-- An index within a list has an element.
get_elem?-Outcome :
    (xs : List String) (i : ℕ)
    → i < length xs
    → Outcome Any Never
        (elim (get_elem? xs i) [ none ↦ throw out_of_range | some label ↦ ok (codes label) ])
get_elem?-Outcome [] i h = absurd (omega arith)
get_elem?-Outcome (x ∷ xs) zero h = tt
get_elem?-Outcome (x ∷ xs) (suc i) h = get_elem?-Outcome xs i (omega (arith, h))

answer_label-Outcome :
    (index : ℕ) (extended : Bool) → index < 512 → Outcome Any Never (answer_label index extended)
unfolding answer_label
answer_label-Outcome index false h = tt
answer_label-Outcome index true h = get_elem?-Outcome gemma4_extended_answer_labels index h

abbrev GoodParts : ℕ → List DecisionOption → Items × List RenderedAnswerSlot → Type 0
GoodParts index options (items, slots) = WellFormedItems items × SlotsFor index options slots

rendered_option-IsWellFormed :
    (label description : Bytes) → IsWellFormed (rendered_option label description)
unfolding rendered_option
rendered_option-IsWellFormed label description =
    emplace-WellFormed (codes "description") _ _ tt
      (emplace-WellFormed (codes "letter") _ no_fields tt tt)

render_options-Outcome :
    (extended : Bool) (index : ℕ) (options : List DecisionOption)
    → index + length options ≤ 512
    → Outcome (GoodParts index options) Never (render_options extended index options)
unfolding render_options
render_options-Outcome extended index [] h = (tt, tt)
render_options-Outcome extended index (o ∷ os) h =
    Outcome-bind Any (GoodParts index (o ∷ os)) Never _ _
      (answer_label-Outcome index extended (omega (arith, h)))
      λ label _.
        Outcome-bind (GoodParts (suc index) os) (GoodParts index (o ∷ os)) Never _ _
          (render_options-Outcome extended (suc index) os (omega (arith, h)))
          λ (items, slots) g.
            ((rendered_option-IsWellFormed label o.description, g.0), (refl, refl, g.1))

stringify-Outcome :
    (libc : Libc) (items : Items)
    → WellFormedItems items
    → Outcome Any Never (stringify libc (array items))
stringify-Outcome libc items w = rw (stringify-render libc (array items) w) tt

-- For a state and a question that are not empty and 2 to 512 options, `render` returns a prompt, with
-- an answer slot for each option in order, which holds the option's index and id.
pub render-Outcome :
    (libc : Libc) (state question : Bytes) (options : List DecisionOption) (has_image : Bool)
    (template : Option Bytes) (gguf : Bool)
    → (length state == 0) ≡ false
    → (length question == 0) ≡ false
    → min_decision_options ≤ length options
    → length options ≤ max_decision_options
    → Outcome
        (λ prompt. SlotsFor 0 options prompt.answer_slots)
        (λ e. ⊥)
        (render libc state question options has_image template gguf)
unfolding render
render-Outcome libc state question options has_image template gguf hs hq few many =
    let P : RenderedPrompt → Type 0 = λ prompt. SlotsFor 0 options prompt.answer_slots in
    let in_limits : (ltb (length options) min_decision_options
          || ltb max_decision_options (length options))
        ≡ false =
      ground arith in
    rw (hs, hq, in_limits)
      (Outcome-bind (GoodParts 0 options) P Never _ _
        (render_options-Outcome (ltb legacy_decision_options (length options)) 0 options
          (omega arith))
        λ (items, slots) g.
          Outcome-bind Any P Never _ _ (stringify-Outcome libc items g.0) λ encoded _. g.1)
