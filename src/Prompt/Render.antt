-- ===== src/Prompt/Render.antt =====
-- `prompt_identity`, `answer_label` and `Gemma4PromptRenderer` of src/gemma4_prompt_renderer.cpp.
use branchscore.Base.{
  ℕ, suc, ◌+◌, Bool, true, false, ◌||◌, Option, none, some, List, [], ◌∷◌, ◌++◌, Bytes, codes, ltb,
  leb, ◌==◌, if◌then◌else◌, length, get_elem?,
}
use branchscore.Decision.{
  DecisionOption, PromptFormatInfo, legacy_decision_options, min_decision_options,
  max_decision_options,
}
use branchscore.Double.{Libc}
use branchscore.Json.Printer.{stringify}
use branchscore.Json.Value.{Value, Items, string, array, object, no_items, item, no_fields, emplace}
use branchscore.Prompt.Labels.{gemma4_extended_answer_labels}
use branchscore.Prompt.Sha256.{initial, update, finish}
use branchscore.Result.{Result, ok, throw, out_of_range, runtime_error, throw_if, ◌>>=◌, ◌>>◌}

unfoldable pub prompt_identity : Bytes → Bytes → Bytes
prompt_identity text renderer = renderer ++ codes "/sha256:" ++ finish (update initial text)

unfoldable pub answer_label : ℕ → Bool → Result Bytes
answer_label index true = elim (get_elem? gemma4_extended_answer_labels index) [
  | none ↦ throw out_of_range
  | some label ↦ ok (codes label)
]
answer_label index false = ok ((b'A' + index) ∷ [])

unfoldable pub renderer_id : ℕ → Bytes
renderer_id option_count =
    if leb option_count legacy_decision_options
    then codes "gemma4-categorical-v1"
    else codes "gemma4-categorical-512-v1"

pub record RenderedAnswerSlot : Type 0 where
  pub label : Bytes
  pub input_index : ℕ
  pub option_id : Bytes

pub record RenderedPrompt : Type 0 where
  pub text : Bytes
  pub format : PromptFormatInfo
  pub identity : Bytes
  pub answer_slots : List RenderedAnswerSlot

unfoldable pub rendered_option : Bytes → Bytes → Value
rendered_option label description = object (
    emplace (codes "description") (string description)
      (emplace (codes "letter") (string label) no_fields))

-- The loop over the options, from `index` on.
unfoldable pub render_options :
    Bool → ℕ → List DecisionOption → Result (Items × List RenderedAnswerSlot)
render_options extended index [] = ok (no_items, [])
render_options extended index (option ∷ options) = do
  label ← answer_label index extended
  (items, slots) ← render_options extended (suc index) options
  ok (
    item (rendered_option label option.description) items,
    record { label = label; input_index = index; option_id = option.id } ∷ slots,
  )

abbrev pub line : Bytes
line = 10 ∷ []

-- The text before the options.
unfoldable pub preamble : Bytes → Bytes → Bool → Bool → Bytes
preamble state question extended has_image =
    codes "<bos><|turn>system"
    ++ line
    ++ codes
        "Apply the supplied criterion to the supplied evidence. Choose exactly one listed option. Respond with only its uppercase "
    ++ (if extended then codes "label" else codes "letter")
    ++ codes ", with no explanation or reasoning."
    ++ codes "<turn|>"
    ++ line
    ++ codes "<|turn>user"
    ++ line
    ++ (if has_image then codes "<|image><|image|><image|>" ++ line else [])
    ++ codes "State:"
    ++ line
    ++ state
    ++ line
    ++ line
    ++ codes "Question:"
    ++ line
    ++ question
    ++ line
    ++ line
    ++ codes "Options:"
    ++ line

unfoldable pub render :
    Libc → Bytes → Bytes → List DecisionOption → Bool → Option Bytes → Bool → Result RenderedPrompt
render libc state question options has_image requested_template_file gguf_chat_template_present = do
  throw_if (length state == 0) runtime_error
  throw_if (length question == 0) runtime_error
  throw_if (ltb (length options) min_decision_options || ltb max_decision_options (length options))
      runtime_error
  let extended = ltb legacy_decision_options (length options)
  (items, slots) ← render_options extended 0 options
  encoded ← stringify libc (array items)
  let text =
      preamble state question extended has_image
      ++ encoded
      ++ codes "<turn|>"
      ++ line
      ++ codes "<|turn>model"
      ++ line
  ok (record {
    text = text;
    format = record {
      renderer_id = renderer_id (length options);
      model_family = codes "gemma4";
      effective_source = codes "built-in";
      requested_template_file = requested_template_file;
      requested_template_applied = false;
      gguf_chat_template_present = gguf_chat_template_present;
      gguf_chat_template_used = false;
    };
    identity = prompt_identity text (renderer_id (length options));
    answer_slots = slots;
  })
