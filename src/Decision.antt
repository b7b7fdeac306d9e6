-- ===== src/Decision.antt =====
-- include/branchscore/decision.hpp and decision_limits.hpp: requests, results and limits.
use branchscore.Base.{ℕ, Bool, false, true, Option, none, some, List, Bytes, ◌||◌}
use branchscore.Double.{Double}

abbrev pub min_decision_options : ℕ
min_decision_options = 2

abbrev pub legacy_decision_options : ℕ
legacy_decision_options = 16

abbrev pub max_decision_options : ℕ
max_decision_options = 512

abbrev pub max_prefill_positions : ℕ
max_prefill_positions = 16384

abbrev pub max_request_prefill_positions : ℕ
max_request_prefill_positions = 32768

pub record DecisionOption : Type 0 where
  pub id : Bytes
  pub description : Bytes

pub data ReasoningPolicy : Type 0 where
  direct_answer_disabled : ReasoningPolicy

-- The image's bytes are shared by pointer, and never written.
pub record DecisionRequest : Type 0 where
  pub state : Bytes
  pub question : Bytes
  pub options : List DecisionOption
  pub image_path : Option Bytes
  pub image_bytes : Option Bytes
  pub reasoning : ReasoningPolicy
  pub chat_template_file : Option Bytes
  pub capture_vision_debug : Bool

abbrev pub has_value {ℓ} : {A : Type ℓ} → Option A → Bool
has_value none = false
has_value (some a) = true

abbrev pub has_image : DecisionRequest → Bool
has_image r = has_value r.image_path || has_value r.image_bytes

-- A token id is an `int32_t`; the ones of the program are not negative.
abbrev pub TokenId : Type 0
TokenId = ℕ

pub record OptionScore : Type 0 where
  pub input_index : ℕ
  pub option_id : Bytes
  pub answer_label : Bytes
  pub answer_token_id : TokenId
  pub raw_score : Double
  pub relative_probability : Double

pub record PromptFormatInfo : Type 0 where
  pub renderer_id : Bytes
  pub model_family : Bytes
  pub effective_source : Bytes
  pub requested_template_file : Option Bytes
  pub requested_template_applied : Bool
  pub gguf_chat_template_present : Bool
  pub gguf_chat_template_used : Bool

pub record TimingInfo : Type 0 where
  pub prompt_rendering_ms : Double
  pub tokenization_ms : Double
  pub image_preprocessing_ms : Double
  pub vision_ms : Double
  pub vision_backend_copy_ms : Double
  pub vision_synchronization_ms : Double
  pub vision_graph_node_count : ℕ
  pub vision_attention_path : Bytes
  pub prefill_ms : Double
  pub prefill_backend_copy_ms : Double
  pub prefill_synchronization_ms : Double
  pub prefill_graph_node_count : ℕ
  pub prefill_attention_path : Bytes
  pub prefill_kv_type : Bytes
  pub prefill_positions : ℕ
  pub prefill_graph_count : ℕ
  pub prefill_microbatch_size : ℕ
  pub prefill_cache_bytes : ℕ
  pub prefill_peak_graph_bytes : ℕ
  pub readout_ms : Double
  pub readout_backend_copy_ms : Double
  pub readout_synchronization_ms : Double
  pub readout_graph_node_count : ℕ
  pub normalization_ms : Double
  pub request_total_ms : Double

-- Without `vision_debug`, which only the command line asks for, and the constant `prompt_policy`.
pub record DecisionResult : Type 0 where
  pub option_scores : List OptionScore
  pub selected_index : ℕ
  pub selected_id : Bytes
  pub exact_tie : Bool
  pub scoring_basis : Bytes
  pub readout_id : Bytes
  pub prompt_format : PromptFormatInfo
  pub rendered_prompt_identity : Bytes
  pub rendered_prompt_token_ids : List TokenId
  pub timings : TimingInfo
