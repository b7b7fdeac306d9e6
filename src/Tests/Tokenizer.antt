-- ===== src/Tests/Tokenizer.antt =====
-- A small tokenizer for the code of src/tokenizer.cpp.
use branchscore.Base.{
  ℕ, zero, suc, ◌+◌, ◌^◌, ◌<◌, ◌≡◌, ◌≢◌, refl, sym, ◌∙◌, true, false, none, some, List, [], ◌∷◌,
  ◌++◌, ◌==◌, Bytes, codes, equal, equal_iff, starts_with, find_text, take, drop, Bool-cases, inl,
  inr, ap, ltb, ltb→lt, if◌then◌else◌, arith,
}
use branchscore.Decision.{TokenId}
use branchscore.Result.{ok, Outcome}
use branchscore.Tokenizer.AnswerLabel.{
  tokenize_answer_label, boundary_prompt, is_fixed_suffix, all_uppercase, ends_with, spans_boundary,
  require_only, check_label_token, extends_by, back, answer_suffix,
}
use branchscore.Tokenizer.AnswerLabel.Whole.{tokenize_answer_label-tokenize}
use branchscore.Tokenizer.Load.{
  Gguf, string_value, string_array, int32_array, uint32, required, require_key, as_text,
  require_string, as_texts, as_int32s, as_token_id, optional_value, optional_token_id, emplace_id,
  add_pieces, cut_merge, split_merge, emplace_rank, add_merges, valid_id, optional_text, token_type,
  is_special_type, token_types_of, special_tokens_of, insert_longer, sort_longer, finish, from_gguf,
}
use branchscore.Tokenizer.Load.Loaded.{IsLoaded, from_gguf-IsLoaded}
use branchscore.Tokenizer.Merge.{
  at, store, split_symbols, bigram_later, push, enqueue, add_bigram, first_bigrams, relink, join,
  is_stale, add_neighbours, merge_symbols, require_id, byte_tokens, whole_or, symbol_tokens, emit,
  all_newlines, tokenize_symbols, tokenize_segment,
}
use branchscore.Tokenizer.Segments.{
  run_length, tokenize_runs, tokenize_raw, earlier, first_match, raw_part, consume, tokenize_rest,
  tokenize,
}
use branchscore.Tokenizer.Spelling.{Spells, LacksByte}
use branchscore.Tokenizer.Spelling.Segment.{tokenize_segment-Spells}
use branchscore.Tokenizer.Spelling.Text.{
  AllSpelled, none_spelled, one_spelled, Reads, tokenize-Reads, tokenize_total,
}
use branchscore.Tokenizer.Vocabulary.{
  Impl, SpecialToken, in_range, find_id, find_rank, find_token, byte_piece, piece, is_special_id,
  is_special_token, utf8_character_size, escape_spaces,
}

-- The pieces of the bytes below a number
unfoldable pub byte_table : ℕ → List (Bytes × TokenId)
byte_table zero = []
byte_table (suc n) = (byte_piece n, 100 + n) ∷ byte_table n

byte_table_complete : (n byte : ℕ) → byte < n → find_id (byte_table n) (byte_piece byte) ≢ none
unfolding byte_table find_id
byte_table_complete zero byte h e = absurd (omega arith)
byte_table_complete (suc n) byte h e = elim (Bool-cases (equal (byte_piece n) (byte_piece byte))) [
  | inl same ↦ some-none {m = 100 + n} (sym (rw same refl) ∙ e)
  | inr other ↦ elim (Bool-cases (ltb byte n)) [
    | inl below ↦ byte_table_complete n byte (ltb→lt byte n below) (sym (rw other refl) ∙ e)
    | inr top ↦
        let at_top : n ≡ byte = ground arith in
        let same : equal (byte_piece n) (byte_piece byte) ≡ true =
          (equal_iff (byte_piece n) (byte_piece byte)).1 (ap byte_piece at_top) in
        true-false (sym same ∙ other)
  ]
]
  where
    some-none : {m : ℕ} → some m ≡ none → ⊥
    some-none q = cc

    true-false : true ≡ false → ⊥
    true-false q = cc

abbrev turn : SpecialToken
turn = record { text = codes "<|turn>"; id = 2; type = 3 }

abbrev letters : List (Bytes × TokenId)
letters =
    (codes "A", 3)
    ∷ (codes "m", 4)
    ∷ (codes "o", 5)
    ∷ (codes "d", 6)
    ∷ (codes "e", 7)
    ∷ (codes "l", 8)
    ∷ (codes "mo", 9)
    ∷ (codes "<|turn>", 2)
    ∷ (10 ∷ [], 10)
    ∷ []

abbrev small : Impl
small = record {
  id_to_piece =
      codes "<bos>"
      ∷ codes "<eos>"
      ∷ codes "<|turn>"
      ∷ codes "A"
      ∷ codes "m"
      ∷ codes "o"
      ∷ codes "d"
      ∷ codes "e"
      ∷ codes "l"
      ∷ codes "mo"
      ∷ (10 ∷ [])
      ∷ [];
  token_types = [];
  piece_to_id = letters;
  merge_ranks = ((codes "m", codes "o"), 0) ∷ [];
  special_tokens = turn ∷ [];
  bos = 0;
  eos = 1;
  chat_template = none;
}

abbrev prompt : Bytes
prompt = codes "<|turn>model\n"

prompt_tokens : tokenize small prompt true true ≡ ok (0 ∷ 2 ∷ 9 ∷ 6 ∷ 7 ∷ 8 ∷ 10 ∷ [])
unfolding tokenize tokenize_rest consume first_match earlier find_text starts_with raw_part take
    drop tokenize_raw tokenize_runs escape_spaces tokenize_segment all_newlines tokenize_symbols
    split_symbols run_length equal add_bigram add_neighbours at bigram_later byte_tokens emit
    enqueue first_bigrams is_stale join merge_symbols push relink require_id store symbol_tokens
    whole_or byte_piece find_id find_rank utf8_character_size
prompt_tokens = refl

small_AllSpelled : AllSpelled small.special_tokens
small_AllSpelled = one_spelled turn [] (omega arith) none_spelled

tokenize_segment-Spells_example :
    Outcome
      (Spells small (codes "model"))
      (LacksByte small)
      (tokenize_segment small (codes "model"))
tokenize_segment-Spells_example = tokenize_segment-Spells small (codes "model")

tokenize-Reads_example :
    Outcome
      (λ ids.
        (rest : List TokenId) × (ids ≡ (if true then small.bos ∷ rest else rest))
        × Reads small true prompt rest)
      (LacksByte small)
      (tokenize small prompt true true)
tokenize-Reads_example = tokenize-Reads small prompt true true small_AllSpelled

-- The same with a piece for each byte
abbrev full : Impl
full = record small { piece_to_id = byte_table 256 }

full_bytes : (byte : ℕ) → byte < 2 ^ 8 → find_token full (byte_piece byte) ≢ none
full_bytes byte h = byte_table_complete 256 byte h

tokenize_total_example : (ids : List TokenId) × (tokenize full prompt false true ≡ ok ids)
tokenize_total_example = tokenize_total full prompt false true small_AllSpelled full_bytes

label_accepted :
    tokenize_answer_label small prompt (codes "A")
    ≡ ok (record { label = codes "A"; id = 3; boundary_valid = true })
unfolding tokenize tokenize_rest consume first_match earlier find_text starts_with raw_part take
    drop tokenize_raw tokenize_runs escape_spaces tokenize_segment all_newlines tokenize_symbols
    split_symbols run_length equal add_bigram add_neighbours at bigram_later byte_tokens emit
    enqueue first_bigrams is_stale join merge_symbols push relink require_id store symbol_tokens
    whole_or byte_piece find_id find_rank utf8_character_size tokenize_answer_label boundary_prompt
    is_fixed_suffix all_uppercase ends_with spans_boundary require_only check_label_token extends_by
    back piece in_range is_special_id
label_accepted = refl

abbrev gguf_key : Gguf
gguf_key key =
    if equal key (codes "tokenizer.ggml.model")
    then some (string_value (codes "gemma4"))
    else if equal key (codes "tokenizer.ggml.tokens")
    then some (string_array (codes "<bos>" ∷ codes "<eos>" ∷ codes "a" ∷ codes "<turn|>" ∷ []))
    else if equal key (codes "tokenizer.ggml.token_type")
    then some (int32_array (3 ∷ 3 ∷ 1 ∷ 1 ∷ []))
    else if equal key (codes "tokenizer.ggml.merges")
    then some (string_array (codes "a b" ∷ []))
    else if equal key (codes "tokenizer.ggml.bos_token_id")
    then some (uint32 0)
    else if equal key (codes "tokenizer.ggml.eos_token_id")
    then some (uint32 1)
    else none

abbrev loaded : Impl
loaded = record {
  id_to_piece = codes "<bos>" ∷ codes "<eos>" ∷ codes "a" ∷ codes "<turn|>" ∷ [];
  token_types = 3 ∷ 3 ∷ 1 ∷ 3 ∷ [];
  piece_to_id =
      (codes "<turn|>", 3) ∷ (codes "a", 2) ∷ (codes "<eos>", 1) ∷ (codes "<bos>", 0) ∷ [];
  merge_ranks = ((codes "a", codes "b"), 0) ∷ [];
  special_tokens =
      record { text = codes "<turn|>"; id = 3; type = 3 }
      ∷ record { text = codes "<bos>"; id = 0; type = 3 }
      ∷ record { text = codes "<eos>"; id = 1; type = 3 }
      ∷ [];
  bos = 0;
  eos = 1;
  chat_template = none;
}

is_loaded : from_gguf (some gguf_key) ≡ ok loaded
unfolding from_gguf require_string require_key required as_text as_texts as_int32s add_pieces
    emplace_id find_id finish add_merges split_merge cut_merge find_text starts_with emplace_rank
    find_rank optional_token_id optional_value as_token_id valid_id optional_text token_types_of
    token_type special_tokens_of is_special_type sort_longer insert_longer take drop equal
is_loaded = refl

from_gguf-IsLoaded_example : IsLoaded loaded
from_gguf-IsLoaded_example = from_gguf-IsLoaded gguf_key loaded is_loaded

-- A model file with the tokens of the last turn
abbrev turn_key : Gguf
turn_key key =
    if equal key (codes "tokenizer.ggml.model")
    then some (string_value (codes "gemma4"))
    else if equal key (codes "tokenizer.ggml.tokens")
    then some (string_array small.id_to_piece)
    else if equal key (codes "tokenizer.ggml.token_type")
    then some (int32_array (3 ∷ 3 ∷ 3 ∷ 1 ∷ 1 ∷ 1 ∷ 1 ∷ 1 ∷ 1 ∷ 1 ∷ 1 ∷ []))
    else if equal key (codes "tokenizer.ggml.merges")
    then some (string_array (codes "m o" ∷ []))
    else if equal key (codes "tokenizer.ggml.bos_token_id")
    then some (uint32 0)
    else if equal key (codes "tokenizer.ggml.eos_token_id")
    then some (uint32 1)
    else none

abbrev turn_impl : Impl
turn_impl = record small {
  token_types = 3 ∷ 3 ∷ 3 ∷ 1 ∷ 1 ∷ 1 ∷ 1 ∷ 1 ∷ 1 ∷ 1 ∷ 1 ∷ [];
  piece_to_id =
      (10 ∷ [], 10)
      ∷ (codes "mo", 9)
      ∷ (codes "l", 8)
      ∷ (codes "e", 7)
      ∷ (codes "d", 6)
      ∷ (codes "o", 5)
      ∷ (codes "m", 4)
      ∷ (codes "A", 3)
      ∷ (codes "<|turn>", 2)
      ∷ (codes "<eos>", 1)
      ∷ (codes "<bos>", 0)
      ∷ [];
  special_tokens =
      turn
      ∷ record { text = codes "<bos>"; id = 0; type = 3 }
      ∷ record { text = codes "<eos>"; id = 1; type = 3 }
      ∷ [];
}

turn_is_loaded : from_gguf (some turn_key) ≡ ok turn_impl
unfolding from_gguf require_string require_key required as_text as_texts as_int32s add_pieces
    emplace_id find_id finish add_merges split_merge cut_merge find_text starts_with emplace_rank
    find_rank optional_token_id optional_value as_token_id valid_id optional_text token_types_of
    token_type special_tokens_of is_special_type sort_longer insert_longer take drop equal
turn_is_loaded = refl

turn_AllSpelled : AllSpelled turn_impl.special_tokens
turn_AllSpelled =
    one_spelled _ _ (omega arith)
      (one_spelled _ _ (omega arith) (one_spelled _ _ (omega arith) none_spelled))

-- A prompt with text before the last turn
abbrev long_prompt : Bytes
long_prompt = codes "mode<|turn>model\n"

turn_label :
    tokenize_answer_label turn_impl long_prompt (codes "A")
    ≡ ok (record { label = codes "A"; id = 3; boundary_valid = true })
unfolding tokenize tokenize_rest consume first_match earlier find_text starts_with raw_part take
    drop tokenize_raw tokenize_runs escape_spaces tokenize_segment all_newlines tokenize_symbols
    split_symbols run_length equal add_bigram add_neighbours at bigram_later byte_tokens emit
    enqueue first_bigrams is_stale join merge_symbols push relink require_id store symbol_tokens
    whole_or byte_piece find_id find_rank utf8_character_size tokenize_answer_label boundary_prompt
    is_fixed_suffix all_uppercase ends_with spans_boundary require_only check_label_token extends_by
    back piece in_range is_special_id
turn_label = refl

shortened : boundary_prompt turn_impl long_prompt (codes "A") ≡ answer_suffix
unfolding tokenize tokenize_rest consume first_match earlier find_text starts_with raw_part take
    drop tokenize_raw tokenize_runs escape_spaces tokenize_segment all_newlines tokenize_symbols
    split_symbols run_length equal add_bigram add_neighbours at bigram_later byte_tokens emit
    enqueue first_bigrams is_stale join merge_symbols push relink require_id store symbol_tokens
    whole_or byte_piece find_id find_rank utf8_character_size tokenize_answer_label boundary_prompt
    is_fixed_suffix all_uppercase ends_with spans_boundary require_only check_label_token extends_by
    back piece in_range is_special_id
shortened = refl

long_tokens :
    tokenize turn_impl long_prompt false true ≡ ok (9 ∷ 6 ∷ 7 ∷ 2 ∷ 9 ∷ 6 ∷ 7 ∷ 8 ∷ 10 ∷ [])
unfolding tokenize tokenize_rest consume first_match earlier find_text starts_with raw_part take
    drop tokenize_raw tokenize_runs escape_spaces tokenize_segment all_newlines tokenize_symbols
    split_symbols run_length equal add_bigram add_neighbours at bigram_later byte_tokens emit
    enqueue first_bigrams is_stale join merge_symbols push relink require_id store symbol_tokens
    whole_or byte_piece find_id find_rank utf8_character_size tokenize_answer_label boundary_prompt
    is_fixed_suffix all_uppercase ends_with spans_boundary require_only check_label_token extends_by
    back piece in_range is_special_id
long_tokens = refl

tokenize_answer_label-tokenize_example :
    (tokenize turn_impl (long_prompt ++ codes "A") false true
      ≡ ok (9 ∷ 6 ∷ 7 ∷ 2 ∷ 9 ∷ 6 ∷ 7 ∷ 8 ∷ 10 ∷ 3 ∷ []))
    × (piece turn_impl 3 ≡ ok (codes "A"))
    × ((3 == 1) ≡ false)
    × (is_special_token turn_impl 3 ≡ false)
tokenize_answer_label-tokenize_example =
    tokenize_answer_label-tokenize turn_impl (from_gguf-IsLoaded turn_key turn_impl turn_is_loaded)
      turn_AllSpelled long_prompt (codes "A") _ false _ turn_label long_tokens
