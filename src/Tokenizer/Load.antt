-- ===== src/Tokenizer/Load.antt =====
-- `GemmaTokenizer::from_gguf` of src/tokenizer.cpp, with the helpers that read GGUF values. A count
-- of tokens or merges is below 2 ^ 31.
pub mod Pieces
pub mod Loaded
use branchscore.Base.{
  ℕ, zero, suc, ◌+◌, ◌-◌, ◌^◌, Bool, true, false, not, ◌&&◌, ◌||◌, Option, none, some, List, [],
  ◌∷◌, ◌++◌, Bytes, codes, equal, ◌==◌, ltb, leb, if◌then◌else◌, length, take, drop, find_text,
}
use branchscore.Decision.{TokenId}
use branchscore.Result.{Result, ok, throw, runtime_error, throw_if, ◌>>=◌, ◌>>◌}
use branchscore.Tokenizer.Vocabulary.{
  Impl, SpecialToken, find_id, find_rank, token_type_unknown, token_type_control,
  token_type_user_defined,
}

-- A value of a GGUF file, as the functions of gguf.h give it; a 32-bit integer is its bit pattern.
pub data GgufValue : Type 0 where
  string_value : Bytes → GgufValue
  uint32 int32 uint64 : ℕ → GgufValue
  string_array : List Bytes → GgufValue
  int32_array : List ℕ → GgufValue
  other : GgufValue

-- `gguf_find_key` on an open file
abbrev pub Gguf : Type 0
Gguf = Bytes → Option GgufValue

-- The key that is there, or the exception
unfoldable pub required : Option GgufValue → Result GgufValue
required none = throw runtime_error
required (some v) = ok v

unfoldable pub require_key : Gguf → Bytes → Result GgufValue
require_key gguf key = required (gguf key)

unfoldable pub as_text : GgufValue → Result Bytes
as_text (string_value s) = ok s
as_text _ = throw runtime_error

unfoldable pub require_string : Gguf → Bytes → Result Bytes
require_string gguf key = require_key gguf key >>= λ v. as_text v

unfoldable pub as_texts : GgufValue → Result (List Bytes)
as_texts (string_array ts) = ok ts
as_texts _ = throw runtime_error

unfoldable pub as_int32s : ℕ → GgufValue → Result (List ℕ)
as_int32s count (int32_array ns) = if ltb (length ns) count then throw runtime_error else ok ns
as_int32s count _ = throw runtime_error

-- The id of a value, which fits an `int32_t`
unfoldable pub as_token_id : GgufValue → Result TokenId
as_token_id (uint32 n) = throw_if (leb (2 ^ 31) n) runtime_error >> ok n
as_token_id (int32 n) = throw_if (leb (2 ^ 31) n) runtime_error >> ok n
as_token_id (uint64 n) = throw_if (leb (2 ^ 31) n) runtime_error >> ok n
as_token_id _ = throw runtime_error

-- `none` is the fallback, -1.
unfoldable pub optional_value : Option GgufValue → Result (Option TokenId)
optional_value none = ok none
optional_value (some v) = as_token_id v >>= λ id. ok (some id)

unfoldable pub optional_token_id : Gguf → Bytes → Result (Option TokenId)
optional_token_id gguf key = optional_value (gguf key)

-- `unordered_map::emplace`: a key that is there keeps its value.
unfoldable pub emplace_id :
    Option TokenId → Bytes → TokenId → List (Bytes × TokenId) → List (Bytes × TokenId)
emplace_id none piece id entries = (piece, id) ∷ entries
emplace_id (some old) piece id entries = entries

-- The loop over the pieces, the first of which has the id `i`
unfoldable pub add_pieces : ℕ → List Bytes → List (Bytes × TokenId) → List (Bytes × TokenId)
add_pieces i [] entries = entries
add_pieces i (piece ∷ pieces) entries =
    add_pieces (suc i) pieces (emplace_id (find_id entries piece) piece i entries)

-- The two parts of a merge: `merge.find(' ', 1)`
unfoldable pub cut_merge : ℕ → Bytes → Option ℕ → Result (Bytes × Bytes)
cut_merge c cs none = throw runtime_error
cut_merge c cs (some n) = ok (c ∷ take n cs, drop (suc n) cs)

unfoldable pub split_merge : Bytes → Result (Bytes × Bytes)
split_merge [] = throw runtime_error
split_merge (c ∷ cs) = cut_merge c cs (find_text (b' ' ∷ []) cs)

unfoldable pub emplace_rank :
    Option ℕ → Bytes × Bytes → ℕ → List ((Bytes × Bytes) × ℕ) → List ((Bytes × Bytes) × ℕ)
emplace_rank none parts rank entries = (parts, rank) ∷ entries
emplace_rank (some old) parts rank entries = entries

unfoldable pub add_merges :
    ℕ → List Bytes → List ((Bytes × Bytes) × ℕ) → Result (List ((Bytes × Bytes) × ℕ))
add_merges i [] entries = ok entries
add_merges i (merge ∷ merges) entries = split_merge merge >>= λ parts.
    add_merges (suc i) merges (emplace_rank (find_rank entries parts.0 parts.1) parts i entries)

-- `bos < 0 || bos >= token_count`
unfoldable pub valid_id : ℕ → Option TokenId → Result TokenId
valid_id count none = throw runtime_error
valid_id count (some id) = if leb count id then throw runtime_error else ok id

unfoldable pub optional_text : Option GgufValue → Result (Option Bytes)
optional_text none = ok none
optional_text (some v) = as_text v >>= λ s. ok (some s)

-- The type of a token, with the three pieces that are made control tokens
unfoldable pub token_type : Bytes → ℕ → ℕ
token_type piece type =
    if equal piece (codes "<eos>")
      || equal piece (codes "<turn|>")
      || equal piece (codes "<|tool_response>")
    then token_type_control
    else type

unfoldable pub is_special_type : ℕ → Bool
is_special_type type =
    type == token_type_control || type == token_type_user_defined || type == token_type_unknown

-- The last loop: the types, and the special tokens in the order of their ids
unfoldable pub token_types_of : List Bytes → List ℕ → List ℕ
token_types_of (piece ∷ pieces) (type ∷ types) = token_type piece type ∷ token_types_of pieces types
token_types_of _ types = types

unfoldable pub special_tokens_of : ℕ → List Bytes → List ℕ → List SpecialToken
special_tokens_of i (piece ∷ pieces) (type ∷ types) =
    let rest = special_tokens_of (suc i) pieces types in
    if is_special_type (token_type piece type)
    then record { text = piece; id = i; type = token_type piece type } ∷ rest
    else rest
special_tokens_of i _ types = []

-- `std::stable_sort`, the longer text first
unfoldable pub insert_longer : SpecialToken → List SpecialToken → List SpecialToken
insert_longer token [] = token ∷ []
insert_longer token (next ∷ tokens) =
    let rest = insert_longer token tokens in
    if ltb (length token.text) (length next.text) then next ∷ rest else token ∷ next ∷ tokens

unfoldable pub sort_longer : List SpecialToken → List SpecialToken
sort_longer [] = []
sort_longer (token ∷ tokens) = insert_longer token (sort_longer tokens)

-- The rest of the function, for the pieces and the types that it has read
unfoldable pub finish : Gguf → List Bytes → List ℕ → Result Impl
finish gguf pieces types = do
  merges_value ← require_key gguf (codes "tokenizer.ggml.merges")
  merges ← as_texts merges_value
  ranks ← add_merges 0 merges []
  bos_id ← optional_token_id gguf (codes "tokenizer.ggml.bos_token_id")
  eos_id ← optional_token_id gguf (codes "tokenizer.ggml.eos_token_id")
  bos ← valid_id (length pieces) bos_id
  eos ← valid_id (length pieces) eos_id
  chat_template ← optional_text (gguf (codes "tokenizer.chat_template"))
  ok (record {
    id_to_piece = pieces;
    token_types = token_types_of pieces types;
    piece_to_id = add_pieces 0 pieces [];
    merge_ranks = ranks;
    special_tokens = sort_longer (special_tokens_of 0 pieces types);
    bos = bos;
    eos = eos;
    chat_template = chat_template;
  })

-- `none` is a file that cannot be read.
unfoldable pub from_gguf : Option Gguf → Result Impl
from_gguf none = throw runtime_error
from_gguf (some gguf) = do
  model ← require_string gguf (codes "tokenizer.ggml.model")
  throw_if (not (equal model (codes "gemma4"))) runtime_error
  tokens_value ← require_key gguf (codes "tokenizer.ggml.tokens")
  pieces ← as_texts tokens_value
  throw_if (not (length (add_pieces 0 pieces []) == length pieces)) runtime_error
  types_value ← require_key gguf (codes "tokenizer.ggml.token_type")
  types ← as_int32s (length pieces) types_value
  finish gguf pieces (take (length pieces) types)
