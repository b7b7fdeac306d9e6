-- ===== src/Tokenizer/Vocabulary.antt =====
-- `GemmaTokenizer::Impl` of src/tokenizer.cpp, its look-ups, and the helpers on bytes. A hash table
-- is the list of its entries; every key stands in it once.
use branchscore.Base.{
  ℕ, ◌+◌, ◌/◌, ◌%◌, ◌^◌, ◌-◌, min, Bool, false, ◌&&◌, ◌||◌, Option, none, some, List, [], ◌∷◌,
  Bytes, equal, ◌==◌, ltb, if◌then◌else◌, length, get_elem?,
}
use branchscore.Decision.{TokenId}
use branchscore.Result.{Result, ok, throw, out_of_range}

abbrev pub token_type_unknown : ℕ
token_type_unknown = 2

abbrev pub token_type_control : ℕ
token_type_control = 3

abbrev pub token_type_user_defined : ℕ
token_type_user_defined = 4

pub record SpecialToken : Type 0 where
  pub text : Bytes
  pub id : TokenId
  pub type : ℕ

pub record Impl : Type 0 where
  pub id_to_piece : List Bytes
  pub token_types : List ℕ
  pub piece_to_id : List (Bytes × TokenId)
  pub merge_ranks : List ((Bytes × Bytes) × ℕ)
  pub special_tokens : List SpecialToken
  pub bos : TokenId
  pub eos : TokenId
  pub chat_template : Option Bytes

-- `unordered_map::find`
unfoldable pub find_id : List (Bytes × TokenId) → Bytes → Option TokenId
find_id [] piece = none
find_id ((key, id) ∷ entries) piece =
    let later = find_id entries piece in if equal key piece then some id else later

unfoldable pub find_rank : List ((Bytes × Bytes) × ℕ) → Bytes → Bytes → Option ℕ
find_rank [] left right = none
find_rank (((l, r), rank) ∷ entries) left right =
    let later = find_rank entries left right in
    if equal l left && equal r right then some rank else later

abbrev pub find_token : Impl → Bytes → Option TokenId
find_token impl piece = find_id impl.piece_to_id piece

-- The piece that is there, or the exception
unfoldable pub in_range : Option Bytes → Result Bytes
in_range none = throw out_of_range
in_range (some text) = ok text

-- A token id is never negative here.
unfoldable pub piece : Impl → TokenId → Result Bytes
piece impl id = in_range (get_elem? impl.id_to_piece id)

unfoldable pub vocabulary_size : Impl → ℕ
vocabulary_size impl = length impl.id_to_piece

unfoldable pub is_special_id : List SpecialToken → TokenId → Bool
is_special_id [] id = false
is_special_id (token ∷ tokens) id = token.id == id || is_special_id tokens id

abbrev pub is_special_token : Impl → TokenId → Bool
is_special_token impl id = is_special_id impl.special_tokens id

-- `first & 0xE0U` and so on: the leading bits of the byte.
unfoldable pub utf8_character_size : ℕ → ℕ → ℕ
utf8_character_size first remaining =
    let expected : ℕ =
      if first / 2 ^ 5 == 6
      then 2
      else if first / 2 ^ 4 == 14
      then 3
      else if first / 2 ^ 3 == 30
      then 4
      else 1 in
    min expected remaining

unfoldable pub escape_spaces : Bytes → Bytes
escape_spaces [] = []
escape_spaces (byte ∷ text) =
    let rest = escape_spaces text in if byte == b' ' then 0xE2 ∷ 0x96 ∷ 0x81 ∷ rest else byte ∷ rest

-- `"0123456789ABCDEF"[digit]`
abbrev pub hex_digit : ℕ → ℕ
hex_digit digit = if ltb digit 10 then b'0' + digit else b'A' + (digit - 10)

unfoldable pub byte_piece : ℕ → Bytes
byte_piece byte = b'<' ∷ b'0' ∷ b'x' ∷ hex_digit (byte / 16) ∷ hex_digit (byte % 16) ∷ b'>' ∷ []
