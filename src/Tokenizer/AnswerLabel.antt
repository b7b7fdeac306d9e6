-- ===== src/Tokenizer/AnswerLabel.antt =====
-- `GemmaTokenizer::tokenize_answer_label` of src/tokenizer.cpp.
pub mod Accepted
pub mod Whole
use branchscore.Base.{
  ℕ, zero, suc, ◌+◌, ◌-◌, Bool, true, false, not, ◌&&◌, ◌||◌, Option, none, some, List, [], ◌∷◌,
  ◌++◌, Bytes, codes, equal, ◌==◌, ltb, leb, if◌then◌else◌, length, drop, starts_with, find_text,
}
use branchscore.Decision.{TokenId}
use branchscore.Result.{Result, ok, throw, runtime_error, throw_if, ◌>>=◌, ◌>>◌}
use branchscore.Tokenizer.Segments.{tokenize}
use branchscore.Tokenizer.Vocabulary.{Impl, SpecialToken, find_token, piece, is_special_token}

pub record AnswerToken : Type 0 where
  pub label : Bytes
  pub id : TokenId
  pub boundary_valid : Bool

unfoldable pub all_uppercase : Bytes → Bool
all_uppercase [] = true
all_uppercase (c ∷ cs) = leb b'A' c && leb c b'Z' && all_uppercase cs

abbrev pub is_malformed : Bytes → Bool
is_malformed label = length label == 0 || ltb 2 (length label) || not (all_uppercase label)

abbrev pub answer_suffix : Bytes
answer_suffix = codes "<|turn>model\n"

-- `text.size() >= suffix.size()`, and the comparison of the end with the suffix
unfoldable pub ends_with : Bytes → Bytes → Bool
ends_with text suffix =
    leb (length suffix) (length text) && equal (drop (length text - length suffix) text) suffix

abbrev pub is_known_special : Impl → Option TokenId → Bool
is_known_special impl none = false
is_known_special impl (some id) = is_special_token impl id

-- Whether the first occurrence, `distance` bytes behind `start`, spans the boundary.
abbrev pub crosses : ℕ → ℕ → ℕ → Option ℕ → Bool
crosses boundary size start none = false
crosses boundary size start (some distance) =
    ltb (start + distance) boundary && ltb boundary (start + distance + size)

-- Whether a special token in the text spans the boundary.
unfoldable pub spans_boundary : Bytes → ℕ → List SpecialToken → Bool
spans_boundary inspected boundary [] = false
spans_boundary inspected boundary (special ∷ specials) =
    let size = length special.text in
    let start : ℕ = if leb size boundary then boundary - size + 1 else 0 in
    crosses boundary size start (find_text special.text (drop start inspected))
    || spans_boundary inspected boundary specials

unfoldable pub is_fixed_suffix : Impl → Bytes → Bytes → Bool
is_fixed_suffix impl prompt label =
    is_known_special impl (find_token impl (codes "<|turn>"))
    && ends_with prompt answer_suffix
    && not (
        spans_boundary (prompt ++ label) (length prompt - length answer_suffix) impl.special_tokens)

unfoldable pub boundary_prompt : Impl → Bytes → Bytes → Bytes
boundary_prompt impl prompt label =
    if is_fixed_suffix impl prompt label then answer_suffix else prompt

-- `size() != 1`, else `front()`
abbrev pub only : List TokenId → Option TokenId
only (id ∷ []) = some id
only _ = none

-- `back()`, of what is not empty
unfoldable pub back : List TokenId → TokenId
back [] = 0
back (id ∷ []) = id
back (id ∷ next ∷ ids) = back (next ∷ ids)

-- The tokens of the longer text are those of the shorter one, and the token of the label.
unfoldable pub extends_by : List TokenId → List TokenId → TokenId → Bool
extends_by combined prefix id = not (
    not (length combined == length prefix + 1)
    || not (starts_with prefix combined)
    || not (back combined == id))

-- The checks of the only token of the label
unfoldable pub check_label_token : Impl → Bytes → TokenId → Result (Unit {0})
check_label_token impl label id = piece impl id >>= λ text.
    throw_if (not (equal text label) || id == impl.eos || is_special_token impl id) runtime_error

unfoldable pub require_only : Option TokenId → Result TokenId
require_only none = throw runtime_error
require_only (some id) = ok id

unfoldable pub tokenize_answer_label : Impl → Bytes → Bytes → Result AnswerToken
tokenize_answer_label impl rendered_prompt label =
    let prompt = boundary_prompt impl rendered_prompt label in
    let add_bos = not (starts_with (codes "<bos>") prompt) in
    throw_if (is_malformed label) runtime_error
    >> (tokenize impl prompt add_bos true >>= λ prefix_ids.
        tokenize impl label false true >>= λ standalone_ids.
        require_only (only standalone_ids) >>= λ id.
        check_label_token impl label id
        >> (tokenize impl (prompt ++ label) add_bos true >>= λ combined_ids.
            throw_if (not (extends_by combined_ids prefix_ids id)) runtime_error
            >> ok (record { label = label; id = id; boundary_valid = true })))
