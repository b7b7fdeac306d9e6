-- ===== src/Tokenizer/Load/Loaded.antt =====
-- What holds of a tokenizer that `from_gguf` of src/tokenizer.cpp returns.
use branchscore.Base.{
  ℕ, zero, suc, ◌+◌, ◌<◌, ◌≤◌, ◌≡◌, ◌↔◌, inl, inr, refl, sym, ap, ◌∙◌, subst, not, Option, none,
  some, List, [], ◌∷◌, Bytes, codes, equal, length, get_elem?, take, Bool-cases, ◌==◌, ltb, arith,
}
use branchscore.Decision.{TokenId}
use branchscore.Result.{ok, throw, runtime_error, out_of_range, ok_of_bind, ok-injective, throw_if}
use branchscore.Tokenizer.Load.{
  GgufValue, int32_array, Gguf, require_key, require_string, as_texts, as_int32s, add_pieces,
  add_merges, valid_id, optional_token_id, optional_text, token_type, is_special_type,
  token_types_of, special_tokens_of, insert_longer, sort_longer, finish, from_gguf,
}
use branchscore.Tokenizer.Load.Pieces.{add_pieces_sound, add_pieces_complete}
use branchscore.Tokenizer.Vocabulary.{
  Impl, SpecialToken, in_range, find_id, find_token, piece, vocabulary_size,
}

-- Each special token has the text that its id has in the vocabulary.
pub data AllListed (pieces : List Bytes) : List SpecialToken → Type 0 where
  listed_none : AllListed pieces []
  listed_one :
      (token : SpecialToken) (tokens : List SpecialToken)
      → get_elem? pieces token.id ≡ some token.text
      → AllListed pieces tokens
      → AllListed pieces (token ∷ tokens)

-- No special token stands behind a shorter one.
pub data IsLongestFirst : List SpecialToken → Type 0 where
  empty : IsLongestFirst []
  alone : (token : SpecialToken) → IsLongestFirst (token ∷ [])
  before :
      (token next : SpecialToken) (tokens : List SpecialToken)
      → length next.text ≤ length token.text
      → IsLongestFirst (next ∷ tokens)
      → IsLongestFirst (token ∷ next ∷ tokens)

insert_longer-AllListed :
    {pieces : List Bytes} (token : SpecialToken) (tokens : List SpecialToken)
    → get_elem? pieces token.id ≡ some token.text
    → AllListed pieces tokens
    → AllListed pieces (insert_longer token tokens)
unfolding insert_longer
insert_longer-AllListed token [] h listed_none = listed_one token [] h listed_none
insert_longer-AllListed token (next ∷ tokens) h (listed_one n rest g all) =
    elim (Bool-cases (ltb (length token.text) (length next.text))) [
      | inl shorter ↦ rw shorter (
          listed_one next (insert_longer token tokens) g
            (insert_longer-AllListed token tokens h all))
      | inr longer ↦ rw longer (listed_one token (next ∷ tokens) h (listed_one next tokens g all))
    ]

sort_longer-AllListed :
    {pieces : List Bytes} (tokens : List SpecialToken)
    → AllListed pieces tokens
    → AllListed pieces (sort_longer tokens)
unfolding sort_longer
sort_longer-AllListed [] listed_none = listed_none
sort_longer-AllListed (token ∷ tokens) (listed_one t rest h all) =
    insert_longer-AllListed token (sort_longer tokens) h (sort_longer-AllListed tokens all)

-- A longer token in front of what was inserted into the tokens behind it
front :
    (token next : SpecialToken) (tokens : List SpecialToken)
    → length token.text ≤ length next.text
    → IsLongestFirst (next ∷ tokens)
    → IsLongestFirst (insert_longer token tokens)
    → IsLongestFirst (next ∷ insert_longer token tokens)
unfolding insert_longer
front token next [] h sorted inserted = before next token [] h (alone token)
front token next (t ∷ ts) h (before n u us g sorted) inserted =
    elim (Bool-cases (ltb (length token.text) (length t.text))) [
      | inl shorter ↦ rw shorter (before next t (insert_longer token ts) g (rw shorter at inserted))
      | inr longer ↦ rw longer (before next token (t ∷ ts) h (rw longer at inserted))
    ]

behind :
    {token : SpecialToken} {tokens : List SpecialToken}
    → IsLongestFirst (token ∷ tokens)
    → IsLongestFirst tokens
behind (alone t) = empty
behind (before t u us h sorted) = sorted

insert_longer-IsLongestFirst :
    (token : SpecialToken) (tokens : List SpecialToken)
    → IsLongestFirst tokens
    → IsLongestFirst (insert_longer token tokens)
unfolding insert_longer
insert_longer-IsLongestFirst token [] h = alone token
insert_longer-IsLongestFirst token (next ∷ tokens) h =
    elim (Bool-cases (ltb (length token.text) (length next.text))) [
      | inl shorter ↦ rw shorter (
          front token next tokens (ground arith) h
            (insert_longer-IsLongestFirst token tokens (behind h)))
      | inr longer ↦ rw longer (before token next tokens (ground arith) h)
    ]

sort_longer-IsLongestFirst : (tokens : List SpecialToken) → IsLongestFirst (sort_longer tokens)
unfolding sort_longer
sort_longer-IsLongestFirst [] = empty
sort_longer-IsLongestFirst (token ∷ tokens) =
    insert_longer-IsLongestFirst token (sort_longer tokens) (sort_longer-IsLongestFirst tokens)

special_tokens_of-AllListed :
    (i : ℕ) (pieces rest : List Bytes) (types : List ℕ)
    → ((j k : ℕ) → k ≡ i + j → get_elem? pieces k ≡ get_elem? rest j)
    → AllListed pieces (special_tokens_of i rest types)
unfolding special_tokens_of
special_tokens_of-AllListed i pieces [] types h = listed_none
special_tokens_of-AllListed i pieces (p ∷ ps) [] h = listed_none
special_tokens_of-AllListed i pieces (p ∷ ps) (type ∷ types) h =
    let rest =
      special_tokens_of-AllListed (suc i) pieces ps types
        (λ j k e. h (suc j) k (omega (arith, e))) in
    elim (Bool-cases (is_special_type (token_type p type))) [
      | inl special ↦ rw special (listed_one _ _ (h 0 i (omega arith)) rest)
      | inr plain ↦ rw plain rest
    ]

length-token_types_of :
    (pieces : List Bytes) (types : List ℕ) → length (token_types_of pieces types) ≡ length types
unfolding token_types_of
length-token_types_of [] types = refl
length-token_types_of (p ∷ ps) [] = refl
length-token_types_of (p ∷ ps) (t ∷ ts) = omega (arith, length-token_types_of ps ts)

length-take : {A : Type 0} (n : ℕ) (xs : List A) → n ≤ length xs → length (take n xs) ≡ n
unfolding take
length-take zero xs h = refl
length-take (suc n) [] h = absurd (omega arith)
length-take (suc n) (x ∷ xs) h = omega (arith, length-take n xs)

pub record IsLoaded (impl : Impl) : Type 0 where
  pub finds_iff :
      (text : Bytes) (id : TokenId) → (find_token impl text ≡ some id) ↔ (piece impl id ≡ ok text)
  pub bos_inside : impl.bos < vocabulary_size impl
  pub eos_inside : impl.eos < vocabulary_size impl
  pub types_complete : length impl.token_types ≡ vocabulary_size impl
  pub all_listed : AllListed impl.id_to_piece impl.special_tokens
  pub longest_first : IsLongestFirst impl.special_tokens

pub in_range_iff :
    (o : Option Bytes) (content : Bytes) → (in_range o ≡ ok content) ↔ (o ≡ some content)
unfolding in_range
in_range_iff none content = (λ h. absurd (none-ok h), λ h. absurd (none-some h))
  where
    none-ok : throw out_of_range ≡ ok content → ⊥
    none-ok h = cc

    none-some : none ≡ some content → ⊥
    none-some h = cc
in_range_iff (some t) content = (λ h. ap some (ok-injective h), λ h. cc)

find_id_iff :
    (pieces : List Bytes) (content : Bytes) (id : TokenId)
    → length pieces ≤ length (add_pieces 0 pieces [])
    → (find_id (add_pieces 0 pieces []) content ≡ some id) ↔ (get_elem? pieces id ≡ some content)
unfolding find_id
find_id_iff pieces content id full = (
  λ h. elim (add_pieces_sound 0 pieces [] content id h) [
    | inl there ↦ absurd (not_there there)
    | inr (j, e, found) ↦ let same : j ≡ id = omega (arith, e) in rw (sym same) found
  ],
  λ h.
      let index : 0 + id ≡ id = omega arith in
      add_pieces_complete 0 pieces [] content id (omega (arith, full)) h ∙ ap some index,
)
  where
    not_there : none ≡ some id → ⊥
    not_there h = cc

valid_id-lt :
    (count : ℕ) (o : Option TokenId) (id : TokenId) → valid_id count o ≡ ok id → id < count
unfolding valid_id
valid_id-lt count none id h = absurd (cc)
valid_id-lt count (some n) id h = ground arith

finish-IsLoaded :
    (gguf : Gguf) (pieces : List Bytes) (types : List ℕ) (impl : Impl)
    → length pieces ≤ length (add_pieces 0 pieces [])
    → length types ≡ length pieces
    → finish gguf pieces types ≡ ok impl
    → IsLoaded impl
unfolding finish piece vocabulary_size
finish-IsLoaded gguf pieces types impl full typed h =
    let (merges_value, _, h₁) =
      ok_of_bind (require_key gguf (codes "tokenizer.ggml.merges")) _ impl h in
    let (merges, _, h₂) = ok_of_bind (as_texts merges_value) _ impl h₁ in
    let (ranks, _, h₃) = ok_of_bind (add_merges 0 merges []) _ impl h₂ in
    let (bos_id, _, h₄) =
      ok_of_bind (optional_token_id gguf (codes "tokenizer.ggml.bos_token_id")) _ impl h₃ in
    let (eos_id, _, h₅) =
      ok_of_bind (optional_token_id gguf (codes "tokenizer.ggml.eos_token_id")) _ impl h₄ in
    let (bos, bos_valid, h₆) = ok_of_bind (valid_id (length pieces) bos_id) _ impl h₅ in
    let (eos, eos_valid, h₇) = ok_of_bind (valid_id (length pieces) eos_id) _ impl h₆ in
    let (chat_template, _, h₈) =
      ok_of_bind (optional_text (gguf (codes "tokenizer.chat_template"))) _ impl h₇ in
    subst IsLoaded (ok-injective h₈) (record {
      finds_iff = λ content id.
          let there = find_id_iff pieces content id full in
          let inside = in_range_iff (get_elem? pieces id) content in
          (λ e. inside.1 (there.0 e), λ e. there.1 (inside.0 e));
      bos_inside = valid_id-lt (length pieces) bos_id bos bos_valid;
      eos_inside = valid_id-lt (length pieces) eos_id eos eos_valid;
      types_complete = length-token_types_of pieces types ∙ typed;
      all_listed = sort_longer-AllListed (special_tokens_of 0 pieces types) (
          special_tokens_of-AllListed 0 pieces pieces types
            (λ j k e. ap (get_elem? pieces) (omega (arith, e))));
      longest_first = sort_longer-IsLongestFirst (special_tokens_of 0 pieces types);
    })

as_int32s-length :
    (count : ℕ) (v : GgufValue) (types : List ℕ)
    → as_int32s count v ≡ ok types
    → count ≤ length types
unfolding as_int32s
as_int32s-length count (int32_array ns) types h = ground arith
as_int32s-length count v types h = absurd (cc)

same_length : (m n : ℕ) (u : Unit {0}) → throw_if (not (m == n)) runtime_error ≡ ok u → m ≡ n
same_length m n u h = ground arith

-- A tokenizer that from_gguf returns finds a text under an id exactly if the id has that piece; its
-- BOS and EOS ids lie in the vocabulary, which has a type for each token; every special token has
-- the text of its id, and none stands behind a shorter one.
pub from_gguf-IsLoaded :
    (gguf : Gguf) (impl : Impl) → from_gguf (some gguf) ≡ ok impl → IsLoaded impl
unfolding from_gguf
from_gguf-IsLoaded gguf impl h =
    let (model, _, h₁) = ok_of_bind (require_string gguf (codes "tokenizer.ggml.model")) _ impl h in
    let (is_gemma, _, h₂) =
      ok_of_bind (throw_if (not (equal model (codes "gemma4"))) runtime_error) _ impl h₁ in
    let (tokens_value, _, h₃) =
      ok_of_bind (require_key gguf (codes "tokenizer.ggml.tokens")) _ impl h₂ in
    let (pieces, _, h₄) = ok_of_bind (as_texts tokens_value) _ impl h₃ in
    let (no_duplicate, distinct, h₅) =
      ok_of_bind (throw_if (not (length (add_pieces 0 pieces []) == length pieces)) runtime_error) _
        impl h₄ in
    let (types_value, _, h₆) =
      ok_of_bind (require_key gguf (codes "tokenizer.ggml.token_type")) _ impl h₅ in
    let (types, enough, h₇) = ok_of_bind (as_int32s (length pieces) types_value) _ impl h₆ in
    let counted = as_int32s-length (length pieces) types_value types enough in
    finish-IsLoaded gguf pieces (take (length pieces) types) impl
      (omega (
        arith,
        same_length (length (add_pieces 0 pieces [])) (length pieces) no_duplicate distinct,
      ))
      (length-take (length pieces) types counted) h₇
