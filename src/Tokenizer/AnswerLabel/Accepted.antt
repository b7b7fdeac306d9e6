-- ===== src/Tokenizer/AnswerLabel/Accepted.antt =====
-- What `tokenize_answer_label` of src/tokenizer.cpp vouches for.
use branchscore.Base.{
  ◌≡◌, refl, sym, ap, ◌∙◌, Bool, true, false, not, List, [], ◌∷◌, ◌++◌, Bytes, codes, starts_with,
  arith, equal, equal_iff, ◌==◌, ◌||◌,
}
use branchscore.Decision.{TokenId}
use branchscore.Result.{Result, ok, throw_if, runtime_error, ok_of_bind, ok-injective, ◌>>◌}
use branchscore.Tokenizer.AnswerLabel.{
  AnswerToken, boundary_prompt, tokenize_answer_label, check_label_token, require_only, only,
  extends_by, back, is_malformed,
}
use branchscore.Tokenizer.Segments.{tokenize}
use branchscore.Tokenizer.Vocabulary.{Impl, piece, is_special_token}

-- `throw_if` that returns
passed :
    {B : Type 0} (b : Bool) (r : Result B) (v : B)
    → (throw_if b runtime_error >> r) ≡ ok v
    → (b ≡ false) × (r ≡ ok v)
passed true r v h = absurd (cc)
passed false r v h = (refl, h)

extends_by-append :
    (combined prefix : List TokenId) (id : TokenId)
    → extends_by combined prefix id ≡ true
    → combined ≡ prefix ++ id ∷ []
unfolding extends_by back starts_with
extends_by-append [] [] id h = absurd (ground arith)
extends_by-append (c ∷ []) [] id h = ground arith
extends_by-append (c ∷ d ∷ cs) [] id h = absurd (ground arith)
extends_by-append [] (p ∷ ps) id h = absurd (ground arith)
extends_by-append (c ∷ []) (p ∷ ps) id h = absurd (ground arith)
extends_by-append (c ∷ d ∷ cs) (p ∷ ps) id h = ground (arith, extends_by-append (d ∷ cs) ps id)

only-one : (ids : List TokenId) (id : TokenId) → require_only (only ids) ≡ ok id → ids ≡ id ∷ []
unfolding require_only
only-one [] id h = absurd (cc)
only-one (i ∷ []) id h = ap (λ j. j ∷ []) (ok-injective h)
only-one (i ∷ j ∷ ids) id h = absurd (cc)

pub record IsAnswer (impl : Impl) (prompt label : Bytes) (answer : AnswerToken) : Type 0 where
  pub same_label : answer.label ≡ label
  pub is_valid : answer.boundary_valid ≡ true
  pub spelled : piece impl answer.id ≡ ok label
  pub not_end : (answer.id == impl.eos) ≡ false
  pub not_special : is_special_token impl answer.id ≡ false
  pub alone : tokenize impl label false true ≡ ok (answer.id ∷ [])
  pub prefix : List TokenId
  pub before : tokenize impl prompt (not (starts_with (codes "<bos>") prompt)) true ≡ ok prefix
  pub appended :
      tokenize impl (prompt ++ label) (not (starts_with (codes "<bos>") prompt)) true
      ≡ ok (prefix ++ answer.id ∷ [])

record IsLabelToken (impl : Impl) (label : Bytes) (id : TokenId) : Type 0 where
  text_same : piece impl id ≡ ok label
  no_end : (id == impl.eos) ≡ false
  no_special : is_special_token impl id ≡ false

label_token :
    (impl : Impl) (label text : Bytes) (id : TokenId)
    → piece impl id ≡ ok text
    → (not (equal text label) || id == impl.eos || is_special_token impl id) ≡ false
    → IsLabelToken impl label id
label_token impl label text id e checks =
    let same : text ≡ label = (equal_iff text label).0 (ground arith) in
    record { text_same = e ∙ ap ok same; no_end = ground arith; no_special = ground arith }

if_passed : (b : Bool) (u : Unit {0}) → throw_if b runtime_error ≡ ok u → b ≡ false
if_passed true u h = absurd (cc)
if_passed false u h = refl

check_label_token_sound :
    (impl : Impl) (label : Bytes) (id : TokenId) (u : Unit {0})
    → check_label_token impl label id ≡ ok u
    → IsLabelToken impl label id
unfolding check_label_token
check_label_token_sound impl label id u h =
    let (text, e, checks) = ok_of_bind (piece impl id) _ u h in
    label_token impl label text id e (if_passed _ u checks)

-- A label that tokenize_answer_label accepts is a single ordinary token, and standing behind the
-- boundary prompt it leaves the tokens of that prompt as they are and adds this one token.
pub tokenize_answer_label_sound :
    (impl : Impl) (rendered_prompt label : Bytes) (answer : AnswerToken)
    → tokenize_answer_label impl rendered_prompt label ≡ ok answer
    → IsAnswer impl (boundary_prompt impl rendered_prompt label) label answer
unfolding tokenize_answer_label
tokenize_answer_label_sound impl rendered_prompt label answer h =
    let prompt = boundary_prompt impl rendered_prompt label in
    let (shaped, h₁) = passed (is_malformed label) _ answer h in
    let (prefix, before, h₂) = ok_of_bind _ _ answer h₁ in
    let (standalone, alone, h₃) = ok_of_bind _ _ answer h₂ in
    let (id, single, h₄) = ok_of_bind (require_only (only standalone)) _ answer h₃ in
    let (u, checked, h₅) = ok_of_bind (check_label_token impl label id) _ answer h₄ in
    let (combined, together, h₆) = ok_of_bind _ _ answer h₅ in
    let (extended, h₇) = passed (not (extends_by combined prefix id)) _ answer h₆ in
    let token = check_label_token_sound impl label id u checked in
    let made : AnswerToken = record { label = label; id = id; boundary_valid = true } in
    let same : made ≡ answer = ok-injective h₇ in
    let grown = extends_by-append combined prefix id (ground arith) in
    rw (sym same) (record {
      same_label = refl;
      is_valid = refl;
      spelled = token.text_same;
      not_end = token.no_end;
      not_special = token.no_special;
      alone = alone ∙ ap ok (only-one standalone id single);
      prefix = prefix;
      before = before;
      appended = together ∙ ap ok grown;
    })
