-- ===== src/Engine/Around.antt =====
-- What src/gemma4_decision_engine.cpp counts around the image.
use branchscore.Base.{
  ℕ, suc, ◌+◌, ◌%◌, ◌^◌, ◌≤◌, ◌≡◌, sym, ap, ◌∙◌, true, false, ◌||◌, ◌&&◌, Option, none, some, List,
  [], ◌∷◌, ◌++◌, Bytes, ◌==◌, Bool-cases, inl, inr, length, take, drop, length-append, arith, ltb,
}
use branchscore.Base.Words.{sub64}
use branchscore.Decision.{
  DecisionRequest, TokenId, has_value, min_decision_options, max_decision_options,
}
use branchscore.Engine.Checks.{if_passed}
use branchscore.Engine.Evaluate.{
  Machine, count_id, index_of, with_visual, estimate_visual, prepare_image,
}
use branchscore.Engine.Validate.{is_empty, is_blank, validate_options, validate_request}
use branchscore.Image.Inspect.{EncodedImageInfo, inspect_encoded}
use branchscore.Result.{ok, runtime_error, throw_if, ok_of_bind, ok-injective}

-- A token that occurs, with the tokens around its first occurrence
pub split_at_index_of :
    (id : TokenId) (ids : List TokenId)
    → 1 ≤ count_id id ids
    → ids ≡ take (index_of id ids) ids ++ id ∷ drop (suc (index_of id ids)) ids
unfolding count_id index_of take drop
split_at_index_of id [] h = absurd (omega (arith, h))
split_at_index_of id (i ∷ is) h = elim (Bool-cases (i == id)) [
  | inl here ↦ let same : i ≡ id = ground arith in rw here (ap (λ j. j ∷ is) same)
  | inr behind ↦
      let later : 1 ≤ count_id id is = ground (arith, behind, h) in
      rw behind (ap (λ js. i ∷ js) (split_at_index_of id is later))
]

-- The image's token is not counted.
pub with_visual-around :
    (before after ids : List TokenId) (id : TokenId) (visual : ℕ)
    → ids ≡ before ++ id ∷ after
    → with_visual (length ids) visual ≡ (length before + length after + visual) % 2 ^ 64
unfolding sub64
with_visual-around before after ids id visual split =
    let size = length-append before (id ∷ after) in
    let all : length ids ≡ suc (length before + length after) =
      omega (arith, ap length split, size) in
    omega (arith, all)

pub validate_request-one_image :
    (request : DecisionRequest) (u : Unit {0})
    → validate_request request ≡ ok u
    → (has_value request.image_path && has_value request.image_bytes) ≡ false
unfolding validate_request
validate_request-one_image request u h =
    let (a, _, h₁) = ok_of_bind (throw_if (is_empty request.state) runtime_error) _ u h in
    let (b, _, h₂) = ok_of_bind (throw_if (is_empty request.question) runtime_error) _ u h₁ in
    let (c, _, h₃) =
      ok_of_bind
        (throw_if
          (ltb (length request.options) min_decision_options
            || ltb max_decision_options (length request.options))
          runtime_error)
        _ u h₂ in
    let (d, _, h₄) = ok_of_bind (validate_options [] request.options) _ u h₃ in
    let (e, _, h₅) = ok_of_bind (throw_if (is_blank request.image_path) runtime_error) _ u h₄ in
    let (f, one, h₆) =
      ok_of_bind
        (throw_if (has_value request.image_path && has_value request.image_bytes) runtime_error) _ u
        h₅ in
    if_passed _ _ f one

module _ {Image Visual State : Type 0} (m : Machine Image Visual State) where
  -- The header of an encoded image and the decoded image give one number of visual tokens.
  pub record CountsAgree : Type 0 where
    pub same_count :
        (bytes : Bytes) (info : EncodedImageInfo) (image : Image)
        → inspect_encoded m.stbi_info bytes ≡ ok info
        → m.load_encoded bytes ≡ ok image
        → m.estimate_visual_token_count info ≡ m.visual_token_count image

  -- The image that is prepared has the visual tokens that were estimated.
  pub estimate_visual-prepare_image :
      (path bytes : Option Bytes) (count : ℕ) (prepared : Option Image)
      → CountsAgree
      → (has_value path && has_value bytes) ≡ false
      → (has_value path || has_value bytes) ≡ true
      → estimate_visual m bytes path ≡ ok count
      → prepare_image m path bytes ≡ ok prepared
      → (image : Image) × (prepared ≡ some image) × (m.visual_token_count image ≡ ok count)
  unfolding estimate_visual prepare_image
  estimate_visual-prepare_image (some path) (some bytes) count prepared agree one there h g =
      absurd (ground arith)
  estimate_visual-prepare_image (some path) none count prepared agree one there h g =
      let (image, loaded, counted) = ok_of_bind (m.load path) _ count h in
      let (other, again, done) = ok_of_bind (m.load path) _ prepared g in
      let same : image ≡ other = ok-injective (sym loaded ∙ again) in
      (image, sym (ok-injective done) ∙ ap some (sym same), counted)
  estimate_visual-prepare_image none (some bytes) count prepared agree one there h g =
      let (info, inspected, counted) = ok_of_bind (inspect_encoded m.stbi_info bytes) _ count h in
      let (image, loaded, done) = ok_of_bind (m.load_encoded bytes) _ prepared g in
      (
        image,
        sym (ok-injective done),
        sym (agree.same_count bytes info image inspected loaded) ∙ counted,
      )
  estimate_visual-prepare_image none none count prepared agree one there h g = absurd (ground arith)
