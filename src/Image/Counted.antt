-- ===== src/Image/Counted.antt =====
-- The estimate of src/image_preprocessor.cpp from the header of an image, and the image it loads.
use branchscore.Base.{ℕ, ◌≡◌, sym, ap, ◌∙◌, refl, Option, none, some, Bytes, not, ◌||◌, ◌==◌, arith}
use branchscore.Engine.Checks.{if_passed}
use branchscore.Image.Inspect.{StbiInfo, EncodedImageInfo, inspect_encoded}
use branchscore.Image.Prepare.{
  DoubleMath, VisionModelConfig, ImageSize, PreparedImage, StbiLoad, checked_int, target_size,
  visual_token_count, estimate_visual_token_count, preprocess_rgb, check_decoded, load_encoded,
}
use branchscore.Result.{ok, image_decode_error, throw_if, ok_of_bind, ok-injective}

module _ (math : DoubleMath) (config : VisionModelConfig) where
  estimate_at :
      (info : EncodedImageInfo) (width height : ℕ) (size : ImageSize)
      → checked_int info.width ≡ ok width
      → checked_int info.height ≡ ok height
      → target_size math config width height ≡ ok size
      → estimate_visual_token_count math config info
        ≡ visual_token_count config (record { width = size.width; height = size.height })
  unfolding estimate_visual_token_count
  estimate_at info width height size w v t = rw (w, v, t) refl

  preprocess_rgb-estimate :
      (info : EncodedImageInfo) (image : PreparedImage)
      → preprocess_rgb math config info.width info.height ≡ ok image
      → estimate_visual_token_count math config info ≡ visual_token_count config image
  unfolding preprocess_rgb
  preprocess_rgb-estimate info image h =
      let (width, w, h₁) = ok_of_bind (checked_int info.width) _ image h in
      let (height, v, h₂) = ok_of_bind (checked_int info.height) _ image h₁ in
      let (size, t, h₃) = ok_of_bind (target_size math config width height) _ image h₂ in
      estimate_at info width height size w v t ∙ ap (visual_token_count config) (ok-injective h₃)

  check_decoded-estimate :
      (info : EncodedImageInfo) (decoded : Option (ℕ × ℕ)) (image : PreparedImage)
      → check_decoded math config info decoded ≡ ok image
      → estimate_visual_token_count math config info ≡ visual_token_count config image
  unfolding check_decoded
  check_decoded-estimate info none image h = absurd (cc)
  check_decoded-estimate info (some (width, height)) image h =
      let (u, passed, h₁) =
        ok_of_bind
          (throw_if (not (width == info.width) || not (height == info.height)) image_decode_error) _
          image h in
      let same = if_passed _ _ u passed in
      let same_width : width ≡ info.width = ground (arith, same) in
      let same_height : height ≡ info.height = ground (arith, same) in
      preprocess_rgb-estimate info image (
        ap (λ w. preprocess_rgb math config w info.height) (sym same_width)
        ∙ ap (preprocess_rgb math config width) (sym same_height)
        ∙ h₁)

  -- An encoded image that is loaded has as many visual tokens as were estimated from its header: the
  -- two fail alike, or give one number.
  pub load_encoded-estimate_visual_token_count :
      (stbi_info : StbiInfo) (stbi_load : StbiLoad) (encoded : Bytes) (info : EncodedImageInfo)
      (image : PreparedImage)
      → inspect_encoded stbi_info encoded ≡ ok info
      → load_encoded stbi_info stbi_load math config encoded ≡ ok image
      → estimate_visual_token_count math config info ≡ visual_token_count config image
  unfolding load_encoded
  load_encoded-estimate_visual_token_count stbi_info stbi_load encoded info image i h =
      let (other, again, checked) = ok_of_bind (inspect_encoded stbi_info encoded) _ image h in
      let same : other ≡ info = ok-injective (sym again ∙ i) in
      check_decoded-estimate info (stbi_load encoded) image
        (ap (λ n. check_decoded math config n (stbi_load encoded)) (sym same) ∙ checked)
