-- ===== src/Image/Prepare.antt =====
-- The sizes that src/image_preprocessor.cpp computes. The pixels of a prepared image are left out.
use branchscore.Base.{
  ℕ, ◌*◌, ◌/◌, ◌%◌, ◌^◌, ◌-◌, max, not, ◌||◌, Option, none, some, Bytes, ltb, ◌==◌, if◌then◌else◌,
}
use branchscore.Double.{Double}
use branchscore.Image.Inspect.{StbiInfo, EncodedImageInfo, inspect_encoded}
use branchscore.Result.{Result, ok, throw, runtime_error, image_decode_error, throw_if, ◌>>=◌, ◌>>◌}

-- The arithmetic of `double` and the functions of the C library on it. `to_int` is the conversion of
-- a `double` that is not negative to an `int`.
pub record DoubleMath : Type 0 where
  pub of_int : ℕ → Double
  pub to_int : Double → ℕ
  pub multiply : Double → Double → Double
  pub divide : Double → Double → Double
  pub sqrt : Double → Double
  pub round : Double → Double
  pub ceil : Double → Double
  pub floor : Double → Double

-- What is read of `VisionModelConfig`
pub record VisionModelConfig : Type 0 where
  pub patch_size : ℕ
  pub merge_size : ℕ
  pub image_min_pixels : ℕ
  pub image_max_pixels : ℕ

pub record ImageSize : Type 0 where
  pub width : ℕ
  pub height : ℕ

pub record PreparedImage : Type 0 where
  pub width : ℕ
  pub height : ℕ

-- A `std::uint32_t` as an `int`
unfoldable pub checked_int : ℕ → Result ℕ
checked_int value = throw_if (value == 0 || ltb (2 ^ 31 - 1) value) runtime_error >> ok value

unfoldable pub round_factor : DoubleMath → ℕ → Double → ℕ
round_factor math align value =
    max align (math.to_int (math.round (math.divide value (math.of_int align))) * align)

unfoldable pub ceil_factor : DoubleMath → ℕ → Double → ℕ
ceil_factor math align value =
    math.to_int (math.ceil (math.divide value (math.of_int align))) * align

unfoldable pub floor_factor : DoubleMath → ℕ → Double → ℕ
floor_factor math align value =
    max align (math.to_int (math.floor (math.divide value (math.of_int align))) * align)

-- The three cases of the area; a product of two `int`s is computed as one in `std::int64_t`.
unfoldable pub fit_area : DoubleMath → VisionModelConfig → ℕ → ℕ → ℕ → ImageSize
fit_area math config align width height =
    let w = math.of_int width in
    let h = math.of_int height in
    let target_width = round_factor math align w in
    let target_height = round_factor math align h in
    let down = math.sqrt (math.divide (math.multiply w h) (math.of_int config.image_max_pixels)) in
    let up = math.sqrt (math.divide (math.of_int config.image_min_pixels) (math.multiply w h)) in
    if ltb config.image_max_pixels (target_width * target_height)
    then record {
      width = floor_factor math align (math.divide w down);
      height = floor_factor math align (math.divide h down);
    }
    else if ltb (target_width * target_height) config.image_min_pixels
    then record {
      width = ceil_factor math align (math.multiply w up);
      height = ceil_factor math align (math.multiply h up);
    }
    else record { width = target_width; height = target_height }

unfoldable pub target_size : DoubleMath → VisionModelConfig → ℕ → ℕ → Result ImageSize
target_size math config width height =
    checked_int (config.patch_size * config.merge_size % 2 ^ 32) >>= λ align.
    throw_if (config.image_min_pixels == 0 || ltb config.image_max_pixels config.image_min_pixels)
      runtime_error
    >> ok (fit_area math config align width height)

unfoldable pub patch_count : VisionModelConfig → PreparedImage → Result ℕ
patch_count config image =
    throw_if
      (config.patch_size == 0
        || (not (image.width % config.patch_size == 0)
            || not (image.height % config.patch_size == 0)))
      runtime_error
    >> ok (image.width / config.patch_size * (image.height / config.patch_size))

-- A patch size of 0 is refused by `target_size`, which every image has been through.
unfoldable pub visual_token_count : VisionModelConfig → PreparedImage → Result ℕ
visual_token_count config image =
    let patches_x = image.width / config.patch_size in
    let patches_y = image.height / config.patch_size in
    throw_if (config.merge_size == 0) runtime_error
    >> (throw_if
          (not (patches_x % config.merge_size == 0) || not (patches_y % config.merge_size == 0))
          runtime_error
        >> ok (patches_x / config.merge_size * (patches_y / config.merge_size)))

unfoldable pub estimate_visual_token_count :
    DoubleMath → VisionModelConfig → EncodedImageInfo → Result ℕ
estimate_visual_token_count math config info = checked_int info.width >>= λ width.
    checked_int info.height >>= λ height. target_size math config width height >>= λ size.
    visual_token_count config (record { width = size.width; height = size.height })

unfoldable pub preprocess_rgb : DoubleMath → VisionModelConfig → ℕ → ℕ → Result PreparedImage
preprocess_rgb math config width height = checked_int width >>= λ input_width.
    checked_int height >>= λ input_height.
    target_size math config input_width input_height >>= λ target.
    ok (record { width = target.width; height = target.height })

-- `stbi_load` and `stbi_load_from_memory` of stb_image: `none` where they fail, else the width and the
-- height.
abbrev pub StbiLoad : Type 0
StbiLoad = Bytes → Option (ℕ × ℕ)

unfoldable pub load_decoded : DoubleMath → VisionModelConfig → Option (ℕ × ℕ) → Result PreparedImage
load_decoded math config none = throw runtime_error
load_decoded math config (some (width, height)) = preprocess_rgb math config width height

unfoldable pub load : StbiLoad → DoubleMath → VisionModelConfig → Bytes → Result PreparedImage
load stbi_load math config path = load_decoded math config (stbi_load path)

-- Behind `inspect_encoded`
unfoldable pub check_decoded :
    DoubleMath → VisionModelConfig → EncodedImageInfo → Option (ℕ × ℕ) → Result PreparedImage
check_decoded math config info none = throw image_decode_error
check_decoded math config info (some (width, height)) =
    throw_if (not (width == info.width) || not (height == info.height)) image_decode_error
    >> preprocess_rgb math config width height

unfoldable pub load_encoded :
    StbiInfo → StbiLoad → DoubleMath → VisionModelConfig → Bytes → Result PreparedImage
load_encoded stbi_info stbi_load_from_memory math config encoded =
    inspect_encoded stbi_info encoded >>= λ info.
    check_decoded math config info (stbi_load_from_memory encoded)
