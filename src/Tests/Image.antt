-- ===== src/Tests/Image.antt =====
-- A small image for the code of src/image_preprocessor.cpp.
use branchscore.Base.{◌*◌, ◌/◌, ◌≡◌, refl, some, [], ◌∷◌}
use branchscore.Image.Counted.{load_encoded-estimate_visual_token_count}
use branchscore.Image.Inspect.{EncodedImageInfo, inspect_encoded}
use branchscore.Image.Prepare.{
  DoubleMath, VisionModelConfig, PreparedImage, checked_int, round_factor, ceil_factor,
  floor_factor, fit_area, target_size, visual_token_count, estimate_visual_token_count,
  preprocess_rgb, check_decoded, load_encoded,
}
use branchscore.Result.{ok}

-- A number stands for itself.
abbrev whole_numbers : DoubleMath
whole_numbers = record {
  of_int = λ n. n;
  to_int = λ d. d;
  multiply = λ a b. a * b;
  divide = λ a b. a / b;
  sqrt = λ a. a;
  round = λ a. a;
  ceil = λ a. a;
  floor = λ a. a;
}

abbrev vision : VisionModelConfig
vision = record { patch_size = 2; merge_size = 2; image_min_pixels = 1; image_max_pixels = 1000 }

abbrev info : EncodedImageInfo
info = record { width = 9; height = 4 }

abbrev image : PreparedImage
image = record { width = 8; height = 4 }

inspected : inspect_encoded (λ bytes. some (9, 4)) (1 ∷ []) ≡ ok info
unfolding inspect_encoded
inspected = refl

loaded :
    load_encoded (λ bytes. some (9, 4)) (λ bytes. some (9, 4)) whole_numbers vision (1 ∷ [])
    ≡ ok image
unfolding load_encoded check_decoded preprocess_rgb target_size checked_int fit_area round_factor
    ceil_factor floor_factor inspect_encoded
loaded = refl

two_tokens : visual_token_count vision image ≡ ok 2
unfolding visual_token_count
two_tokens = refl

load_encoded-estimate_visual_token_count_example :
    estimate_visual_token_count whole_numbers vision info ≡ visual_token_count vision image
load_encoded-estimate_visual_token_count_example =
    load_encoded-estimate_visual_token_count whole_numbers vision (λ bytes. some (9, 4))
      (λ bytes. some (9, 4)) (1 ∷ []) info image inspected loaded
