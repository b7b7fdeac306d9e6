-- ===== src/Image/Inspect.antt =====
-- `ImagePreprocessor::inspect_encoded` of src/image_preprocessor.cpp.
use branchscore.Base.{
  ℕ, ◌^◌, ◌-◌, Bool, not, ◌||◌, ◌&&◌, Option, none, some, Bytes, ltb, ◌==◌, if◌then◌else◌, length,
}
use branchscore.Result.{Result, ok, throw, image_decode_error}

-- `stbi_info_from_memory` of stb_image: `none` where it fails, else the width and the height, each an
-- `int` as its bit pattern.
abbrev pub StbiInfo : Type 0
StbiInfo = Bytes → Option (ℕ × ℕ)

pub record EncodedImageInfo : Type 0 where
  pub width : ℕ
  pub height : ℕ

-- `value > 0` for an `int` of that bit pattern
abbrev pub is_positive_int : ℕ → Bool
is_positive_int v = ltb 0 v && ltb v (2 ^ 31)

unfoldable pub inspect_encoded : StbiInfo → Bytes → Result EncodedImageInfo
inspect_encoded stbi_info encoded =
    if length encoded == 0
    then throw image_decode_error
    else if ltb (2 ^ 31 - 1) (length encoded)
    then throw image_decode_error
    else elim (stbi_info encoded) [
      | none ↦ throw image_decode_error
      | some (width, height) ↦
          if not (is_positive_int width) || not (is_positive_int height)
          then throw image_decode_error
          else ok (record { width = width; height = height })
    ]
