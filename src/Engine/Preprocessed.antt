-- ===== src/Engine/Preprocessed.antt =====
-- The engine of src/gemma4_decision_engine.cpp with the image preprocessor of
-- src/image_preprocessor.cpp.
use branchscore.Engine.Around.{CountsAgree}
use branchscore.Engine.Evaluate.{Machine}
use branchscore.Image.Counted.{load_encoded-estimate_visual_token_count}
use branchscore.Image.Prepare.{
  DoubleMath, VisionModelConfig, PreparedImage, StbiLoad, visual_token_count,
  estimate_visual_token_count, load_encoded, load,
}

module _ {Visual State : Type 0} (m : Machine PreparedImage Visual State) (math : DoubleMath)
    (config : VisionModelConfig) (stbi_load stbi_load_from_memory : StbiLoad) where
  -- The machine that prepares images as the preprocessor does
  abbrev with_preprocessor : Machine PreparedImage Visual State
  with_preprocessor = record m {
    estimate_visual_token_count = λ info. estimate_visual_token_count math config info;
    load = λ path. load stbi_load math config path;
    load_encoded = λ bytes. load_encoded m.stbi_info stbi_load_from_memory math config bytes;
    visual_token_count = λ image. visual_token_count config image;
  }

  -- The preprocessor keeps the law on which the estimate of the engine rests.
  with_preprocessor-CountsAgree : CountsAgree with_preprocessor
  with_preprocessor-CountsAgree = record {
    same_count = λ bytes info image inspected loaded.
        load_encoded-estimate_visual_token_count math config m.stbi_info stbi_load_from_memory bytes
          info image inspected loaded;
  }
