-- ===== src/Tests/Prefill.antt =====
-- A prompt with an image for the code of src/prefill_engine.cpp.
use branchscore.Base.{◌≡◌, refl, true, false, some, List, [], ◌∷◌, arith}
use branchscore.Cache.Layers.{IsValid}
use branchscore.Cache.State.{TextModelConfig, create}
use branchscore.Prefill.Covered.{IsSchedule, schedule-IsSchedule}
use branchscore.Prefill.Schedule.{
  Chunk, VisualTokens, has_other_width, visual_count_of, padded_count, capacity_of, schedule,
}
use branchscore.Result.{ok, throw, runtime_error}
use branchscore.Tests.Cache.{small_config}

abbrev config : TextModelConfig
config = record small_config { context_length = 4096 }

config-IsValid : IsValid config
config-IsValid = record { blocks_bounded = omega arith; some_stored = omega arith; one_each = refl }

abbrev visual : VisualTokens
visual = record { embedding_length = 64; token_count = 600 }

same_width : has_other_width config (some visual) ≡ false
unfolding has_other_width
same_width = refl

-- The padded capacity of 5 positions is 256, which is more than 255.
too_small :
    schedule true
      (record small_config { context_length = 255 })
      (1 ∷ 2 ∷ 3 ∷ 4 ∷ [])
      (some (record { embedding_length = 64; token_count = 1 }))
      []
    ≡ throw runtime_error
unfolding schedule has_other_width visual_count_of capacity_of padded_count create
too_small = refl

schedule-IsSchedule_example :
    (chunks : List Chunk) × (schedule true config (5 ∷ 6 ∷ []) (some visual) (7 ∷ []) ≡ ok chunks)
    × IsSchedule (5 ∷ 6 ∷ []) 600 (7 ∷ []) chunks
schedule-IsSchedule_example =
    unfold visual_count_of capacity_of padded_count in
    schedule-IsSchedule true config (5 ∷ 6 ∷ []) (some visual) (7 ∷ []) config-IsValid (omega arith)
      same_width (omega arith) (omega arith) (omega arith)
