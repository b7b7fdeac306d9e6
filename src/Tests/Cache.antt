-- ===== src/Tests/Cache.antt =====
-- The state cache of src/state_cache.cpp with four layers, of which two are shared.
use branchscore.Base.{◌<◌, ◌≡◌, refl, true, false, [], ◌∷◌, arith}
use branchscore.Cache.Layers.{IsValid, shared_source_sound}
use branchscore.Cache.State.{
  TextModelConfig, StateCache, is_sliding_window, shared_source, stored_layers, create, add_layers,
  key_width, value_width,
}
use branchscore.Result.{ok}

abbrev pub small_config : TextModelConfig
small_config = record {
  context_length = 100;
  embedding_length = 64;
  block_count = 4;
  head_count_kv = 1;
  key_length = 512;
  value_length = 512;
  key_length_swa = 256;
  value_length_swa = 256;
  shared_kv_layers = 2;
  sliding_window_pattern = true ∷ false ∷ true ∷ false ∷ [];
}

pub small-IsValid : IsValid small_config
small-IsValid = record { blocks_bounded = omega arith; some_stored = omega arith; one_each = refl }

third_layer : shared_source small_config 2 ≡ ok 0
unfolding shared_source is_sliding_window
third_layer = refl

shared_source_sound_example :
    (0 < stored_layers small_config)
    × (is_sliding_window small_config 0 ≡ is_sliding_window small_config 2)
shared_source_sound_example = shared_source_sound small_config 2 0 small-IsValid third_layer

abbrev empty_cache : StateCache
empty_cache = record {
  config = small_config;
  capacity = 64;
  prefix_length = 0;
  cursor = 0;
  keys = 256 ∷ 512 ∷ [];
  values = 256 ∷ 512 ∷ [];
}

created : create small_config 64 ≡ ok empty_cache
unfolding create add_layers key_width value_width is_sliding_window
created = refl
