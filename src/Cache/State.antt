-- ===== src/Cache/State.antt =====
-- `StateCache` of src/state_cache.cpp, with the parts of `TextModelConfig` that it reads. The tensors
-- of ggml are their widths; their allocation is left out.
use branchscore.Base.{
  ℕ, zero, suc, ◌-◌, ◌+◌, ◌*◌, ◌%◌, ◌^◌, Bool, true, false, not, ◌||◌, none, some, List, [], ◌∷◌,
  ◌==◌, ltb, leb, if◌then◌else◌, get_elem?,
}
use branchscore.Result.{Result, ok, throw, runtime_error, out_of_range, throw_if, ◌>>=◌, ◌>>◌}

pub record TextModelConfig : Type 0 where
  pub context_length : ℕ
  pub embedding_length : ℕ
  pub block_count : ℕ
  pub head_count_kv : ℕ
  pub key_length : ℕ
  pub value_length : ℕ
  pub key_length_swa : ℕ
  pub value_length_swa : ℕ
  pub shared_kv_layers : ℕ
  pub sliding_window_pattern : List Bool

-- `keys` and `values` hold the widths of the tensors.
pub record StateCache : Type 0 where
  pub config : TextModelConfig
  pub capacity : ℕ
  pub prefix_length : ℕ
  pub cursor : ℕ
  pub keys : List ℕ
  pub values : List ℕ

unfoldable pub is_sliding_window : TextModelConfig → ℕ → Result Bool
is_sliding_window config layer = elim (get_elem? config.sliding_window_pattern layer) [
  | none ↦ throw out_of_range
  | some sliding ↦ ok sliding
]

-- The product of two `std::uint32_t`
unfoldable pub key_width : TextModelConfig → ℕ → Result ℕ
key_width config layer = do
  sliding ← is_sliding_window config layer
  ok (
      config.head_count_kv
      * (if sliding then config.key_length_swa else config.key_length)
      % 2 ^ 32)

unfoldable pub value_width : TextModelConfig → ℕ → Result ℕ
value_width config layer = do
  sliding ← is_sliding_window config layer
  ok (
      config.head_count_kv
      * (if sliding then config.value_length_swa else config.value_length)
      % 2 ^ 32)

-- The loop over the stored layers, of which `count` are left.
unfoldable pub add_layers : TextModelConfig → ℕ → ℕ → Result (List ℕ × List ℕ)
add_layers config layer zero = ok ([], [])
add_layers config layer (suc count) = do
  key ← key_width config layer
  value ← value_width config layer
  (keys, values) ← add_layers config (suc layer) count
  ok (key ∷ keys, value ∷ values)

-- The difference of two `std::uint32_t`
abbrev pub sub32 : ℕ → ℕ → ℕ
sub32 a b = (a + 2 ^ 32 - b) % 2 ^ 32

abbrev pub stored_layers : TextModelConfig → ℕ
stored_layers config = sub32 config.block_count config.shared_kv_layers

-- The constructor.
unfoldable pub create : TextModelConfig → ℕ → Result StateCache
create config capacity = do
  throw_if (capacity == 0 || ltb config.context_length capacity) runtime_error
  throw_if (leb config.block_count config.shared_kv_layers) runtime_error
  (keys, values) ← add_layers config 0 (stored_layers config)
  ok (record {
    config = config;
    capacity = capacity;
    prefix_length = 0;
    cursor = 0;
    keys = keys;
    values = values;
  })

abbrev pub differ : Bool → Bool → Bool
differ true b = not b
differ false b = b

-- The source of a shared layer: the last stored layer but one, or the last.
unfoldable pub shared_source : TextModelConfig → ℕ → Result ℕ
shared_source config layer = is_sliding_window config layer >>= λ sliding.
    let source = sub32 (stored_layers config) (if sliding then 2 else 1) in
    is_sliding_window config source >>= λ source_sliding.
    if differ source_sliding sliding then throw runtime_error else ok source

unfoldable pub source_layer : StateCache → ℕ → Result ℕ
source_layer cache layer =
    if leb cache.config.block_count layer
    then throw out_of_range
    else if ltb layer (stored_layers cache.config)
    then ok layer
    else shared_source cache.config layer

-- `keys.at(source_layer(layer))`
unfoldable pub key : StateCache → ℕ → Result ℕ
key cache layer = source_layer cache layer >>= λ source. elim (get_elem? cache.keys source) [
  | none ↦ throw out_of_range
  | some k ↦ ok k
]

unfoldable pub value : StateCache → ℕ → Result ℕ
value cache layer = source_layer cache layer >>= λ source. elim (get_elem? cache.values source) [
  | none ↦ throw out_of_range
  | some v ↦ ok v
]

unfoldable pub freeze_prefix : StateCache → ℕ → Result StateCache
freeze_prefix cache length = do
  throw_if (length == 0 || ltb cache.capacity length) runtime_error
  throw_if (not (cache.prefix_length == 0)) runtime_error
  ok (record cache { prefix_length = length; cursor = length })
