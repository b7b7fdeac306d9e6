-- ===== src/Cache/Created.antt =====
-- The constructor of `StateCache` of src/state_cache.cpp returns.
use branchscore.Base.{
  ℕ, zero, suc, ◌+◌, ◌*◌, ◌%◌, ◌^◌, if◌then◌else◌, ◌≤◌, ◌<◌, ◌≡◌, refl, ap, Bool, false, none, some,
  ◌||◌, List, [], ◌∷◌, ◌==◌, ltb, leb, length, get_elem?, arith,
}
use branchscore.Cache.Layers.{IsValid}
use branchscore.Cache.State.{
  TextModelConfig, StateCache, is_sliding_window, key_width, value_width, add_layers, stored_layers,
  create,
}
use branchscore.Result.{ok, throw, out_of_range}

get_elem?-inside : (xs : List Bool) (i : ℕ) → i < length xs → (b : Bool) × (get_elem? xs i ≡ some b)
get_elem?-inside [] i h = absurd (omega (arith, h))
get_elem?-inside (x ∷ xs) zero h = (x, refl)
get_elem?-inside (x ∷ xs) (suc i) h = get_elem?-inside xs i (omega (arith, h))

is_sliding_window-inside :
    (config : TextModelConfig) (layer : ℕ)
    → layer < length config.sliding_window_pattern
    → (b : Bool) × (is_sliding_window config layer ≡ ok b)
unfolding is_sliding_window
is_sliding_window-inside config layer h =
    let (b, e) = get_elem?-inside config.sliding_window_pattern layer h in
    (b, ap (λ o. elim o [ none ↦ throw out_of_range | some sliding ↦ ok sliding ]) e)

add_layers_total :
    (config : TextModelConfig) (layer count : ℕ)
    → layer + count ≤ length config.sliding_window_pattern
    → (widths : List ℕ × List ℕ) × (add_layers config layer count ≡ ok widths)
unfolding add_layers key_width value_width
add_layers_total config layer zero h = (([], []), refl)
add_layers_total config layer (suc count) h =
    let (sliding, known) = is_sliding_window-inside config layer (omega (arith, h)) in
    let (widths, rest) = add_layers_total config (suc layer) count (omega (arith, h)) in
    let at = config.head_count_kv in
    let key : ℕ = at * (if sliding then config.key_length_swa else config.key_length) % 2 ^ 32 in
    let value : ℕ =
      at * (if sliding then config.value_length_swa else config.value_length) % 2 ^ 32 in
    ((key ∷ widths.0, value ∷ widths.1), rw (known, rest) refl)

-- A valid configuration has a state cache of each capacity from 1 to its context.
pub create_total :
    (config : TextModelConfig) (capacity : ℕ)
    → IsValid config
    → 1 ≤ capacity
    → capacity ≤ config.context_length
    → (cache : StateCache) × (create config capacity ≡ ok cache)
unfolding create
create_total config capacity v some_capacity inside =
    let known = v.some_stored in
    let bounded = v.blocks_bounded in
    let each = v.one_each in
    let (widths, layers) = add_layers_total config 0 (stored_layers config) (omega arith) in
    let capacity_passes : (capacity == 0 || ltb config.context_length capacity) ≡ false =
      ground arith in
    let layers_pass : leb config.block_count config.shared_kv_layers ≡ false = ground arith in
    let cache : StateCache = record {
      config = config;
      capacity = capacity;
      prefix_length = 0;
      cursor = 0;
      keys = widths.0;
      values = widths.1;
    } in
    (cache, rw (capacity_passes, layers_pass, layers) refl)
