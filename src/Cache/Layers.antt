-- ===== src/Cache/Layers.antt =====
-- The layers and the prefix of `StateCache` of src/state_cache.cpp.
use branchscore.Base.{
  ℕ, zero, suc, ◌^◌, ◌≤◌, ◌<◌, ◌≡◌, refl, sym, ap, ◌∙◌, Bool, true, false, Option, none, some, List,
  [], ◌∷◌, length, get_elem?, arith, Bool-cases, inl, inr, if◌then◌else◌,
}
use branchscore.Cache.State.{
  TextModelConfig, is_sliding_window, sub32, stored_layers, differ, shared_source,
}
use branchscore.Result.{ok, throw, out_of_range, ok_of_bind}

get_elem?-length : (xs : List Bool) (i : ℕ) (b : Bool) → get_elem? xs i ≡ some b → i < length xs
get_elem?-length [] i b e = absurd (cc)
get_elem?-length (x ∷ xs) zero b e = omega arith
get_elem?-length (x ∷ xs) (suc i) b e = omega (arith, get_elem?-length xs i b e)

is_sliding_window-length :
    (config : TextModelConfig) (layer : ℕ) (b : Bool)
    → is_sliding_window config layer ≡ ok b
    → layer < length config.sliding_window_pattern
unfolding is_sliding_window
is_sliding_window-length config layer b e =
    found (get_elem? config.sliding_window_pattern layer) e
      λ c h. get_elem?-length config.sliding_window_pattern layer c h
  where
    found :
        (o : Option Bool)
        → (elim o [ none ↦ throw out_of_range | some sliding ↦ ok sliding ]) ≡ ok b
        → ((c : Bool) → o ≡ some c → layer < length config.sliding_window_pattern)
        → layer < length config.sliding_window_pattern
    found none h k = absurd (cc)
    found (some c) h k = k c refl

-- What the loader establishes, and the constructor checks.
pub record IsValid (config : TextModelConfig) : Type 0 where
  pub blocks_bounded : config.block_count < 2 ^ 32
  pub some_stored : config.shared_kv_layers < config.block_count
  pub one_each : length config.sliding_window_pattern ≡ config.block_count

differ-false : (a b : Bool) → differ a b ≡ false → a ≡ b
differ-false true true e = refl
differ-false true false e = absurd (cc)
differ-false false true e = absurd (cc)
differ-false false false e = refl

-- Where the subtraction wraps around, the result is no layer.
source-lt :
    (config : TextModelConfig) (k : ℕ)
    → IsValid config
    → 1 ≤ k
    → k ≤ 2
    → sub32 (stored_layers config) k < length config.sliding_window_pattern
    → sub32 (stored_layers config) k < stored_layers config
source-lt config k v one two inside = omega (arith, v.blocks_bounded, v.some_stored, v.one_each)

below :
    (config : TextModelConfig)
    → IsValid config
    → (sliding : Bool)
    → sub32 (stored_layers config) (if sliding then 2 else 1) < length config.sliding_window_pattern
    → sub32 (stored_layers config) (if sliding then 2 else 1) < stored_layers config
below config v true inside = source-lt config 2 v (omega arith) (omega arith) inside
below config v false inside = source-lt config 1 v (omega arith) (omega arith) inside

-- For a valid configuration, a shared layer reads a stored layer of its own kind: the source that
-- `source_layer` returns is below the number of stored layers, although the subtraction can wrap
-- around, and it slides exactly if the layer does.
pub shared_source_sound :
    (config : TextModelConfig) (layer source : ℕ)
    → IsValid config
    → shared_source config layer ≡ ok source
    → (source < stored_layers config)
      × (is_sliding_window config source ≡ is_sliding_window config layer)
unfolding shared_source
shared_source_sound config layer source v e =
    let (sliding, h, e₁) = ok_of_bind (is_sliding_window config layer) _ source e in
    let at : ℕ = sub32 (stored_layers config) (if sliding then 2 else 1) in
    let (kind, h₁, e₂) = ok_of_bind (is_sliding_window config at) _ source e₁ in
    elim (Bool-cases (differ kind sliding)) [
      | inl other ↦ absurd (ground arith)
      | inr alike ↦
          let same : at ≡ source = ground arith in
          let kinds = differ-false kind sliding alike in
          let inside = is_sliding_window-length config at kind h₁ in
          (rw (sym same) (below config v sliding inside), rw (sym same) (h₁ ∙ ap ok kinds ∙ sym h))
    ]
