-- ===== src/Readout/Summary.antt =====
-- The checks of `gather_categorical_logits`, and `summarize_categorical`, of
-- src/categorical_readout.cpp.
use branchscore.Base.{
  ℕ, suc, ◌^◌, Bool, true, false, not, ◌&&◌, ◌||◌, Option, none, some, List, [], ◌∷◌, leb, ◌==◌,
  if◌then◌else◌, length,
}
use branchscore.Decision.{TokenId}
use branchscore.Double.{Double, is_finite}
use branchscore.Readout.Float.{Float, is_finite_float, float_less, float_equal}
use branchscore.Result.{Result, ok, throw, runtime_error, throw_if, ◌>>=◌, ◌>>◌}

-- The arithmetic of `double`, with the conversion of a `float`, and `std::exp`
pub record Arithmetic : Type 0 where
  pub widen : Float → Double
  pub add : Double → Double → Double
  pub subtract : Double → Double → Double
  pub divide : Double → Double → Double
  pub exp : Double → Double

-- What the code asks of the Prefill state and of ggml: the number of logits, where there are any,
-- and the logits at some ids, which the computation may fail to give.
pub record Logits : Type 0 where
  pub vocabulary : Option ℕ
  pub gather : List TokenId → Option (List Float)

pub record CategoricalSummary : Type 0 where
  pub relative_probabilities : List Double
  pub selected_index : ℕ
  pub exact_tie : Bool

unfoldable pub all_inside : ℕ → List TokenId → Bool
all_inside vocabulary_size [] = true
all_inside vocabulary_size (id ∷ ids) =
    if leb vocabulary_size id then false else all_inside vocabulary_size ids

unfoldable pub all_finite : List Float → Bool
all_finite [] = true
all_finite (value ∷ values) = is_finite_float value && all_finite values

-- The graph that was computed, or the exception
unfoldable pub computed : Option (List Float) → Result (List Float)
computed none = throw runtime_error
computed (some values) = ok values

unfoldable pub vocabulary_of : Option ℕ → Result ℕ
vocabulary_of none = throw runtime_error
vocabulary_of (some n) = ok n

unfoldable pub gather_categorical_logits : Logits → List TokenId → Result (List Float)
gather_categorical_logits state ids =
    throw_if (length ids == 0) runtime_error
    >> (vocabulary_of state.vocabulary >>= λ vocabulary_size.
        throw_if (not (all_inside vocabulary_size ids)) runtime_error
        >> (computed (state.gather ids) >>= λ raw_scores.
            throw_if (not (all_finite raw_scores)) runtime_error >> ok raw_scores))

-- `std::max_element` behind a largest element at `best`; the next element has the index `i`.
unfoldable pub max_element : ℕ → Float → ℕ → List Float → ℕ × Float
max_element best largest i [] = (best, largest)
max_element best largest i (value ∷ values) =
    let kept = max_element best largest (suc i) values in
    let moved = max_element i value (suc i) values in
    if float_less largest value then moved else kept

-- `std::exp(value - maximum)`
abbrev pub weight : Arithmetic → Float → Float → Double
weight a maximum value = a.exp (a.subtract (a.widen value) (a.widen maximum))

-- The loop that adds up the denominator
unfoldable pub sum_weights : Arithmetic → Float → Double → List Float → Result Double
sum_weights a maximum denominator [] = ok denominator
sum_weights a maximum denominator (value ∷ values) =
    throw_if (not (is_finite_float value)) runtime_error
    >> sum_weights a maximum (a.add denominator (weight a maximum value)) values

-- `denominator <= 0.0`, of a number that is finite
unfoldable pub is_not_positive : Double → Bool
is_not_positive d = d == 0 || leb (2 ^ 63) d

unfoldable pub probabilities : Arithmetic → Float → Double → List Float → List Double
probabilities a maximum denominator [] = []
probabilities a maximum denominator (value ∷ values) =
    a.divide (weight a maximum value) denominator ∷ probabilities a maximum denominator values

-- The last loop, from an index on
unfoldable pub has_tie : ℕ → Float → ℕ → List Float → Bool
has_tie selected score index [] = false
has_tie selected score index (value ∷ values) =
    let later = has_tie selected score (suc index) values in
    if not (index == selected) && float_equal value score then true else later

unfoldable pub summarize_categorical : Arithmetic → List Float → Result CategoricalSummary
summarize_categorical a [] = throw runtime_error
summarize_categorical a (first ∷ rest) =
    let maximum = max_element 0 first 1 rest in
    throw_if (not (is_finite_float maximum.1)) runtime_error
    >> (sum_weights a maximum.1 0 (first ∷ rest) >>= λ denominator.
        throw_if (not (is_finite denominator) || is_not_positive denominator) runtime_error
        >> ok (record {
          relative_probabilities = probabilities a maximum.1 denominator (first ∷ rest);
          selected_index = maximum.0;
          exact_tie = has_tie maximum.0 maximum.1 0 (first ∷ rest);
        }))
