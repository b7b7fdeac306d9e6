-- ===== src/Readout/Selected.antt =====
-- What `summarize_categorical` of src/categorical_readout.cpp selects.
use branchscore.Base.{
  ℕ, zero, suc, ◌+◌, ◌≤◌, ◌≡◌, ◌↔◌, inl, inr, refl, sym, ap, subst, ◌∙◌, Bool, true, false, not,
  ◌&&◌, ◌||◌, some, List, [], ◌∷◌, length, get_elem?, ◌==◌, ==_iff, Bool-cases, arith,
}
use branchscore.Double.{is_finite}
use branchscore.Readout.Float.{Float, is_finite_float, float_equal}
use branchscore.Readout.Summary.{
  Arithmetic, CategoricalSummary, max_element, sum_weights, probabilities, has_tie,
  summarize_categorical, is_not_positive,
}
use branchscore.Result.{ok, throw_if, runtime_error, ok_of_bind, ok-injective}
use branchscore.Readout.Maximum.{
  IsFirstMaximum, IsMaximumBefore, some-injective, within, bound_next, max_element-IsFirstMaximum,
}

-- Another score, from an index on, that compares equal
pub record Tie (scores : List Float) (selected : ℕ) (score : Float) (i : ℕ) : Type 0 where
  pub index : ℕ
  pub value : Float
  pub from : i ≤ index
  pub distinct : (index == selected) ≡ false
  pub there : get_elem? scores index ≡ some value
  pub equal_scores : float_equal value score ≡ true

has_tie_sound :
    (scores : List Float) (selected : ℕ) (score : Float) (i : ℕ) (values : List Float)
    → ((j k : ℕ) → k ≡ i + j → get_elem? scores k ≡ get_elem? values j)
    → has_tie selected score i values ≡ true
    → Tie scores selected score i
unfolding has_tie
has_tie_sound scores selected score i [] rest h = absurd (cc)
has_tie_sound scores selected score i (value ∷ values) rest h =
    elim (Bool-cases (not (i == selected) && float_equal value score)) [
      | inl found ↦ record {
        index = i;
        value = value;
        from = omega arith;
        distinct = ground arith;
        there = rest 0 i (omega arith);
        equal_scores = ground arith;
      }
      | inr other ↦
          let later =
            has_tie_sound scores selected score (suc i) values
              (λ j k e. rest (suc j) k (omega (arith, e))) (sym (rw other refl) ∙ h) in
          record {
            index = later.index;
            value = later.value;
            from = omega (arith, later.from);
            distinct = later.distinct;
            there = later.there;
            equal_scores = later.equal_scores;
          }
    ]

has_tie_complete :
    (scores : List Float) (selected : ℕ) (score : Float) (i : ℕ) (values : List Float)
    → ((j k : ℕ) → k ≡ i + j → get_elem? scores k ≡ get_elem? values j)
    → Tie scores selected score i
    → has_tie selected score i values ≡ true
unfolding has_tie
has_tie_complete scores selected score i [] rest t =
    absurd (omega (arith, t.from, within scores i t.index t.value rest t.there))
has_tie_complete scores selected score i (value ∷ values) rest t =
    elim (Bool-cases (i == t.index)) [
      | inl at_i ↦
          let e = (==_iff i t.index).0 at_i in
          let same : value ≡ t.value =
            some-injective (sym (rest 0 i (omega arith)) ∙ ap (get_elem? scores) e ∙ t.there) in
          let equal_here : float_equal value score ≡ true = rw same t.equal_scores in
          let apart : (i == selected) ≡ false = rw e t.distinct in ground arith
      | inr behind ↦
          let later =
            has_tie_complete scores selected score (suc i) values
              (λ j k e. rest (suc j) k (omega (arith, e)))
              (record {
                index = t.index;
                value = t.value;
                from = ground (arith, t.from);
                distinct = t.distinct;
                there = t.there;
                equal_scores = t.equal_scores;
              }) in
          ground (arith, later)
    ]

length-probabilities :
    (a : Arithmetic) (maximum : Float) (d : ℕ) (values : List Float)
    → length (probabilities a maximum d values) ≡ length values
unfolding probabilities
length-probabilities a maximum d [] = refl
length-probabilities a maximum d (v ∷ vs) = omega (arith, length-probabilities a maximum d vs)

-- The sum is only returned of finite numbers.
sum_weights-finite :
    (a : Arithmetic) (maximum : Float) (d sum : ℕ) (values : List Float)
    → sum_weights a maximum d values ≡ ok sum
    → (j : ℕ) (v : Float) → get_elem? values j ≡ some v
    → is_finite_float v ≡ true
unfolding sum_weights
sum_weights-finite a maximum d sum [] h j v e = absurd (cc)
sum_weights-finite a maximum d sum (value ∷ values) h j v e =
    let (u, finite, h₁) =
      ok_of_bind (throw_if (not (is_finite_float value)) runtime_error) _ sum h in
    at_index j (if_finite (is_finite_float value) u finite)
      (sum_weights-finite a maximum _ sum values h₁) e
  where
    if_finite : (b : Bool) (u : Unit {0}) → throw_if (not b) runtime_error ≡ ok u → b ≡ true
    if_finite true u q = refl
    if_finite false u q = absurd (cc)

    at_index :
        (j : ℕ)
        → is_finite_float value ≡ true
        → ((k : ℕ) (w : Float) → get_elem? values k ≡ some w → is_finite_float w ≡ true)
        → get_elem? (value ∷ values) j ≡ some v
        → is_finite_float v ≡ true
    at_index zero finite rest q = rw (sym (some-injective q)) finite
    at_index (suc k) finite rest q = rest k v q

behind_first :
    (first : Float) (rest : List Float) (j k : ℕ)
    → k ≡ 1 + j
    → get_elem? (first ∷ rest) k ≡ get_elem? rest j
behind_first first rest j zero e = absurd (omega (arith, e))
behind_first first rest j (suc k) e = ap (get_elem? rest) (omega (arith, e))

start : (first : Float) (rest : List Float) → IsMaximumBefore (first ∷ rest) 1 0 first
start first rest = record {
  stands_before = refl;
  index_before = omega arith;
  below = λ j v h e.
      bound_next (first ∷ rest) 0 j first v first refl (omega arith)
        (λ g. absurd (omega (arith, g))) h e;
  smaller = λ j v h e. absurd (omega (arith, h));
}

pub record IsSummary (scores : List Float) (summary : CategoricalSummary) : Type 0 where
  pub score : Float
  pub first_maximum : IsFirstMaximum scores summary.selected_index score
  pub tie_iff : (summary.exact_tie ≡ true) ↔ Tie scores summary.selected_index score 0
  pub one_each : length summary.relative_probabilities ≡ length scores

-- summarize_categorical selects the first of the largest scores, reports a tie exactly if another
-- score compares equal to it, and gives one probability to each score.
pub summarize_categorical_sound :
    (a : Arithmetic) (scores : List Float) (summary : CategoricalSummary)
    → summarize_categorical a scores ≡ ok summary
    → IsSummary scores summary
unfolding summarize_categorical
summarize_categorical_sound a [] summary h = absurd (cc)
summarize_categorical_sound a (first ∷ rest) summary h =
    let maximum = max_element 0 first 1 rest in
    let scores = first ∷ rest in
    let (u, _, h₁) =
      ok_of_bind (throw_if (not (is_finite_float maximum.1)) runtime_error) _ summary h in
    let (denominator, summed, h₂) = ok_of_bind (sum_weights a maximum.1 0 scores) _ summary h₁ in
    let (w, _, h₃) =
      ok_of_bind
        (throw_if (not (is_finite denominator) || is_not_positive denominator) runtime_error) _
        summary h₂ in
    let shift = λ (j k : ℕ) (e : k ≡ 0 + j). ap (get_elem? scores) (omega (arith, e)) in
    let finite = sum_weights-finite a maximum.1 0 denominator scores summed in
    subst (IsSummary scores) (ok-injective h₃) (record {
      score = maximum.1;
      first_maximum =
          max_element-IsFirstMaximum scores 0 first 1 rest finite (behind_first first rest)
            (start first rest);
      tie_iff = (
        has_tie_sound scores maximum.0 maximum.1 0 scores shift,
        has_tie_complete scores maximum.0 maximum.1 0 scores shift,
      );
      one_each = length-probabilities a maximum.1 denominator scores;
    })
