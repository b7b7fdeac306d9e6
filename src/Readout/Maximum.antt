-- ===== src/Readout/Maximum.antt =====
-- The first maximum of `std::max_element` in src/categorical_readout.cpp.
use branchscore.Base.{
  ℕ, suc, ◌+◌, ◌-◌, ◌<◌, ◌≤◌, ◌≡◌, inl, inr, sym, ap, ◌∙◌, true, none, some, List, [], ◌∷◌,
  get_elem?, ltb, ltb→lt, ◌==◌, Bool-cases, arith,
}
use branchscore.Readout.Float.{Float, is_finite_float, is_nan, place, float_less, float_equal}
use branchscore.Readout.Summary.{max_element}

pub some-injective : {a b : Float} → some a ≡ some b → a ≡ b
some-injective h = cc

pub float_less_finite :
    (a b : Float)
    → is_finite_float a ≡ true
    → is_finite_float b ≡ true
    → float_less a b ≡ ltb (place a) (place b)
unfolding float_less is_finite_float is_nan
float_less_finite a b h g = ground arith

pub float_equal_finite :
    (a b : Float)
    → is_finite_float a ≡ true
    → is_finite_float b ≡ true
    → float_equal a b ≡ (place a == place b)
unfolding float_equal is_finite_float is_nan
float_equal_finite a b h g = ground arith

-- The first of the largest scores
pub record IsFirstMaximum (scores : List Float) (index : ℕ) (largest : Float) : Type 0 where
  pub stands : get_elem? scores index ≡ some largest
  pub none_larger : (j : ℕ) (v : Float) → get_elem? scores j ≡ some v → place v ≤ place largest
  pub earlier_smaller :
      (j : ℕ) (v : Float) → get_elem? scores j ≡ some v → j < index → place v < place largest

-- The same of the scores before an index
pub record IsMaximumBefore (scores : List Float) (i index : ℕ) (largest : Float) : Type 0 where
  pub stands_before : get_elem? scores index ≡ some largest
  pub index_before : index < i
  pub below : (j : ℕ) (v : Float) → j < i → get_elem? scores j ≡ some v → place v ≤ place largest
  pub smaller :
      (j : ℕ) (v : Float) → j < index → get_elem? scores j ≡ some v → place v < place largest

-- An index at which there is an element, where none is left from `i` on
pub within :
    (scores : List Float) (i j : ℕ) (v : Float)
    → ((n k : ℕ) → k ≡ i + n → get_elem? scores k ≡ get_elem? {A = Float} [] n)
    → get_elem? scores j ≡ some v
    → j < i
within scores i j v rest e = elim (Bool-cases (ltb j i)) [
  | inl before ↦ ltb→lt j i before
  | inr behind ↦ absurd (not_there (sym (rest (j - i) j (ground arith)) ∙ e))
]
  where
    not_there : none ≡ some v → ⊥
    not_there h = cc

-- The element at an index, or an earlier one
pub bound_next :
    (scores : List Float) (i j : ℕ) (value v bound : Float)
    → get_elem? scores i ≡ some value
    → place value ≤ place bound
    → (j < i → place v ≤ place bound)
    → j < suc i
    → get_elem? scores j ≡ some v
    → place v ≤ place bound
bound_next scores i j value v bound here small earlier h e = elim (Bool-cases (ltb j i)) [
  | inl before ↦ earlier (ltb→lt j i before)
  | inr behind ↦
      let at_i : i ≡ j = ground arith in
      let same : value ≡ v = some-injective (sym here ∙ ap (get_elem? scores) at_i ∙ e) in
      rw (sym same) small
]

pub max_element-IsFirstMaximum :
    (scores : List Float) (best : ℕ) (largest : Float) (i : ℕ) (values : List Float)
    → ((j : ℕ) (v : Float) → get_elem? scores j ≡ some v → is_finite_float v ≡ true)
    → ((j k : ℕ) → k ≡ i + j → get_elem? scores k ≡ get_elem? values j)
    → IsMaximumBefore scores i best largest
    → IsFirstMaximum scores
        (max_element best largest i values).0
        (max_element best largest i values).1
unfolding max_element
max_element-IsFirstMaximum scores best largest i [] finite rest m =
    let inside =
      λ (j : ℕ) (v : Float) (e : get_elem? scores j ≡ some v). within scores i j v rest e in
    record {
      stands = m.stands_before;
      none_larger = λ j v e. m.below j v (inside j v e) e;
      earlier_smaller = λ j v e h. m.smaller j v h e;
    }
max_element-IsFirstMaximum scores best largest i (value ∷ values) finite rest m =
    let here : get_elem? scores i ≡ some value = rest 0 i (omega arith) in
    let fl = finite best largest m.stands_before in
    let fv = finite i value here in
    let compared = float_less_finite largest value fl fv in
    let above : float_less largest value ≡ true → place largest < place value =
      λ larger. ltb→lt (place largest) (place value) (sym compared ∙ larger) in
    elim (Bool-cases (float_less largest value)) [
      | inl larger ↦ rw larger (
          max_element-IsFirstMaximum scores i value (suc i) values finite
            (λ j k e. rest (suc j) k (omega (arith, e)))
            (record {
              stands_before = here;
              index_before = omega arith;
              below = λ j v h e.
                  bound_next scores i j value v value here (omega arith)
                    (λ g. omega (arith, m.below j v g e, above larger)) h e;
              smaller = λ j v h e. omega (arith, m.below j v h e, above larger);
            }))
      | inr other ↦ rw other (
          max_element-IsFirstMaximum scores best largest (suc i) values finite
            (λ j k e. rest (suc j) k (omega (arith, e)))
            (record {
              stands_before = m.stands_before;
              index_before = omega (arith, m.index_before);
              below = λ j v h e.
                  bound_next scores i j value v largest here (ground arith) (λ g. m.below j v g e) h
                    e;
              smaller = m.smaller;
            }))
    ]
