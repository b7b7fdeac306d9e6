-- ===== src/Adapter/Valid/Options.antt =====
-- The criteria that `parse_criteria` accepts pass the loop of `validate_options`.
use branchscore.Adapter.Request.{invalid_request, visible_description, parse_criteria, is_empty}
use branchscore.Base.{◌≡◌, refl, true, false, List, [], ◌∷◌, Bytes, less, less-equal, arith, length}
use branchscore.Decision.{DecisionOption}
use branchscore.Engine.Validate.{seen, validate_options}
use branchscore.Json.Value.{Value, Fields, null_value, string, no_fields, field, size}
use branchscore.Json.WellFormed.{WellFormedFields, Above}
use branchscore.Result.{Exception, ok, request_error, Outcome, Outcome-bind, Outcome-throw_if}

-- The exceptions that the server answers with a status of the client's fault.
abbrev pub IsRequestError : Exception → Type 0
IsRequestError (request_error code) = Unit
IsRequestError _ = ⊥

-- The options are the criteria, in order, with no empty text.
abbrev pub GoodOptions : Fields → List DecisionOption → Type 0
GoodOptions no_fields [] = Unit
GoodOptions no_fields (o ∷ os) = ⊥
GoodOptions (field k v fs) [] = ⊥
GoodOptions (field k v fs) (o ∷ os) =
    (o.id ≡ k) × (is_empty k ≡ false) × (is_empty o.description ≡ false) × GoodOptions fs os

pub visible_description-Outcome :
    (k : Bytes) (v : Value)
    → is_empty k ≡ false
    → Outcome (λ d. is_empty d ≡ false) IsRequestError (visible_description k v)
unfolding visible_description
visible_description-Outcome k null_value h = h
visible_description-Outcome [] (string s) h = absurd (cc)
visible_description-Outcome (c ∷ cs) (string s) h = refl
visible_description-Outcome k _ h = tt

pub parse_criteria-Outcome :
    (fs : Fields) → Outcome (GoodOptions fs) IsRequestError (parse_criteria fs)
unfolding parse_criteria
parse_criteria-Outcome no_fields = tt
parse_criteria-Outcome (field k v fs) =
    Outcome-throw_if (GoodOptions (field k v fs)) IsRequestError (is_empty k) invalid_request _ tt
      λ h.
        Outcome-bind (λ d. is_empty d ≡ false) (GoodOptions (field k v fs)) IsRequestError _ _
          (visible_description-Outcome k v h)
          λ d hd.
            Outcome-bind (GoodOptions fs) (GoodOptions (field k v fs)) IsRequestError _ _
              (parse_criteria-Outcome fs) λ os hos. (refl, h, hd, hos)

-- Every id inserted so far is below every key that follows.
abbrev pub Under : Bytes → List Bytes → Type 0
Under k [] = Unit
Under k (i ∷ is) = (less i k ≡ true) × Under k is

abbrev pub AllUnder : List Bytes → Fields → Type 0
AllUnder ids no_fields = Unit
AllUnder ids (field k v fs) = Under k ids × AllUnder ids fs

pub seen-Under : (k : Bytes) (ids : List Bytes) → Under k ids → seen k ids ≡ false
unfolding seen
seen-Under k [] u = refl
seen-Under k (i ∷ is) u = rw (less-equal i k u.0) (seen-Under k is u.1)

pub AllUnder-cons :
    (k : Bytes) (ids : List Bytes) (fs : Fields)
    → Above k fs
    → AllUnder ids fs
    → AllUnder (k ∷ ids) fs
AllUnder-cons k ids no_fields a u = tt
AllUnder-cons k ids (field j v fs) a u = ((a.0, u.0), AllUnder-cons k ids fs a.1 u.1)

pub validate_options-GoodOptions :
    (fs : Fields) (os : List DecisionOption) (ids : List Bytes)
    → GoodOptions fs os
    → WellFormedFields fs
    → AllUnder ids fs
    → validate_options ids os ≡ ok tt
unfolding validate_options
validate_options-GoodOptions no_fields [] ids g w u = refl
validate_options-GoodOptions no_fields (o ∷ os) ids g w u = elim g [ ]
validate_options-GoodOptions (field k v fs) [] ids g w u = elim g [ ]
validate_options-GoodOptions (field k v fs) (o ∷ os) ids g w u =
    rw (g.0, g.1, g.2, seen-Under k ids u.0)
      (validate_options-GoodOptions fs os (k ∷ ids) g.3 w.2 (AllUnder-cons k ids fs w.0 u.1))

pub length-GoodOptions :
    (fs : Fields) (os : List DecisionOption) → GoodOptions fs os → length os ≡ size fs
unfolding size
length-GoodOptions no_fields [] g = refl
length-GoodOptions no_fields (o ∷ os) g = elim g [ ]
length-GoodOptions (field k v fs) [] g = elim g [ ]
length-GoodOptions (field k v fs) (o ∷ os) g = omega (arith, length-GoodOptions fs os g.3)

pub AllUnder-empty : (fs : Fields) → AllUnder [] fs
AllUnder-empty no_fields = tt
AllUnder-empty (field k v fs) = (tt, AllUnder-empty fs)
