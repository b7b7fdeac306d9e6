-- ===== src/Json/Returns.antt =====
-- `stringify` of src/json.cpp returns or throws: the recursion is on the value.
use branchscore.Base.{Bool, true, false, ◌++◌, ◌∷◌, [], Bytes}
use branchscore.Double.{is_finite, Libc}
use branchscore.Json.Printer.{
  separate, append_escaped, append_value, append_items, append_fields, stringify,
}
use branchscore.Json.Value.{
  Value, Items, Fields, null_value, boolean, number, string, array, object, no_items, item,
  no_fields, field,
}
use branchscore.Result.{ok, throw, runtime_error, Ensures, Ensures-bind, Ensures-if}

abbrev Any {ℓ} : {A : Type ℓ} → A → Type 0
Any a = Unit

module _ (libc : Libc) where
  mutual
    unfolding append_value append_items append_fields

    append_value-Returns : (out : Bytes) (v : Value) → Ensures Any (append_value libc out v)
    append_value-Returns out null_value = tt
    append_value-Returns out (boolean b) = tt
    append_value-Returns out (number d) =
        Ensures-if Any (is_finite d) (ok (out ++ libc.print_double d)) (throw runtime_error)
          (λ h. tt) λ h. tt
    append_value-Returns out (string s) = tt
    append_value-Returns out (array xs) =
        Ensures-bind Any Any _ _ (append_items-Returns (out ++ b'[' ∷ []) true xs) λ a _. tt
    append_value-Returns out (object fs) =
        Ensures-bind Any Any _ _ (append_fields-Returns (out ++ b'{' ∷ []) true fs) λ a _. tt

    append_items-Returns :
        (out : Bytes) (first : Bool) (xs : Items) → Ensures Any (append_items libc out first xs)
    append_items-Returns out first no_items = tt
    append_items-Returns out first (item v xs) =
        Ensures-bind Any Any _ _ (append_value-Returns (separate out first) v)
          λ a _. append_items-Returns a false xs

    append_fields-Returns :
        (out : Bytes) (first : Bool) (fs : Fields) → Ensures Any (append_fields libc out first fs)
    append_fields-Returns out first no_fields = tt
    append_fields-Returns out first (field k v fs) =
        Ensures-bind Any Any _ _
          (append_value-Returns (append_escaped (separate out first) k ++ b':' ∷ []) v)
          λ a _. append_fields-Returns a false fs

  pub stringify-Returns : (v : Value) → Ensures Any (stringify libc v)
  unfolding stringify
  stringify-Returns v = append_value-Returns [] v
