-- ===== src/Json/WellFormed.antt =====
-- The invariant of a `json::Value`: an object's keys ascend strictly, which `std::map` provides in the
-- program and `emplace` and `assign` in the model, and every number is finite.
use branchscore.Base.{◌≡◌, true, Bytes, arith, less, less_trans, less_total}
use branchscore.Double.{is_finite}
use branchscore.Json.Value.{
  Value, Items, Fields, null_value, boolean, number, string, array, object, no_items, item,
  no_fields, field, emplace,
}

-- Every key of the fields is greater than `k`.
abbrev pub Above : Bytes → Fields → Type 0
Above k no_fields = Unit
Above k (field j v fs) = (less k j ≡ true) × Above k fs

abbrev mutual
  pub IsWellFormed : Value → Type 0
  IsWellFormed null_value = Unit
  IsWellFormed (boolean b) = Unit
  IsWellFormed (number d) = is_finite d ≡ true
  IsWellFormed (string s) = Unit
  IsWellFormed (array xs) = WellFormedItems xs
  IsWellFormed (object fs) = WellFormedFields fs

  pub WellFormedItems : Items → Type 0
  WellFormedItems no_items = Unit
  WellFormedItems (item v xs) = IsWellFormed v × WellFormedItems xs

  pub WellFormedFields : Fields → Type 0
  WellFormedFields no_fields = Unit
  WellFormedFields (field k v fs) = Above k fs × IsWellFormed v × WellFormedFields fs

Above-trans : (k j : Bytes) (fs : Fields) → less k j ≡ true → Above j fs → Above k fs
Above-trans k j no_fields h a = tt
Above-trans k j (field i v fs) h a = (less_trans k j i h a.0, Above-trans k j fs h a.1)

Above-emplace :
    (j k : Bytes) (v : Value) (fs : Fields)
    → less j k ≡ true
    → Above j fs
    → Above j (emplace k v fs)
unfolding emplace
Above-emplace j k v no_fields h a = (h, tt)
Above-emplace j k v (field i w fs) h a = ground (arith, Above-emplace j k v fs h a.1)

pub emplace-WellFormed :
    (k : Bytes) (v : Value) (fs : Fields)
    → IsWellFormed v
    → WellFormedFields fs
    → WellFormedFields (emplace k v fs)
unfolding emplace
emplace-WellFormed k v no_fields h w = (tt, h, tt)
emplace-WellFormed k v (field i u fs) h w =
    ground (
      arith,
      Above-trans k i fs,
      Above-emplace i k v fs,
      less_total k i,
      emplace-WellFormed k v fs h,
    )
