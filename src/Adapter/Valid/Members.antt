-- ===== src/Adapter/Valid/Members.antt =====
-- What the helpers of `parse_request` return, and what they throw.
use branchscore.Adapter.Request.{
  invalid_request, required, required_string, require_object, reject_unknown_fields,
  serialize_state, parse_image, rethrow, is_empty, png_signature, jpeg_signature,
}
use branchscore.Adapter.Base64.{decode_base64}
use branchscore.Adapter.Base64.Canonical.{decode_base64-Refuses}
use branchscore.Base.{
  starts_with, ◌≡◌, refl, false, not, Option, none, some, List, Bytes, codes, equal, arith, ◌&&◌,
  if◌then◌else◌, Bool-cases, inl, inr,
}
use mathlib.Core.Path.{subst}
use branchscore.Double.{Libc}
use branchscore.Image.Inspect.{StbiInfo, inspect_encoded}
use branchscore.Json.Render.{stringify-render}
use branchscore.Json.Value.{Value, Fields, string, array, object, no_fields, field, find, lookup}
use branchscore.Json.WellFormed.{IsWellFormed, WellFormedFields}
use branchscore.Result.{
  ok, throw, request_error, Outcome, Outcome-bind, Outcome-throw_if, Outcome-weaken,
}
use branchscore.Adapter.Valid.Options.{IsRequestError}

-- Parts of a well-formed value are well formed.
pub lookup-IsWellFormed :
    (k : Bytes) (fs : Fields) {v : Value}
    → WellFormedFields fs
    → lookup k fs ≡ some v
    → IsWellFormed v
unfolding lookup
lookup-IsWellFormed k no_fields w h = absurd (cc)
lookup-IsWellFormed k (field j u fs) {v} w h = elim (Bool-cases (equal j k)) [
  | inl e ↦ let same : u ≡ v = ground arith in subst IsWellFormed same w.1
  | inr e ↦ let later : lookup k fs ≡ some v = ground arith in lookup-IsWellFormed k fs w.2 later
]

pub find-IsWellFormed :
    (k : Bytes) (u : Value) {v : Value} → IsWellFormed u → find k u ≡ some v → IsWellFormed v
unfolding find
find-IsWellFormed k (object fs) w h = unfold lookup in lookup-IsWellFormed k fs w h
find-IsWellFormed k _ w h = absurd (cc)

abbrev pub Any {ℓ} : {A : Type ℓ} → A → Type 0
Any a = Unit

pub required-Outcome :
    (u : Value) (k : Bytes) → IsWellFormed u → Outcome IsWellFormed IsRequestError (required u k)
unfolding required
required-Outcome u k w = found (find k u) λ v e. find-IsWellFormed k u w e
  where
    found :
        (o : Option Value)
        → ((v : Value) → o ≡ some v → IsWellFormed v)
        → Outcome IsWellFormed IsRequestError
            (elim o [ none ↦ throw invalid_request | some w ↦ ok w ])
    found none h = tt
    found (some v) h = h v refl

pub required_string-Outcome :
    (u : Value) (k : Bytes) → IsWellFormed u → Outcome Any IsRequestError (required_string u k)
unfolding required_string
required_string-Outcome u k w =
    Outcome-bind IsWellFormed Any IsRequestError _ _ (required-Outcome u k w) λ v _. by_kind v
  where
    by_kind :
        (v : Value)
        → Outcome Any IsRequestError (elim v [ string s ↦ ok s | _ ↦ throw invalid_request ])
    by_kind (string s) = tt
    by_kind _ = tt

pub require_object-Outcome :
    (u : Value) → IsWellFormed u → Outcome WellFormedFields IsRequestError (require_object u)
unfolding require_object
require_object-Outcome (object fs) w = w
require_object-Outcome _ w = tt

pub reject_unknown_fields-Outcome :
    (fs : Fields) (supported : List Bytes)
    → Outcome Any IsRequestError (reject_unknown_fields fs supported)
unfolding reject_unknown_fields
reject_unknown_fields-Outcome no_fields supported = tt
reject_unknown_fields-Outcome (field k v fs) supported =
    ground (arith, reject_unknown_fields-Outcome fs supported)

abbrev pub StateIsGood : Bytes → Type 0
StateIsGood s = is_empty s ≡ false

pub serialize_state-Outcome :
    (libc : Libc) (v : Value)
    → IsWellFormed v
    → Outcome StateIsGood IsRequestError (serialize_state libc v)
unfolding serialize_state
serialize_state-Outcome libc (string s) w = ground arith
serialize_state-Outcome libc (array xs) w = rw (stringify-render libc (array xs) w) refl
serialize_state-Outcome libc (object fs) w = rw (stringify-render libc (object fs) w) refl
serialize_state-Outcome libc _ w = tt

pub rethrow-inspect_encoded :
    (stbi_info : StbiInfo) (bytes : Bytes)
    → Outcome Any IsRequestError
        (rethrow (request_error "invalid_image") (inspect_encoded stbi_info bytes))
unfolding inspect_encoded
rethrow-inspect_encoded stbi_info bytes = ground arith

pub decode_base64-Outcome : (s : Bytes) → Outcome Any IsRequestError (decode_base64 s)
decode_base64-Outcome s =
    Outcome-weaken Any (λ e. e ≡ request_error "invalid_image") IsRequestError (decode_base64 s)
      (decode_base64-Refuses s) λ e h. rw h tt

pub parse_image-Outcome :
    (stbi_info : StbiInfo) (v : Value)
    → IsWellFormed v
    → Outcome Any IsRequestError (parse_image stbi_info v)
unfolding parse_image
parse_image-Outcome stbi_info v w =
    Outcome-bind WellFormedFields Any IsRequestError _ _ (require_object-Outcome v w) λ fs _.
      Outcome-bind Any Any IsRequestError _ _ (reject_unknown_fields-Outcome fs _) λ _ _.
        Outcome-bind Any Any IsRequestError _ _ (required_string-Outcome v (codes "media_type") w)
          λ media_type _.
            Outcome-bind Any Any IsRequestError _ _
              (required_string-Outcome v (codes "data_base64") w)
              λ encoded _.
                Outcome-throw_if Any IsRequestError
                  (not (equal media_type (codes "image/png"))
                    && not (equal media_type (codes "image/jpeg")))
                  (request_error "unsupported_media_type") _ tt
                  λ _.
                    Outcome-bind Any Any IsRequestError _ _ (decode_base64-Outcome encoded)
                      λ bytes _.
                        Outcome-throw_if Any IsRequestError
                          (not (
                            if (equal media_type (codes "image/png"))
                            then starts_with png_signature bytes
                            else starts_with jpeg_signature bytes))
                          (request_error "invalid_image") _ tt
                          λ _.
                            Outcome-bind Any Any IsRequestError _ _
                              (rethrow-inspect_encoded stbi_info bytes) λ _ _. tt
