-- ===== src/Adapter/Base64.antt =====
-- `decode_base64` of src/systemone_adapter.cpp, against the encoding of RFC 4648.
pub mod Rounds
pub mod Invert
pub mod Canonical
use branchscore.Base.{
  ℕ, ◌+◌, ◌-◌, ◌*◌, ◌/◌, ◌%◌, ◌<◌, ◌≡◌, ◌≢◌, ◌↔◌, ◌⊎◌, refl, ap, sym, ◌∙◌, Bool, true, false, not,
  ◌&&◌, ◌||◌, Option, none, some, [], ◌∷◌, ◌++◌, Bytes, arith, ltb, leb, ◌==◌, if◌then◌else◌,
  length, inl, inr, Option-cases, append-nil,
}
use mathlib.Core.Path.{subst}
use branchscore.Result.{
  Result, ok, throw, out_of_fuel, out_of_range, request_error, Outcome, ◌>>=◌, ok_of_bind,
  ok-injective,
}

abbrev pub malformed {ℓ} : {A : Type ℓ} → Result A
malformed = throw (request_error "invalid_image")

-- `none` is the result -1.
unfoldable pub decode_digit : ℕ → Option ℕ
decode_digit c =
    if leb b'A' c && leb c b'Z'
    then some (c - b'A')
    else if leb b'a' c && leb c b'z'
    then some (c - b'a' + 26)
    else if leb b'0' c && leb c b'9'
    then some (c - b'0' + 52)
    else if c == b'+'
    then some 62
    else if c == b'/'
    then some 63
    else none

abbrev pub pad : ℕ
pad = b'='

-- A padding byte counts as the digit 0.
unfoldable pub decode_padded : ℕ → Option ℕ
decode_padded c = if c == pad then some 0 else decode_digit c

-- The bytes of one round, from its digits.
unfoldable pub emit_bytes : ℕ → ℕ → ℕ → ℕ → Bool → Bool → Bytes
emit_bytes a b c d pad2 pad3 =
    let bits = a * 262144 + b * 4096 + c * 64 + d in
    (bits / 65536 % 256)
    ∷ ((if pad2 then [] else bits / 256 % 256 ∷ []) ++ (if pad3 then [] else bits % 256 ∷ []))

-- One round of the loop; `last` is `offset + 4 == encoded.size()`.
unfoldable pub decode_round : Bool → ℕ → ℕ → ℕ → ℕ → Result Bytes
decode_round last c0 c1 c2 c3 = elim (decode_digit c0) [
  | none ↦ malformed
  | some a ↦ elim (decode_digit c1) [
    | none ↦ malformed
    | some b ↦ elim (decode_padded c2) [
      | none ↦ malformed
      | some c ↦ elim (decode_padded c3) [
        | none ↦ malformed
        | some d ↦
            if ((c2 == pad || c3 == pad) && not last)
              || (c2 == pad && not (c3 == pad))
              || (c2 == pad && not (b % 16 == 0))
              || (c3 == pad && not (c2 == pad) && not (c % 4 == 0))
            then malformed
            else ok (emit_bytes a b c d (c2 == pad) (c3 == pad))
      ]
    ]
  ]
]

abbrev pub is_empty : Bytes → Bool
is_empty [] = true
is_empty (c ∷ cs) = false

-- The loop. The size is a multiple of four, so the last clause is not reached.
unfoldable pub decode_rounds : Bytes → Result Bytes
decode_rounds [] = ok []
decode_rounds (c0 ∷ c1 ∷ c2 ∷ c3 ∷ rest) = do
  out ← decode_round (is_empty rest) c0 c1 c2 c3
  more ← decode_rounds rest
  ok (out ++ more)
decode_rounds _ = throw out_of_range

unfoldable pub decode_base64 : Bytes → Result Bytes
decode_base64 encoded =
    if is_empty encoded || not (length encoded % 4 == 0) then malformed else decode_rounds encoded

-- The alphabet and the encoder of the standard.
unfoldable pub encode_digit : ℕ → ℕ
encode_digit d =
    if ltb d 26
    then b'A' + d
    else if ltb d 52
    then b'a' + (d - 26)
    else if ltb d 62
    then b'0' + (d - 52)
    else if d == 62
    then b'+'
    else b'/'

unfoldable pub encode : Bytes → Bytes
unfolding encode_digit
encode [] = []
encode (x ∷ []) = encode_digit (x / 4) ∷ encode_digit (x % 4 * 16) ∷ pad ∷ pad ∷ []
encode (x ∷ y ∷ []) =
    encode_digit (x / 4) ∷ encode_digit (x % 4 * 16 + y / 16) ∷ encode_digit (y % 16 * 4) ∷ pad ∷ []
encode (x ∷ y ∷ z ∷ rest) =
    encode_digit (x / 4)
    ∷ encode_digit (x % 4 * 16 + y / 16)
    ∷ encode_digit (y % 16 * 4 + z / 64)
    ∷ encode_digit (z % 64)
    ∷ encode rest

abbrev pub AllBytes : Bytes → Type 0
AllBytes [] = Unit
AllBytes (c ∷ cs) = (c < 256) × AllBytes cs
