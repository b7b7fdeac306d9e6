-- ===== src/Adapter/Base64/Rounds.antt =====
-- The decoder of src/systemone_adapter.cpp on what the encoder writes.
use branchscore.Adapter.Base64.{
  pad, is_empty, decode_digit, decode_padded, emit_bytes, decode_round, decode_rounds, encode_digit,
  encode, AllBytes,
}
use branchscore.Base.{
  ℕ, ◌+◌, ◌*◌, ◌/◌, ◌%◌, ◌<◌, ◌≡◌, refl, Bool, true, false, some, [], ◌∷◌, Bytes, arith, ◌==◌,
  length,
}
use branchscore.Result.{ok}

decode-encode_digit : (d : ℕ) → d < 64 → decode_digit (encode_digit d) ≡ some d
unfolding decode_digit encode_digit
decode-encode_digit d h = ground arith

encode_digit-ne-pad : (d : ℕ) → d < 64 → (encode_digit d == pad) ≡ false
unfolding encode_digit
encode_digit-ne-pad d h = ground arith

pub decode_digit_sound : (c d : ℕ) → decode_digit c ≡ some d → (c ≡ encode_digit d) × (d < 64)
unfolding decode_digit encode_digit
decode_digit_sound c d h = ground arith

-- The rounds on what the encoder writes.
module _ (x y z : ℕ) (hx : x < 256) (hy : y < 256) (hz : z < 256) where
  round_full :
      (last : Bool)
      → decode_round last
          (encode_digit (x / 4))
          (encode_digit (x % 4 * 16 + y / 16))
          (encode_digit (y % 16 * 4 + z / 64))
          (encode_digit (z % 64))
        ≡ ok (x ∷ y ∷ z ∷ [])
  unfolding decode_round decode_padded emit_bytes
  round_full last = ground (
    arith,
    decode-encode_digit (x / 4) (omega arith),
    decode-encode_digit (x % 4 * 16 + y / 16) (omega arith),
    decode-encode_digit (y % 16 * 4 + z / 64) (omega arith),
    decode-encode_digit (z % 64) (omega arith),
    encode_digit-ne-pad (y % 16 * 4 + z / 64) (omega arith),
    encode_digit-ne-pad (z % 64) (omega arith),
  )

  round_two :
      decode_round true
        (encode_digit (x / 4))
        (encode_digit (x % 4 * 16 + y / 16))
        (encode_digit (y % 16 * 4))
        pad
      ≡ ok (x ∷ y ∷ [])
  unfolding decode_round decode_padded emit_bytes
  round_two = ground (
    arith,
    decode-encode_digit (x / 4) (omega arith),
    decode-encode_digit (x % 4 * 16 + y / 16) (omega arith),
    decode-encode_digit (y % 16 * 4) (omega arith),
    encode_digit-ne-pad (y % 16 * 4) (omega arith),
  )

  round_one :
      decode_round true (encode_digit (x / 4)) (encode_digit (x % 4 * 16)) pad pad ≡ ok (x ∷ [])
  unfolding decode_round decode_padded emit_bytes
  round_one = ground (
    arith,
    decode-encode_digit (x / 4) (omega arith),
    decode-encode_digit (x % 4 * 16) (omega arith),
  )

pub decode_rounds-encode : (bs : Bytes) → AllBytes bs → decode_rounds (encode bs) ≡ ok bs
unfolding decode_rounds encode
decode_rounds-encode [] h = refl
decode_rounds-encode (x ∷ []) h = rw (round_one x 0 0 h.0 (omega arith) (omega arith))
decode_rounds-encode (x ∷ y ∷ []) h = rw (round_two x y 0 h.0 h.1.0 (omega arith))
decode_rounds-encode (x ∷ y ∷ z ∷ rest) h =
    let last = is_empty (encode rest) in
    rw (round_full x y z h.0 h.1.0 h.1.1.0 last, decode_rounds-encode rest h.1.1.1)

pub length-encode : (bs : Bytes) → length (encode bs) % 4 ≡ 0
unfolding encode
length-encode [] = refl
length-encode (x ∷ []) = refl
length-encode (x ∷ y ∷ []) = refl
length-encode (x ∷ y ∷ z ∷ rest) = omega (arith, length-encode rest)
