-- ===== src/Adapter/Base64/Invert.antt =====
-- One round of `decode_base64` of src/systemone_adapter.cpp: what it says of its input when it returns.
use branchscore.Adapter.Base64.{
  pad, decode_digit, decode_padded, emit_bytes, decode_round, encode_digit, encode, AllBytes,
}
use branchscore.Adapter.Base64.Rounds.{decode_digit_sound}
use branchscore.Base.{
  ℕ, ◌+◌, ◌*◌, ◌/◌, ◌%◌, ◌<◌, ◌≡◌, ◌⊎◌, refl, ap, sym, ◌∙◌, Bool, true, false, some, [], ◌∷◌, Bytes,
  arith, ◌==◌, inl, inr, Option-cases,
}
use mathlib.Core.Path.{subst}
use branchscore.Result.{ok}

-- What a round that returns says of its input, by the place of the padding.
pub record FullRound (c0 c1 c2 c3 : ℕ) (out : Bytes) : Type 0 where
  pub x : ℕ
  pub y : ℕ
  pub z : ℕ
  pub out_is : out ≡ x ∷ y ∷ z ∷ []
  pub x_byte : x < 256
  pub y_byte : y < 256
  pub z_byte : z < 256
  pub is0 : c0 ≡ encode_digit (x / 4)
  pub is1 : c1 ≡ encode_digit (x % 4 * 16 + y / 16)
  pub is2 : c2 ≡ encode_digit (y % 16 * 4 + z / 64)
  pub is3 : c3 ≡ encode_digit (z % 64)

pub record LastRound (last : Bool) (c0 c1 c2 c3 : ℕ) (out : Bytes) : Type 0 where
  pub is_last : last ≡ true
  pub bytes : AllBytes out
  pub encoded : c0 ∷ c1 ∷ c2 ∷ c3 ∷ [] ≡ encode out

module _ (a b c d c0 c1 c2 c3 : ℕ) (ha : a < 64) (hb : b < 64) (hc : c < 64) (hd : d < 64)
    (e0 : c0 ≡ encode_digit a) (e1 : c1 ≡ encode_digit b) where
  full_digits :
      c2 ≡ encode_digit c
      → c3 ≡ encode_digit d
      → FullRound c0 c1 c2 c3 (emit_bytes a b c d false false)
  unfolding emit_bytes
  full_digits e2 e3 = record {
    x = (a * 262144 + b * 4096 + c * 64 + d) / 65536 % 256;
    y = (a * 262144 + b * 4096 + c * 64 + d) / 256 % 256;
    z = (a * 262144 + b * 4096 + c * 64 + d) % 256;
    out_is = refl;
    x_byte = omega arith;
    y_byte = omega arith;
    z_byte = omega arith;
    is0 = e0 ∙ ap encode_digit (omega arith);
    is1 = e1 ∙ ap encode_digit (omega arith);
    is2 = e2 ∙ ap encode_digit (omega arith);
    is3 = e3 ∙ ap encode_digit (omega arith);
  }

  two_digits :
      c2 ≡ encode_digit c
      → c3 ≡ pad
      → c % 4 ≡ 0
      → LastRound true c0 c1 c2 c3 (emit_bytes a b c 0 false true)
  unfolding emit_bytes encode
  two_digits e2 e3 z = record {
    is_last = refl;
    bytes = (omega arith, (omega arith, tt));
    encoded = ground arith;
  }

  one_digit :
      c2 ≡ pad → c3 ≡ pad → b % 16 ≡ 0 → LastRound true c0 c1 c2 c3 (emit_bytes a b 0 0 true true)
  unfolding emit_bytes encode
  one_digit e2 e3 z = record { is_last = refl; bytes = (omega arith, tt); encoded = ground arith }

decode_padded_sound :
    (c d : ℕ)
    → decode_padded c ≡ some d
    → (((c == pad) ≡ true) × (c ≡ pad) × (d ≡ 0))
      ⊎ (((c == pad) ≡ false) × (c ≡ encode_digit d) × (d < 64))
unfolding decode_padded
decode_padded_sound c d h = ground (arith, decode_digit_sound c d)

move_last :
    {c0 c1 c2 c3 : ℕ} {made out : Bytes} (last : Bool)
    → LastRound true c0 c1 c2 c3 made
    → last ≡ true
    → out ≡ made
    → LastRound last c0 c1 c2 c3 out
move_last last r l e = record {
  is_last = l;
  bytes = subst AllBytes (sym e) r.bytes;
  encoded = r.encoded ∙ ap encode (sym e);
}

move_full :
    {c0 c1 c2 c3 : ℕ} {made out : Bytes}
    → FullRound c0 c1 c2 c3 made
    → out ≡ made
    → FullRound c0 c1 c2 c3 out
move_full r e = record {
  x = r.x;
  y = r.y;
  z = r.z;
  out_is = e ∙ r.out_is;
  x_byte = r.x_byte;
  y_byte = r.y_byte;
  z_byte = r.z_byte;
  is0 = r.is0;
  is1 = r.is1;
  is2 = r.is2;
  is3 = r.is3;
}

round_digits :
    (last : Bool) (c0 c1 c2 c3 a b c d : ℕ) (out : Bytes)
    → decode_digit c0 ≡ some a
    → decode_digit c1 ≡ some b
    → decode_padded c2 ≡ some c
    → decode_padded c3 ≡ some d
    → decode_round last c0 c1 c2 c3 ≡ ok out
    → FullRound c0 c1 c2 c3 out ⊎ LastRound last c0 c1 c2 c3 out
unfolding decode_round
round_digits last c0 c1 c2 c3 a b c d out ea eb ec ed h =
    let (e0, ha) = decode_digit_sound c0 a ea in
    let (e1, hb) = decode_digit_sound c1 b eb in
    elim (decode_padded_sound c2 c ec) [
      | inl (p2, e2, z2) ↦ elim (decode_padded_sound c3 d ed) [
        | inl (p3, e3, z3) ↦ inr (
            move_last last
              (one_digit a b 0 0 c0 c1 c2 c3 ha hb (omega arith) (omega arith) e0 e1 e2 e3
                (ground arith))
              (ground arith) (ground arith))
        | inr (p3, e3, hd) ↦ absurd (ground arith)
      ]
      | inr (p2, e2, hc) ↦ elim (decode_padded_sound c3 d ed) [
        | inl (p3, e3, z3) ↦ inr (
            move_last last
              (two_digits a b c 0 c0 c1 c2 c3 ha hb hc (omega arith) e0 e1 e2 e3 (ground arith))
              (ground arith) (ground arith))
        | inr (p3, e3, hd) ↦
            inl (move_full (full_digits a b c d c0 c1 c2 c3 ha hb hc hd e0 e1 e2 e3) (ground arith))
      ]
    ]

pub round_sound :
    (last : Bool) (c0 c1 c2 c3 : ℕ) (out : Bytes)
    → decode_round last c0 c1 c2 c3 ≡ ok out
    → FullRound c0 c1 c2 c3 out ⊎ LastRound last c0 c1 c2 c3 out
round_sound last c0 c1 c2 c3 out h = elim (Option-cases (decode_digit c0)) [
  | inl n ↦ absurd (unfold decode_round in ground (arith, n))
  | inr (a, ea) ↦ elim (Option-cases (decode_digit c1)) [
    | inl n ↦ absurd (unfold decode_round in ground (arith, n))
    | inr (b, eb) ↦ elim (Option-cases (decode_padded c2)) [
      | inl n ↦ absurd (unfold decode_round in ground (arith, n))
      | inr (c, ec) ↦ elim (Option-cases (decode_padded c3)) [
        | inl n ↦ absurd (unfold decode_round in ground (arith, n))
        | inr (d, ed) ↦ round_digits last c0 c1 c2 c3 a b c d out ea eb ec ed h
      ]
    ]
  ]
]
