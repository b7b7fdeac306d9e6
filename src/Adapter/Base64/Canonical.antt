-- ===== src/Adapter/Base64/Canonical.antt =====
-- `decode_base64` of src/systemone_adapter.cpp accepts the canonical encodings and nothing else.
use branchscore.Adapter.Base64.{
  is_empty, decode_round, decode_rounds, decode_base64, encode, AllBytes,
}
use branchscore.Adapter.Base64.Rounds.{decode_rounds-encode, length-encode}
use branchscore.Adapter.Base64.Invert.{FullRound, LastRound, round_sound}
use branchscore.Base.{
  ℕ, ◌%◌, ◌≡◌, ◌≢◌, ◌↔◌, ◌⊎◌, refl, sym, Bool, true, false, [], ◌∷◌, ◌++◌, Bytes, arith, length,
  inl, inr, append-nil,
}
use branchscore.Result.{Result, ok, request_error, Outcome, ok_of_bind, ok-injective}

-- The code of every exception is `invalid_image`.
abbrev pub Refuses : Result Bytes → Type 0
Refuses = Outcome (λ out. Unit) (λ e. e ≡ request_error "invalid_image")

decode_rounds-empty :
    (s out : Bytes) → is_empty s ≡ true → decode_rounds s ≡ ok out → (s ≡ []) × (out ≡ [])
unfolding decode_rounds
decode_rounds-empty [] out e h = (refl, sym (ok-injective h))
decode_rounds-empty (c ∷ cs) out e h = cc

-- The input of a round and of the rounds behind it, from what these return.
join_rounds :
    (c0 c1 c2 c3 : ℕ) (rest out more : Bytes)
    → FullRound c0 c1 c2 c3 out ⊎ LastRound (is_empty rest) c0 c1 c2 c3 out
    → decode_rounds rest ≡ ok more
    → AllBytes more × (rest ≡ encode more)
    → AllBytes (out ++ more) × (c0 ∷ c1 ∷ c2 ∷ c3 ∷ rest ≡ encode (out ++ more))
unfolding encode
join_rounds c0 c1 c2 c3 rest out more (inl r) h (all, e) =
    rw r.out_is ((r.x_byte, (r.y_byte, (r.z_byte, all))), cc (e, r.is0, r.is1, r.is2, r.is3))
join_rounds c0 c1 c2 c3 rest out more (inr r) h (all, e) =
    let (rest_is, more_is) = decode_rounds-empty rest more r.is_last h in
    rw (rest_is, more_is, append-nil) (r.bytes, r.encoded)

-- Whatever the loop returns is a list of bytes whose encoding was the input.
decode_rounds_sound : (s out : Bytes) → decode_rounds s ≡ ok out → AllBytes out × (s ≡ encode out)
unfolding decode_rounds
decode_rounds_sound [] out h = rw (← ok-injective h) (tt, unfold encode in refl)
decode_rounds_sound (c0 ∷ c1 ∷ c2 ∷ c3 ∷ rest) out h =
    let (first, h₁, k₁) = ok_of_bind (decode_round (is_empty rest) c0 c1 c2 c3) _ out h in
    let (more, h₂, k₂) = ok_of_bind (decode_rounds rest) _ out k₁ in
    rw (← ok-injective k₂) (
      join_rounds c0 c1 c2 c3 rest first more (round_sound (is_empty rest) c0 c1 c2 c3 first h₁) h₂
        (decode_rounds_sound rest more h₂))
decode_rounds_sound _ out h = absurd (cc)

encode-ne-nil : (bs : Bytes) → bs ≢ [] → is_empty (encode bs) ≡ false
unfolding encode
encode-ne-nil [] h = absurd (h refl)
encode-ne-nil (x ∷ []) h = refl
encode-ne-nil (x ∷ y ∷ []) h = refl
encode-ne-nil (x ∷ y ∷ z ∷ r) h = refl

decode-encode : (bs : Bytes) → bs ≢ [] → AllBytes bs → decode_base64 (encode bs) ≡ ok bs
unfolding decode_base64
decode-encode bs ne all =
    ground (arith, encode-ne-nil bs ne, length-encode bs, decode_rounds-encode bs all)

decode_base64_sound :
    (s bs : Bytes) → decode_base64 s ≡ ok bs → (bs ≢ []) × AllBytes bs × (s ≡ encode bs)
unfolding decode_base64
decode_base64_sound s bs h =
    let ran : decode_rounds s ≡ ok bs = ground arith in
    let (all, e) = decode_rounds_sound s bs ran in
    let full : is_empty s ≡ false = ground arith in
    (λ n. absurd (ground (arith, e, n, full, encode_nil)), all, e)
  where
    encode_nil : encode [] ≡ []
    encode_nil = unfold encode in refl

decode_round-Refuses : (last : Bool) (c0 c1 c2 c3 : ℕ) → Refuses (decode_round last c0 c1 c2 c3)
unfolding decode_round
decode_round-Refuses last c0 c1 c2 c3 = ground arith

decode_rounds-Refuses : (s : Bytes) → length s % 4 ≡ 0 → Refuses (decode_rounds s)
unfolding decode_rounds
decode_rounds-Refuses [] h = tt
decode_rounds-Refuses (a ∷ []) h = absurd (omega arith)
decode_rounds-Refuses (a ∷ b ∷ []) h = absurd (omega arith)
decode_rounds-Refuses (a ∷ b ∷ c ∷ []) h = absurd (omega arith)
decode_rounds-Refuses (c0 ∷ c1 ∷ c2 ∷ c3 ∷ rest) h = ground (
  arith,
  decode_round-Refuses (is_empty rest) c0 c1 c2 c3,
  decode_rounds-Refuses rest (omega arith),
)

-- The decoder returns, or throws a request error whose code is `invalid_image`.
pub decode_base64-Refuses : (s : Bytes) → Refuses (decode_base64 s)
unfolding decode_base64
decode_base64-Refuses s = ground (arith, decode_rounds-Refuses s)

-- The decoder accepts exactly the canonical encoding of a nonempty list of bytes, and returns that
-- list.
pub decode_base64_iff :
    (s bs : Bytes) → (decode_base64 s ≡ ok bs) ↔ ((bs ≢ []) × AllBytes bs × (s ≡ encode bs))
decode_base64_iff s bs = (decode_base64_sound s bs, λ (ne, all, e). rw e (decode-encode bs ne all))
