-- ===== src/Tokenizer/Spelling/Text.antt =====
-- `tokenize_raw` and `tokenize` of src/tokenizer.cpp spell their text.
use branchscore.Base.{
  ℕ, zero, suc, ◌+◌, ◌^◌, ◌<◌, ◌≤◌, ◌≡◌, ◌≢◌, if◌then◌else◌, refl, subst, Bool, false, Option, none,
  some, List, [], ◌∷◌, ◌++◌, append-nil, Mem, mem-cons_self, mem-cons_of_mem, Bytes, length, take,
  drop, take-drop, find_text, find_text-append, Bool-cases, inl, inr, arith, ◌==◌, not, ◌&&◌, ltb,
}
use branchscore.Decision.{TokenId}
use branchscore.Result.{Exception, Result, ok, Outcome, Outcome-bind, Outcome-mono, ok_of_Outcome}
use branchscore.Tokenizer.Segments.{
  run_length, tokenize_runs, tokenize_raw, earlier, first_match, raw_part, consume, tokenize_rest,
  tokenize,
}
use branchscore.Tokenizer.Merge.{tokenize_segment}
use branchscore.Tokenizer.Spelling.{Spells, nothing, Spells-append, LacksByte, lacks}
use branchscore.Tokenizer.Spelling.Segment.{tokenize_segment-Spells}
use branchscore.Tokenizer.Vocabulary.{
  Impl, SpecialToken, token_type_user_defined, find_token, byte_piece, escape_spaces,
}

positive-suc : (n : ℕ) → 0 < n → (m : ℕ) × (n ≡ suc m)
positive-suc zero h = absurd (omega arith)
positive-suc (suc n) h = (n, refl)

-- What is behind at least one byte is shorter.
length-drop-suc : (n : ℕ) (c : ℕ) (cs : Bytes) → length (drop (suc n) (c ∷ cs)) ≤ length cs
unfolding drop
length-drop-suc zero c cs = omega arith
length-drop-suc (suc n) c [] = omega arith
length-drop-suc (suc n) c (d ∷ ds) = omega (arith, length-drop-suc n d ds)

tokenize_runs-Spells :
    (impl : Impl) (fuel : ℕ) (text : Bytes)
    → length text < fuel
    → Outcome (Spells impl text) (LacksByte impl) (tokenize_runs impl fuel text)
unfolding tokenize_runs
tokenize_runs-Spells impl zero text h = absurd (omega arith)
tokenize_runs-Spells impl (suc fuel) [] h = nothing
tokenize_runs-Spells impl (suc fuel) (c ∷ cs) h =
    let run = run_length (c == 10) cs in
    let front = take (suc run) (c ∷ cs) in
    let back = drop (suc run) (c ∷ cs) in
    let shorter = length-drop-suc run c cs in
    Outcome-bind (Spells impl front) (Spells impl (c ∷ cs)) (LacksByte impl)
      (tokenize_segment impl front) _ (tokenize_segment-Spells impl front)
      (λ is p.
        Outcome-bind (Spells impl back) (Spells impl (c ∷ cs)) (LacksByte impl)
          (tokenize_runs impl fuel back) _
          (tokenize_runs-Spells impl fuel back (omega (arith, shorter, h)))
          (λ js q.
            subst (λ t. Spells impl t (is ++ js)) (take-drop (suc run) (c ∷ cs))
              (Spells-append p q)))

tokenize_raw-Spells :
    (impl : Impl) (raw : Bytes)
    → Outcome (Spells impl (escape_spaces raw)) (LacksByte impl) (tokenize_raw impl raw)
unfolding tokenize_raw
tokenize_raw-Spells impl raw = tokenize_runs-Spells impl _ (escape_spaces raw) (omega arith)

-- A special token that `tokenize` looks for
pub record IsSought (impl : Impl) (parse_special : Bool) (token : SpecialToken) : Type 0 where
  pub listed : Mem token impl.special_tokens
  pub chosen : (not parse_special && not (token.type == token_type_user_defined)) ≡ false

-- The tokens of a text: special ones, and those of the raw parts between them, whose spaces are
-- escaped.
pub data Reads (impl : Impl) (parse_special : Bool) : Bytes → List TokenId → Type 0 where
  at_end : Reads impl parse_special [] []
  raw :
      (part text : Bytes) (is js : List TokenId)
      → Spells impl (escape_spaces part) is
      → Reads impl parse_special text js
      → Reads impl parse_special (part ++ text) (is ++ js)
  special :
      (token : SpecialToken) (text : Bytes) (ids : List TokenId)
      → IsSought impl parse_special token
      → Reads impl parse_special text ids
      → Reads impl parse_special (token.text ++ text) (token.id ∷ ids)

-- No special token is the empty text.
pub data AllSpelled : List SpecialToken → Type 0 where
  none_spelled : AllSpelled []
  one_spelled :
      (token : SpecialToken) (tokens : List SpecialToken)
      → 0 < length token.text
      → AllSpelled tokens
      → AllSpelled (token ∷ tokens)

-- A match: where a token that is sought occurs
pub data IsMatch (impl : Impl) (parse_special : Bool) (rest : Bytes)
    : Option (ℕ × SpecialToken) → Type 0 where
  no_match : IsMatch impl parse_special rest none
  match_at :
      (n : ℕ) (token : SpecialToken)
      → IsSought impl parse_special token
      → 0 < length token.text
      → find_text token.text rest ≡ some n
      → IsMatch impl parse_special rest (some (n, token))

earlier-IsMatch :
    {impl : Impl} {parse_special : Bool} {rest : Bytes} (token : SpecialToken) (o : Option ℕ)
    (best : Option (ℕ × SpecialToken))
    → find_text token.text rest ≡ o
    → IsSought impl parse_special token
    → 0 < length token.text
    → IsMatch impl parse_special rest best
    → IsMatch impl parse_special rest (earlier token o best)
unfolding earlier
earlier-IsMatch token none best e sought l h = h
earlier-IsMatch token (some n) none e sought l h = match_at n token sought l e
earlier-IsMatch token (some n) (some (m, other)) e sought l h = elim (Bool-cases (ltb n m)) [
  | inl before ↦ rw before (match_at n token sought l e)
  | inr behind ↦ rw behind h
]

pub first_match-IsMatch :
    (impl : Impl) (parse_special : Bool) (rest : Bytes) (tokens : List SpecialToken)
    (best : Option (ℕ × SpecialToken))
    → ((t : SpecialToken) → Mem t tokens → Mem t impl.special_tokens)
    → AllSpelled tokens
    → IsMatch impl parse_special rest best
    → IsMatch impl parse_special rest (first_match parse_special rest tokens best)
unfolding first_match
first_match-IsMatch impl parse_special rest [] best all spelled h = h
first_match-IsMatch impl parse_special rest (t ∷ ts) best all (one_spelled u us l spelled) h =
    elim (Bool-cases (not parse_special && not (t.type == token_type_user_defined))) [
      | inl skip ↦ rw skip (
          first_match-IsMatch impl parse_special rest ts best (λ u m. all u (mem-cons_of_mem t m))
            spelled h)
      | inr keep ↦
          let sought : IsSought impl parse_special t = record {
            listed = all t mem-cons_self;
            chosen = keep;
          } in
          rw keep (
            first_match-IsMatch impl parse_special rest ts _ (λ u m. all u (mem-cons_of_mem t m))
              spelled (earlier-IsMatch t (find_text t.text rest) best refl sought l h))
    ]

raw_part-Spells :
    (impl : Impl) (part : Bytes)
    → Outcome (λ ids. Spells impl (escape_spaces part) ids) (LacksByte impl) (raw_part impl part)
unfolding raw_part escape_spaces
raw_part-Spells impl [] = nothing
raw_part-Spells impl (c ∷ cs) = tokenize_raw-Spells impl (c ∷ cs)

pub length-drop_le : (n k c : ℕ) (cs : Bytes) → 0 < k → length (drop (n + k) (c ∷ cs)) ≤ length cs
unfolding drop
length-drop_le n k c cs h =
    let (m, e) = positive-suc (n + k) (omega (arith, h)) in rw e (length-drop-suc m c cs)

-- A match, the raw part before it and what is behind it make up the text.
Reads-match :
    {impl : Impl} {parse_special : Bool} {is js : List TokenId} (rest : Bytes) (n : ℕ)
    (token : SpecialToken)
    → IsSought impl parse_special token
    → find_text token.text rest ≡ some n
    → Spells impl (escape_spaces (take n rest)) is
    → Reads impl parse_special (drop (n + length token.text) rest) js
    → Reads impl parse_special rest (is ++ token.id ∷ js)
Reads-match {impl = impl} {parse_special = parse_special} {is = is} {js = js} rest n token sought e
      p q =
    subst (λ t. Reads impl parse_special t (is ++ token.id ∷ js))
      (find_text-append token.text rest n e)
      (raw (take n rest) _ is (token.id ∷ js) p (special token _ js sought q))

consume-Reads :
    (impl : Impl) (parse_special : Bool) (c : ℕ) (cs : Bytes) (best : Option (ℕ × SpecialToken))
    (next : Bytes → Result (List TokenId))
    → IsMatch impl parse_special (c ∷ cs) best
    → ((rest : Bytes)
        → length rest ≤ length cs
        → Outcome (Reads impl parse_special rest) (LacksByte impl) (next rest))
    → Outcome (Reads impl parse_special (c ∷ cs)) (LacksByte impl) (consume impl (c ∷ cs) best next)
unfolding consume
consume-Reads impl parse_special c cs none next no_match h =
    Outcome-mono (Spells impl (escape_spaces (c ∷ cs))) (Reads impl parse_special (c ∷ cs))
      (LacksByte impl) (raw_part impl (c ∷ cs)) (raw_part-Spells impl (c ∷ cs))
      (λ ids p.
        subst (λ t. Reads impl parse_special t ids) (append-nil (c ∷ cs))
          (subst (λ is. Reads impl parse_special ((c ∷ cs) ++ []) is) (append-nil ids)
            (raw (c ∷ cs) [] ids [] p at_end)))
consume-Reads impl parse_special c cs (some (n, token)) next (match_at m t sought l e) h =
    let part = take n (c ∷ cs) in
    let back = drop (n + length token.text) (c ∷ cs) in
    Outcome-bind (Spells impl (escape_spaces part)) (Reads impl parse_special (c ∷ cs))
      (LacksByte impl) (raw_part impl part) _ (raw_part-Spells impl part)
      (λ is p.
        Outcome-bind (Reads impl parse_special back) (Reads impl parse_special (c ∷ cs))
          (LacksByte impl) (next back) _ (h back (length-drop_le n (length token.text) c cs l))
          (λ js q. Reads-match (c ∷ cs) n token sought e p q))

tokenize_rest-Reads :
    (impl : Impl) (parse_special : Bool) (fuel : ℕ) (text : Bytes)
    → AllSpelled impl.special_tokens
    → length text < fuel
    → Outcome
        (Reads impl parse_special text)
        (LacksByte impl)
        (tokenize_rest impl parse_special fuel text)
unfolding tokenize_rest
tokenize_rest-Reads impl parse_special zero text spelled h = absurd (omega arith)
tokenize_rest-Reads impl parse_special (suc fuel) [] spelled h = at_end
tokenize_rest-Reads impl parse_special (suc fuel) (c ∷ cs) spelled h =
    consume-Reads impl parse_special c cs
      (first_match parse_special (c ∷ cs) impl.special_tokens none)
      (λ rest. tokenize_rest impl parse_special fuel rest)
      (first_match-IsMatch impl parse_special (c ∷ cs) impl.special_tokens none (λ t m. m) spelled
        no_match)
      (λ rest g. tokenize_rest-Reads impl parse_special fuel rest spelled (omega (arith, g, h)))

-- If no special token is the empty text, tokenize ends: it throws for the lack of the piece of a
-- byte, or its tokens, behind the BOS token if that was asked for, spell the text, where a space is
-- escaped.
pub tokenize-Reads :
    (impl : Impl) (text : Bytes) (add_bos parse_special : Bool)
    → AllSpelled impl.special_tokens
    → Outcome
        (λ ids.
          (rest : List TokenId) × (ids ≡ (if add_bos then impl.bos ∷ rest else rest))
          × Reads impl parse_special text rest)
        (LacksByte impl)
        (tokenize impl text add_bos parse_special)
unfolding tokenize
tokenize-Reads impl text add_bos parse_special spelled =
    Outcome-bind (Reads impl parse_special text)
      (λ ids.
        (rest : List TokenId) × (ids ≡ (if add_bos then impl.bos ∷ rest else rest))
        × Reads impl parse_special text rest)
      (LacksByte impl) (tokenize_rest impl parse_special (suc (length text)) text) _
      (tokenize_rest-Reads impl parse_special (suc (length text)) text spelled (omega arith))
      (λ ids r. (ids, refl, r))

LacksByte-absurd :
    (impl : Impl)
    → ((byte : ℕ) → byte < 2 ^ 8 → find_token impl (byte_piece byte) ≢ none)
    → (e : Exception) → LacksByte impl e
    → ⊥
LacksByte-absurd impl complete e (lacks byte small missing) = complete byte small missing

-- If no special token is the empty text and every byte has its piece, tokenize returns.
pub tokenize_total :
    (impl : Impl) (text : Bytes) (add_bos parse_special : Bool)
    → AllSpelled impl.special_tokens
    → ((byte : ℕ) → byte < 2 ^ 8 → find_token impl (byte_piece byte) ≢ none)
    → (ids : List TokenId) × (tokenize impl text add_bos parse_special ≡ ok ids)
tokenize_total impl text add_bos parse_special spelled complete =
    let (ids, run, reads) =
      ok_of_Outcome (tokenize impl text add_bos parse_special)
        (tokenize-Reads impl text add_bos parse_special spelled) (LacksByte-absurd impl complete) in
    (ids, run)
