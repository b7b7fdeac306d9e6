-- ===== src/Tokenizer/Segments.antt =====
-- `Impl::tokenize_raw` and `GemmaTokenizer::tokenize` of src/tokenizer.cpp.
use branchscore.Base.{
  ℕ, zero, suc, ◌+◌, Bool, true, false, not, ◌&&◌, Option, none, some, List, [], ◌∷◌, ◌++◌, Bytes,
  ◌==◌, ltb, if◌then◌else◌, length, take, drop, find_text,
}
use branchscore.Decision.{TokenId}
use branchscore.Result.{Result, ok, out_of_fuel, ◌>>=◌}
use branchscore.Tokenizer.Merge.{tokenize_segment}
use branchscore.Tokenizer.Vocabulary.{Impl, SpecialToken, token_type_user_defined, escape_spaces}

abbrev pub same : Bool → Bool → Bool
same true b = b
same false b = not b

-- The inner loop: how many more bytes are newlines, or are not, as the first one.
unfoldable pub run_length : Bool → Bytes → ℕ
run_length newline [] = 0
run_length newline (c ∷ cs) =
    let more = run_length newline cs in if same (c == 10) newline then suc more else 0

-- The loop over the segments of the escaped text; `text` is the part from `segment_start` on.
unfoldable pub tokenize_runs : Impl → ℕ → Bytes → Result (List TokenId)
unfolding take drop
tokenize_runs impl zero text = out_of_fuel
tokenize_runs impl (suc fuel) [] = ok []
tokenize_runs impl (suc fuel) (c ∷ cs) =
    let size = suc (run_length (c == 10) cs) in
    tokenize_segment impl (take size (c ∷ cs)) >>= λ ids.
    tokenize_runs impl fuel (drop size (c ∷ cs)) >>= λ more. ok (ids ++ more)

unfoldable pub tokenize_raw : Impl → Bytes → Result (List TokenId)
tokenize_raw impl raw = let text = escape_spaces raw in tokenize_runs impl (suc (length text)) text

-- `found < match_position`, where `npos` is `none`
unfoldable pub earlier :
    SpecialToken → Option ℕ → Option (ℕ × SpecialToken) → Option (ℕ × SpecialToken)
earlier special none best = best
earlier special (some found) none = some (found, special)
earlier special (some found) (some (position, token)) =
    if ltb found position then some (found, special) else some (position, token)

-- The loop over the special tokens, with the best match so far
unfoldable pub first_match :
    Bool → Bytes → List SpecialToken → Option (ℕ × SpecialToken) → Option (ℕ × SpecialToken)
first_match parse_special rest [] best = best
first_match parse_special rest (special ∷ specials) best =
    let skipped = first_match parse_special rest specials best in
    let tried =
      first_match parse_special rest specials
        (earlier special (find_text special.text rest) best) in
    if not parse_special && not (special.type == token_type_user_defined) then skipped else tried

-- `if (raw_end > position)`, with the bytes between the two
unfoldable pub raw_part : Impl → Bytes → Result (List TokenId)
raw_part impl [] = ok []
raw_part impl (c ∷ cs) = tokenize_raw impl (c ∷ cs)

-- What one round does with the match that it found; `next` is the loop from a new position on.
unfoldable pub consume :
    Impl
    → Bytes
    → Option (ℕ × SpecialToken)
    → (Bytes → Result (List TokenId))
    → Result (List TokenId)
consume impl rest none next = raw_part impl rest
consume impl rest (some (n, token)) next = raw_part impl (take n rest) >>= λ ids.
    next (drop (n + length token.text) rest) >>= λ more. ok (ids ++ token.id ∷ more)

-- The loop of `tokenize`; `rest` is the text from `position` on.
unfoldable pub tokenize_rest : Impl → Bool → ℕ → Bytes → Result (List TokenId)
tokenize_rest impl parse_special zero rest = out_of_fuel
tokenize_rest impl parse_special (suc fuel) [] = ok []
tokenize_rest impl parse_special (suc fuel) (c ∷ cs) =
    consume impl (c ∷ cs) (first_match parse_special (c ∷ cs) impl.special_tokens none)
      (λ rest. tokenize_rest impl parse_special fuel rest)

unfoldable pub tokenize : Impl → Bytes → Bool → Bool → Result (List TokenId)
tokenize impl text add_bos parse_special =
    tokenize_rest impl parse_special (suc (length text)) text >>= λ ids.
    ok (if add_bos then impl.bos ∷ ids else ids)
