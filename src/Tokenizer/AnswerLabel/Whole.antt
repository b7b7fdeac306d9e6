-- ===== src/Tokenizer/AnswerLabel/Whole.antt =====
-- The short cut of `tokenize_answer_label` of src/tokenizer.cpp gives the tokens of the whole prompt.
use branchscore.Base.{
  ℕ, suc, ◌-◌, ◌≤◌, ◌≡◌, refl, sym, subst, ap, ◌∙◌, Bool, true, false, not, ◌&&◌, List, [], ◌∷◌,
  ◌++◌, append_assoc, Bytes, codes, equal_iff, ◌==◌, Bool-cases, inl, inr, if◌then◌else◌, length,
  take, drop, take-drop, length-append, starts_with, arith,
}
use branchscore.Decision.{TokenId}
use branchscore.Result.{Result, ok, ok_of_bind, ok-injective, ◌>>=◌}
use branchscore.Tokenizer.AnswerLabel.{
  AnswerToken, answer_suffix, ends_with, is_known_special, spans_boundary, is_fixed_suffix,
  boundary_prompt, tokenize_answer_label,
}
use branchscore.Tokenizer.AnswerLabel.Accepted.{IsAnswer, tokenize_answer_label_sound}
use branchscore.Tokenizer.Load.Loaded.{IsLoaded}
use branchscore.Tokenizer.Segments.{tokenize, tokenize_rest}
use branchscore.Tokenizer.Spelling.Text.{AllSpelled}
use branchscore.Tokenizer.Split.Boundary.{
  spans_boundary-AllApart, AllApart-shorter, first_match_known,
}
use branchscore.Tokenizer.Split.Find.{AllApart}
use branchscore.Tokenizer.Split.Rest.{◌and_then◌, tokenize_rest-append}
use branchscore.Tokenizer.Vocabulary.{Impl, find_token, piece, is_special_token}

-- The tokens of a text, without a BOS token
abbrev rest_of : Impl → Bytes → Result (List TokenId)
rest_of impl text = tokenize_rest impl true (suc (length text)) text

abbrev behind_bos : Impl → Bool → List TokenId → List TokenId
behind_bos impl add_bos ids = if add_bos then impl.bos ∷ ids else ids

tokenize-rest_of :
    (impl : Impl) (text : Bytes) (add_bos : Bool) (ids : List TokenId)
    → tokenize impl text add_bos true ≡ ok ids
    → (rest : List TokenId) × (rest_of impl text ≡ ok rest) × (ids ≡ behind_bos impl add_bos rest)
unfolding tokenize
tokenize-rest_of impl text add_bos ids h =
    let (rest, run, done) = ok_of_bind (rest_of impl text) _ ids h in
    (rest, run, sym (ok-injective done))

rest_of-tokenize :
    (impl : Impl) (text : Bytes) (add_bos : Bool) (rest : List TokenId)
    → rest_of impl text ≡ ok rest
    → tokenize impl text add_bos true ≡ ok (behind_bos impl add_bos rest)
unfolding tokenize
rest_of-tokenize impl text add_bos rest h =
    ap (λ r. r >>= λ ids. ok (if add_bos then impl.bos ∷ ids else ids)) h

-- The text with the label has the tokens of the text, and one more.
record IsExtended (impl : Impl) (text label : Bytes) (id : TokenId) : Type 0 where
  ids : List TokenId
  alone : rest_of impl text ≡ ok ids
  extended : rest_of impl (text ++ label) ≡ ok (ids ++ id ∷ [])

behind_bos-append :
    (impl : Impl) (add_bos : Bool) (ids : List TokenId) (id : TokenId)
    → behind_bos impl add_bos (ids ++ id ∷ []) ≡ behind_bos impl add_bos ids ++ id ∷ []
behind_bos-append impl true ids id = refl
behind_bos-append impl false ids id = refl

behind_bos-injective :
    (impl : Impl) (add_bos : Bool) (a b : List TokenId)
    → behind_bos impl add_bos a ≡ behind_bos impl add_bos b
    → a ≡ b
behind_bos-injective impl true a b e = cc
behind_bos-injective impl false a b e = e

IsAnswer-IsExtended :
    (impl : Impl) (prompt label : Bytes) (answer : AnswerToken)
    → IsAnswer impl prompt label answer
    → IsExtended impl prompt label answer.id
IsAnswer-IsExtended impl prompt label answer a =
    let add_bos : Bool = not (starts_with (codes "<bos>") prompt) in
    let (ids, run, same) = tokenize-rest_of impl prompt add_bos a.prefix a.before in
    let (more, longer, grown) =
      tokenize-rest_of impl (prompt ++ label) add_bos (a.prefix ++ answer.id ∷ []) a.appended in
    let both : behind_bos impl add_bos more ≡ behind_bos impl add_bos (ids ++ answer.id ∷ []) =
      sym grown
      ∙ ap (λ is. is ++ answer.id ∷ []) same
      ∙ sym (behind_bos-append impl add_bos ids answer.id) in
    record {
      ids = ids;
      alone = run;
      extended =
          longer ∙ ap ok (behind_bos-injective impl add_bos more (ids ++ answer.id ∷ []) both);
    }

IsExtended-tokenize :
    (impl : Impl) (text label : Bytes) (id : TokenId) (add_bos : Bool) (ids : List TokenId)
    → IsExtended impl text label id
    → tokenize impl text add_bos true ≡ ok ids
    → tokenize impl (text ++ label) add_bos true ≡ ok (ids ++ id ∷ [])
IsExtended-tokenize impl text label id add_bos ids x h =
    let (rest, run, same) = tokenize-rest_of impl text add_bos ids h in
    let one : x.ids ≡ rest = ok-injective (sym x.alone ∙ run) in
    rest_of-tokenize impl (text ++ label) add_bos (x.ids ++ id ∷ []) x.extended
    ∙ ap ok (behind_bos-append impl add_bos x.ids id)
    ∙ ap (λ is. ok (is ++ id ∷ [])) (ap (behind_bos impl add_bos) one ∙ sym same)

-- The part of a prompt before the suffix
before_suffix :
    (prompt : Bytes)
    → ends_with prompt answer_suffix ≡ true
    → (before : Bytes) × (prompt ≡ before ++ answer_suffix)
      × (length before ≡ length prompt - length answer_suffix)
unfolding ends_with
before_suffix prompt h =
    let n : ℕ = length prompt - length answer_suffix in
    let same : drop n prompt ≡ answer_suffix =
      (equal_iff (drop n prompt) answer_suffix).0 (ground arith) in
    let fits : length answer_suffix ≤ length prompt = ground arith in
    let split : prompt ≡ take n prompt ++ answer_suffix =
      sym (take-drop n prompt) ∙ ap (λ t. take n prompt ++ t) same in
    (
      take n prompt,
      split,
      omega (arith, ap length split, length-append (take n prompt) answer_suffix, fits),
    )

module _ (impl : Impl) (loaded : IsLoaded impl) (spelled : AllSpelled impl.special_tokens) where
  -- What is behind the boundary is tokenized on its own.
  rest_of-append :
      (before behind : Bytes)
      → is_known_special impl (find_token impl (codes "<|turn>")) ≡ true
      → AllApart before (answer_suffix ++ behind) impl.special_tokens
      → rest_of impl (before ++ (answer_suffix ++ behind))
        ≡ (rest_of impl before and_then rest_of impl (answer_suffix ++ behind))
  rest_of-append before behind known apart =
      let (token, front) =
        first_match_known impl (answer_suffix ++ behind) (codes "<|turn>") loaded known
          (unfold starts_with in refl) in
      tokenize_rest-append impl spelled b'<' (codes "|turn>model\n" ++ behind) token front _ _
        before _ apart (omega arith) (omega arith) (omega arith)

  IsExtended-whole :
      (before label : Bytes) (id : TokenId) (ids : List TokenId)
      → is_known_special impl (find_token impl (codes "<|turn>")) ≡ true
      → AllApart before (answer_suffix ++ label) impl.special_tokens
      → IsExtended impl answer_suffix label id
      → rest_of impl (before ++ answer_suffix) ≡ ok ids
      → IsExtended impl (before ++ answer_suffix) label id
  IsExtended-whole before label id ids known apart x h =
      let alone =
        rest_of-append before [] known
          (AllApart-shorter before answer_suffix label impl.special_tokens apart) in
      let (first, run, h₁) = ok_of_bind (rest_of impl before) _ ids (sym alone ∙ h) in
      let (last, suffix_run, h₂) = ok_of_bind (rest_of impl answer_suffix) _ ids h₁ in
      let same : last ≡ x.ids = ok-injective (sym suffix_run ∙ x.alone) in
      let joined : ids ≡ first ++ x.ids = sym (ok-injective h₂) ∙ ap (λ is. first ++ is) same in
      record {
        ids = ids;
        alone = h;
        extended =
            ap (rest_of impl) (append_assoc before answer_suffix label)
            ∙ rest_of-append before label known apart
            ∙ ap (λ r. r and_then rest_of impl (answer_suffix ++ label)) run
            ∙ ap (λ r. ok first and_then r) x.extended
            ∙ ap ok (sym (append_assoc first x.ids (id ∷ [])))
            ∙ ap (λ is. ok (is ++ id ∷ [])) (sym joined);
      }

  -- Where the short cut is taken
  shortened :
      (prompt label : Bytes) (id : TokenId) (ids : List TokenId)
      → is_fixed_suffix impl prompt label ≡ true
      → IsExtended impl answer_suffix label id
      → rest_of impl prompt ≡ ok ids
      → IsExtended impl prompt label id
  unfolding is_fixed_suffix
  shortened prompt label id ids fixed x h =
      let known : is_known_special impl (find_token impl (codes "<|turn>")) ≡ true =
        and_first _ _ (and_first _ _ fixed) in
      let ends : ends_with prompt answer_suffix ≡ true = and_second _ _ (and_first _ _ fixed) in
      let apart : spans_boundary (prompt ++ label) (length prompt - length answer_suffix)
            impl.special_tokens
          ≡ false =
        not_true _ (and_second _ _ fixed) in
      let (before, split, size) = before_suffix prompt ends in
      let text : prompt ++ label ≡ before ++ (answer_suffix ++ label) =
        ap (λ t. t ++ label) split ∙ append_assoc before answer_suffix label in
      let no_span : spans_boundary (before ++ (answer_suffix ++ label)) (length before)
            impl.special_tokens
          ≡ false =
        ap (λ t. spans_boundary t (length before) impl.special_tokens) (sym text)
        ∙ ap (λ n. spans_boundary (prompt ++ label) n impl.special_tokens) size
        ∙ apart in
      subst (λ t. IsExtended impl t label id) (sym split)
        (IsExtended-whole before label id ids known
          (spans_boundary-AllApart before (answer_suffix ++ label) impl.special_tokens no_span) x
          (ap (rest_of impl) (sym split) ∙ h))
    where
      and_first : (a b : Bool) → (a && b) ≡ true → a ≡ true
      and_first true b e = refl
      and_first false b e = absurd (cc)

      and_second : (a b : Bool) → (a && b) ≡ true → b ≡ true
      and_second true b e = e
      and_second false b e = absurd (cc)

      not_true : (a : Bool) → not a ≡ true → a ≡ false
      not_true true e = absurd (cc)
      not_true false e = refl

  -- For a loaded tokenizer, none of whose special tokens is empty, a label that tokenize_answer_label
  -- accepts for a prompt is one ordinary token that spells it, and behind the whole prompt it adds just
  -- this token: with and without a BOS token, the prompt with the label has the tokens of the prompt
  -- and then the label's, although only the last turn is looked at where no special token spans its
  -- beginning.
  pub tokenize_answer_label-tokenize :
      (rendered_prompt label : Bytes) (answer : AnswerToken) (add_bos : Bool) (ids : List TokenId)
      → tokenize_answer_label impl rendered_prompt label ≡ ok answer
      → tokenize impl rendered_prompt add_bos true ≡ ok ids
      → (tokenize impl (rendered_prompt ++ label) add_bos true ≡ ok (ids ++ answer.id ∷ []))
        × (piece impl answer.id ≡ ok label)
        × ((answer.id == impl.eos) ≡ false)
        × (is_special_token impl answer.id ≡ false)
  unfolding boundary_prompt
  tokenize_answer_label-tokenize rendered_prompt label answer add_bos ids h g =
      let a = tokenize_answer_label_sound impl rendered_prompt label answer h in
      let checked =
        IsAnswer-IsExtended impl (boundary_prompt impl rendered_prompt label) label answer a in
      let (rest, run, same) = tokenize-rest_of impl rendered_prompt add_bos ids g in
      let whole : IsExtended impl rendered_prompt label answer.id =
        elim (Bool-cases (is_fixed_suffix impl rendered_prompt label)) [
          | inl fixed ↦
              shortened rendered_prompt label answer.id rest fixed
                (subst
                  (λ b.
                    IsExtended impl (if b then answer_suffix else rendered_prompt) label answer.id)
                  fixed checked)
                run
          | inr free ↦
              subst
                (λ b.
                  IsExtended impl (if b then answer_suffix else rendered_prompt) label answer.id)
                free checked
        ] in
      (
        IsExtended-tokenize impl rendered_prompt label answer.id add_bos ids whole g,
        a.spelled,
        a.not_end,
        a.not_special,
      )
