-- ===== src/Tokenizer/Split/Rest.antt =====
-- The loop of `tokenize` of src/tokenizer.cpp on a text of two parts.
use branchscore.Base.{
  ℕ, zero, suc, ◌+◌, ◌≤◌, ◌<◌, ◌≡◌, refl, sym, ap, subst, ◌∙◌, true, Option, none, some, List, [],
  ◌∷◌, ◌++◌, append_assoc, Bytes, length, take, drop, length-append, find_text, find_text-append,
  arith,
}
use branchscore.Decision.{TokenId}
use branchscore.Result.{Result, ok, throw, out_of_fuel, ◌>>=◌}
use branchscore.Tokenizer.Segments.{first_match, raw_part, consume, tokenize_rest}
use branchscore.Tokenizer.Spelling.Text.{
  AllSpelled, IsMatch, no_match, match_at, first_match-IsMatch, length-drop_le,
}
use branchscore.Tokenizer.Split.Find.{
  IsBelow, find_text-IsBelow, Apart-drop, AllApart, none_apart, one_apart, beside,
  first_match-beside,
}
use branchscore.Tokenizer.Vocabulary.{Impl, SpecialToken}

-- One run behind another
infixl 5 ◌and_then◌
abbrev pub ◌and_then◌ : Result (List TokenId) → Result (List TokenId) → Result (List TokenId)
first and_then second = first >>= λ ids. second >>= λ more. ok (ids ++ more)

and_then_nothing : (r : Result (List TokenId)) → (ok [] and_then r) ≡ r
and_then_nothing (ok ids) = refl
and_then_nothing (throw e) = refl
and_then_nothing out_of_fuel = refl

and_then_assoc :
    (raw next second : Result (List TokenId)) (id : TokenId)
    → (raw >>= λ ids. (next and_then second) >>= λ more. ok (ids ++ id ∷ more))
      ≡ ((raw >>= λ ids. next >>= λ more. ok (ids ++ id ∷ more)) and_then second)
and_then_assoc (throw e) next second id = refl
and_then_assoc out_of_fuel next second id = refl
and_then_assoc (ok ids) (throw e) second id = refl
and_then_assoc (ok ids) out_of_fuel second id = refl
and_then_assoc (ok ids) (ok more) (throw e) id = refl
and_then_assoc (ok ids) (ok more) out_of_fuel id = refl
and_then_assoc (ok ids) (ok more) (ok last) id = ap ok (sym (append_assoc ids (id ∷ more) last))

and_then_special :
    (raw next : Result (List TokenId)) (id : TokenId)
    → (raw >>= λ ids. next >>= λ more. ok (ids ++ id ∷ more))
      ≡ (raw and_then (ok [] >>= λ ids. next >>= λ more. ok (ids ++ id ∷ more)))
and_then_special (throw e) next id = refl
and_then_special out_of_fuel next id = refl
and_then_special (ok ids) (throw e) id = refl
and_then_special (ok ids) out_of_fuel id = refl
and_then_special (ok ids) (ok more) id = refl

take-front : (n : ℕ) (text behind : Bytes) → n ≤ length text → take n (text ++ behind) ≡ take n text
unfolding take
take-front zero text behind h = refl
take-front (suc n) [] behind h = absurd (omega (arith, h))
take-front (suc n) (c ∷ cs) behind h = ap (λ t. c ∷ t) (take-front n cs behind (omega (arith, h)))

take-whole : (text behind : Bytes) (n : ℕ) → n ≡ length text → take n (text ++ behind) ≡ text
unfolding take
take-whole [] behind zero h = refl
take-whole [] behind (suc n) h = absurd (omega (arith, h))
take-whole (c ∷ cs) behind zero h = absurd (omega (arith, h))
take-whole (c ∷ cs) behind (suc n) h = ap (λ t. c ∷ t) (take-whole cs behind n (omega (arith, h)))

drop-front :
    (n : ℕ) (text behind : Bytes)
    → n ≤ length text
    → drop n (text ++ behind) ≡ drop n text ++ behind
unfolding drop
drop-front zero text behind h = refl
drop-front (suc n) [] behind h = absurd (omega (arith, h))
drop-front (suc n) (c ∷ cs) behind h = drop-front n cs behind (omega (arith, h))

drop-behind :
    (text behind : Bytes) (n k : ℕ) → n ≡ length text + k → drop n (text ++ behind) ≡ drop k behind
unfolding drop
drop-behind [] behind n k h = ap (λ i. drop i behind) (omega (arith, h))
drop-behind (c ∷ cs) behind zero k h = absurd (omega (arith, h))
drop-behind (c ∷ cs) behind (suc n) k h = drop-behind cs behind n k (omega (arith, h))

AllApart-drop :
    (text behind : Bytes) (n : ℕ) (tokens : List SpecialToken)
    → AllApart text behind tokens
    → AllApart (drop n text) behind tokens
AllApart-drop text behind n [] none_apart = none_apart
AllApart-drop text behind n (t ∷ ts) (one_apart u us h rest) =
    one_apart t ts (Apart-drop t.text text behind n h) (AllApart-drop text behind n ts rest)

length-take : (n : ℕ) (text : Bytes) → n ≤ length text → length (take n text) ≡ n
unfolding take
length-take zero text h = refl
length-take (suc n) [] h = absurd (omega (arith, h))
length-take (suc n) (c ∷ cs) h = omega (arith, length-take n cs (omega (arith, h)))

-- A match lies in the text.
match_inside :
    (pattern text : Bytes) (n : ℕ)
    → 0 < length pattern
    → find_text pattern text ≡ some n
    → n + length pattern ≤ length text
match_inside pattern text n l e =
    let rest = drop (n + length pattern) text in
    let below : IsBelow (length text) (some n) =
      subst (IsBelow (length text)) e (find_text-IsBelow pattern text l) in
    omega (
      arith,
      below,
      length-take n text (omega (arith, below)),
      ap length (find_text-append pattern text n e),
      length-append (take n text) (pattern ++ rest),
      length-append pattern rest,
    )

module _ (impl : Impl) (spelled : AllSpelled impl.special_tokens) where
  is_match :
      (text : Bytes) → IsMatch impl true text (first_match true text impl.special_tokens none)
  is_match text =
      first_match-IsMatch impl true text impl.special_tokens none (λ t h. h) spelled no_match

  consume_same :
      (c : ℕ) (cs : Bytes) (best : Option (ℕ × SpecialToken))
      (next other : Bytes → Result (List TokenId))
      → IsMatch impl true (c ∷ cs) best
      → ((rest : Bytes) → length rest ≤ length cs → next rest ≡ other rest)
      → consume impl (c ∷ cs) best next ≡ consume impl (c ∷ cs) best other
  unfolding consume
  consume_same c cs none next other no_match h = refl
  consume_same c cs (some (n, token)) next other (match_at m t sought l e) h =
      ap (λ r. raw_part impl (take n (c ∷ cs)) >>= λ ids. r >>= λ more. ok (ids ++ token.id ∷ more))
        (h (drop (n + length token.text) (c ∷ cs)) (length-drop_le n (length token.text) c cs l))

  -- The result does not depend on the fuel, if there is enough.
  tokenize_rest_same :
      (fuel other : ℕ) (text : Bytes)
      → length text < fuel
      → length text < other
      → tokenize_rest impl true fuel text ≡ tokenize_rest impl true other text
  unfolding tokenize_rest
  tokenize_rest_same zero other text h g = absurd (omega (arith, h))
  tokenize_rest_same (suc fuel) zero text h g = absurd (omega (arith, g))
  tokenize_rest_same (suc fuel) (suc other) [] h g = refl
  tokenize_rest_same (suc fuel) (suc other) (c ∷ cs) h g =
      consume_same c cs _ _ _ (is_match (c ∷ cs)) λ rest shorter.
        tokenize_rest_same fuel other rest (omega (arith, shorter, h)) (omega (arith, shorter, g))

  module _ (d : ℕ) (ds : Bytes) (token : SpecialToken)
      (at_front : first_match true (d ∷ ds) impl.special_tokens none ≡ some (0, token)) where
    token_spelled : 0 < length token.text
    token_spelled =
        of_match (some (0, token)) (subst (IsMatch impl true (d ∷ ds)) at_front (is_match (d ∷ ds)))
          refl
      where
        of_match :
            (best : Option (ℕ × SpecialToken))
            → IsMatch impl true (d ∷ ds) best
            → best ≡ some (0, token)
            → 0 < length token.text
        of_match none no_match e = absurd (cc)
        of_match (some (n, t)) (match_at m u sought l found) e =
            let same : t ≡ token = cc in subst (λ v. 0 < length v.text) same l

    -- The text behind begins with a special token.
    tokenize_rest-special :
        (fuel next : ℕ)
        → length (d ∷ ds) < fuel
        → length (drop (length token.text) (d ∷ ds)) < next
        → tokenize_rest impl true fuel (d ∷ ds) ≡ (
            ok [] >>= λ ids.
            tokenize_rest impl true next (drop (length token.text) (d ∷ ds)) >>= λ more.
            ok (ids ++ token.id ∷ more))
    unfolding tokenize_rest consume raw_part take
    tokenize_rest-special zero next h g = absurd (omega (arith, h))
    tokenize_rest-special (suc fuel) next h g =
        let rest = drop (length token.text) (d ∷ ds) in
        let shorter : length (drop (0 + length token.text) (d ∷ ds)) ≤ length ds =
          length-drop_le 0 (length token.text) d ds token_spelled in
        let zero_first : 0 + length token.text ≡ length token.text = omega arith in
        let short : length rest ≤ length ds =
          subst (λ n. length (drop n (d ∷ ds)) ≤ length ds) zero_first shorter in
        ap (λ m. consume impl (d ∷ ds) m (λ r. tokenize_rest impl true fuel r)) at_front
        ∙ ap (λ r. tokenize_rest impl true fuel (drop r (d ∷ ds)) >>= λ more. ok (token.id ∷ more))
            zero_first
        ∙ ap (λ r. r >>= λ more. ok (token.id ∷ more))
            (tokenize_rest_same fuel next rest (omega (arith, short, h)) g)

    -- A text that ends where a special token begins, and that no special token spans, is tokenized on
    -- its own.
    pub tokenize_rest-append :
        (fuel first : ℕ) (text : Bytes) (second : ℕ)
        → AllApart text (d ∷ ds) impl.special_tokens
        → length (text ++ d ∷ ds) < fuel
        → length text < first
        → length (d ∷ ds) < second
        → tokenize_rest impl true fuel (text ++ d ∷ ds)
          ≡ (tokenize_rest impl true first text and_then tokenize_rest impl true second (d ∷ ds))
    unfolding tokenize_rest consume
    tokenize_rest-append zero first text second apart h g k = absurd (omega (arith, h))
    tokenize_rest-append (suc fuel) zero text second apart h g k = absurd (omega (arith, g))
    tokenize_rest-append (suc fuel) (suc first) [] second apart h g k =
        tokenize_rest_same (suc fuel) second (d ∷ ds) h k
        ∙ sym (and_then_nothing (tokenize_rest impl true second (d ∷ ds)))
    tokenize_rest-append (suc fuel) (suc first) (c ∷ cs) second apart h g k =
        let whole : Bytes = c ∷ cs ++ d ∷ ds in
        let next : Bytes → Result (List TokenId) = λ r. tokenize_rest impl true fuel r in
        let found =
          first_match-beside (c ∷ cs) (d ∷ ds) impl.special_tokens none none spelled apart tt
          ∙ ap (beside (first_match true (c ∷ cs) impl.special_tokens none) (length (c ∷ cs)))
              at_front in
        ap (λ m. consume impl whole m next) found
        ∙ by_match (first_match true (c ∷ cs) impl.special_tokens none) (is_match (c ∷ cs))
            λ rest parts shorter.
              tokenize_rest-append fuel first rest second parts
                (omega (arith, shorter, length-append rest (d ∷ ds), length-append cs (d ∷ ds), h))
                (omega (arith, shorter, g)) k
      where
        by_match :
            (m : Option (ℕ × SpecialToken))
            → IsMatch impl true (c ∷ cs) m
            → ((rest : Bytes)
                → AllApart rest (d ∷ ds) impl.special_tokens
                → length rest ≤ length cs
                → tokenize_rest impl true fuel (rest ++ d ∷ ds) ≡ (
                    tokenize_rest impl true first rest
                    and_then tokenize_rest impl true second (d ∷ ds)))
            → consume impl
                (c ∷ cs ++ d ∷ ds)
                (beside m (length (c ∷ cs)) (some (0, token)))
                (λ r. tokenize_rest impl true fuel r)
              ≡ (consume impl (c ∷ cs) m (λ r. tokenize_rest impl true first r)
                  and_then tokenize_rest impl true second (d ∷ ds))
        by_match none no_match smaller =
            let text : Bytes = c ∷ cs in
            let n : ℕ = length text + 0 in
            let behind =
              drop-behind text (d ∷ ds) (n + length token.text) (length token.text) (omega arith) in
            let rest = drop (length token.text) (d ∷ ds) in
            let run = tokenize_rest impl true fuel rest in
            let zero_first : 0 + length token.text ≡ length token.text = omega arith in
            let shorter : length rest ≤ length ds =
              subst (λ n. length (drop n (d ∷ ds)) ≤ length ds) zero_first
                (length-drop_le 0 (length token.text) d ds token_spelled) in
            let short : length rest < fuel = omega (arith, shorter, length-append cs (d ∷ ds), h) in
            ap
              (λ t. raw_part impl t >>= λ ids.
                tokenize_rest impl true fuel (drop (n + length token.text) (text ++ d ∷ ds))
                >>= λ more. ok (ids ++ token.id ∷ more))
              (take-whole text (d ∷ ds) n (omega arith))
            ∙ ap
                (λ t. raw_part impl text >>= λ ids.
                  tokenize_rest impl true fuel t >>= λ more. ok (ids ++ token.id ∷ more))
                behind
            ∙ and_then_special (raw_part impl text) run token.id
            ∙ ap (λ r. raw_part impl text and_then r)
                (sym (tokenize_rest-special second fuel k short))
        by_match (some (n, t)) (match_at m u sought l e) smaller =
            let text : Bytes = c ∷ cs in
            let inside = match_inside t.text text n l e in
            let at : ℕ = n + length t.text in
            let rest = drop at text in
            let shorter = length-drop_le n (length t.text) c cs l in
            let split =
              smaller rest (AllApart-drop text (d ∷ ds) at impl.special_tokens apart) shorter in
            ap
              (λ p. raw_part impl p >>= λ ids.
                tokenize_rest impl true fuel (drop at (text ++ d ∷ ds)) >>= λ more.
                ok (ids ++ t.id ∷ more))
              (take-front n text (d ∷ ds) (omega (arith, inside)))
            ∙ ap (λ r. raw_part impl (take n text) >>= λ ids. r >>= λ more. ok (ids ++ t.id ∷ more))
                (ap (λ r. tokenize_rest impl true fuel r) (drop-front at text (d ∷ ds) inside)
                  ∙ split)
            ∙ and_then_assoc (raw_part impl (take n text)) (tokenize_rest impl true first rest)
                (tokenize_rest impl true second (d ∷ ds)) t.id
