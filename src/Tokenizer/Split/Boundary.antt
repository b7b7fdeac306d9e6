-- ===== src/Tokenizer/Split/Boundary.antt =====
-- The test of `tokenize_answer_label` of src/tokenizer.cpp for special tokens that span a boundary.
use branchscore.Base.{
  ℕ, zero, suc, ◌+◌, ◌-◌, ◌≤◌, ◌<◌, ◌≡◌, refl, sym, subst, ap, ◌∙◌, Bool, true, false, ◌||◌, Option,
  none, some, List, [], ◌∷◌, ◌++◌, append_assoc, Bytes, Bool-cases, inl, inr, ltb, leb, ◌==◌,
  if◌then◌else◌, length, drop, drop-drop, get_elem?, starts_with, find_text, arith,
}
use branchscore.Decision.{TokenId}
use branchscore.Result.{ok}
use branchscore.Tokenizer.AnswerLabel.{crosses, spans_boundary, is_known_special}
use branchscore.Tokenizer.Load.Loaded.{AllListed, listed_one, IsLoaded, in_range_iff}
use branchscore.Tokenizer.Segments.{earlier, first_match}
use branchscore.Tokenizer.Split.Find.{Apart, AllApart, none_apart, one_apart, starts_with-extend}
use branchscore.Tokenizer.Vocabulary.{Impl, SpecialToken, find_token, is_special_id, piece}

starts_with-front :
    (pattern text behind : Bytes)
    → starts_with pattern (text ++ behind) ≡ true
    → length pattern ≤ length text
    → starts_with pattern text ≡ true
unfolding starts_with
starts_with-front [] text behind h l = refl
starts_with-front (p ∷ ps) [] behind h l = absurd (omega (arith, l))
starts_with-front (p ∷ ps) (c ∷ cs) behind h l =
    let shorter : length ps ≤ length cs = omega (arith, l) in
    ground (arith, h, starts_with-front ps cs behind, shorter)

occurrences_in_front :
    (pattern text behind : Bytes)
    → ((p : ℕ)
        → p < length text
        → starts_with pattern (drop p (text ++ behind)) ≡ true
        → p + length pattern ≤ length text)
    → Apart pattern text behind
unfolding drop
occurrences_in_front pattern [] behind h = tt
occurrences_in_front pattern (c ∷ cs) behind h = (
  λ here.
      starts_with-front pattern (c ∷ cs) behind here
        (let fits = h 0 (omega arith) here in omega (arith, fits)),
  occurrences_in_front pattern cs behind
      λ p l there. let fits = h (suc p) (omega (arith, l)) there in omega (arith, fits),
)

-- `find` finds the first occurrence.
find_text-le :
    (pattern text : Bytes) (n : ℕ)
    → starts_with pattern (drop n text) ≡ true
    → (d : ℕ) × (find_text pattern text ≡ some d) × (d ≤ n)
unfolding find_text drop
find_text-le pattern [] zero h = (0, rw h refl, omega arith)
find_text-le pattern [] (suc n) h = (0, rw h refl, omega arith)
find_text-le pattern (c ∷ cs) zero h = (0, rw h refl, omega arith)
find_text-le pattern (c ∷ cs) (suc m) h =
    let (d, found, l) = find_text-le pattern cs m h in
    elim (Bool-cases (starts_with pattern (c ∷ cs))) [
      | inl here ↦ (0, rw here refl, omega arith)
      | inr other ↦ (suc d, rw (other, found) refl, omega (arith, l))
    ]

crosses-Apart :
    (pattern text behind : Bytes) (start : ℕ)
    → start ≡ (if leb (length pattern) (length text) then length text - length pattern + 1 else 0)
    → crosses (length text) (length pattern) start (find_text pattern (drop start (text ++ behind)))
      ≡ false
    → Apart pattern text behind
crosses-Apart pattern text behind start begins no_cross =
    occurrences_in_front pattern text behind λ p l there.
      elim (Bool-cases (ltb (length text) (p + length pattern))) [
        | inl spans ↦
            let early : start ≤ p = ground (arith, begins, spans, l) in
            let back : drop (p - start) (drop start (text ++ behind)) ≡ drop p (text ++ behind) =
              drop-drop (p - start) start p (text ++ behind) (omega (arith, early)) in
            let (d, found, le) =
              find_text-le pattern (drop start (text ++ behind)) (p - start)
                (ap (starts_with pattern) back ∙ there) in
            let inside : ltb (start + d) (length text) ≡ true = ground (arith, le, l, early) in
            let outside : ltb (length text) (start + d + length pattern) ≡ true =
              ground (arith, begins) in
            let crossed : crosses (length text) (length pattern) start
                  (find_text pattern (drop start (text ++ behind)))
                ≡ true =
              ap (crosses (length text) (length pattern) start) found ∙ rw (inside, outside) refl in
            absurd (true-false (sym crossed ∙ no_cross))
        | inr fits ↦ ground arith
      ]
  where
    true-false : true ≡ false → ⊥
    true-false e = cc

pub spans_boundary-AllApart :
    (text behind : Bytes) (tokens : List SpecialToken)
    → spans_boundary (text ++ behind) (length text) tokens ≡ false
    → AllApart text behind tokens
unfolding spans_boundary
spans_boundary-AllApart text behind [] h = none_apart
spans_boundary-AllApart text behind (t ∷ ts) h =
    let start : ℕ =
      if leb (length t.text) (length text) then length text - length t.text + 1 else 0 in
    let (not_first, not_later) =
      or_false
        (crosses (length text) (length t.text) start
          (find_text t.text (drop start (text ++ behind))))
        _ h in
    one_apart t ts (crosses-Apart t.text text behind start refl not_first)
      (spans_boundary-AllApart text behind ts not_later)
  where
    or_false : (a b : Bool) → (a || b) ≡ false → (a ≡ false) × (b ≡ false)
    or_false true b e = absurd (cc)
    or_false false b e = (refl, e)

Apart-shorter :
    (pattern text behind more : Bytes)
    → Apart pattern text (behind ++ more)
    → Apart pattern text behind
Apart-shorter pattern [] behind more h = tt
Apart-shorter pattern (c ∷ cs) behind more h = (
  λ here. h.0 (
      subst (λ t. starts_with pattern t ≡ true) (append_assoc (c ∷ cs) behind more)
        (starts_with-extend pattern (c ∷ cs ++ behind) more here)),
  Apart-shorter pattern cs behind more h.1,
)

pub AllApart-shorter :
    (text behind more : Bytes) (tokens : List SpecialToken)
    → AllApart text (behind ++ more) tokens
    → AllApart text behind tokens
AllApart-shorter text behind more [] none_apart = none_apart
AllApart-shorter text behind more (t ∷ ts) (one_apart u us h rest) =
    one_apart t ts (Apart-shorter t.text text behind more h)
      (AllApart-shorter text behind more ts rest)

-- A match at the beginning stays the best one.
front_kept :
    (text : Bytes) (tokens : List SpecialToken) (token : SpecialToken)
    → first_match true text tokens (some (0, token)) ≡ some (0, token)
unfolding first_match
front_kept text [] token = refl
front_kept text (t ∷ ts) token =
    ap (first_match true text ts) (not_earlier (find_text t.text text)) ∙ front_kept text ts token
  where
    not_earlier : (o : Option ℕ) → earlier t o (some (0, token)) ≡ some (0, token)
    not_earlier none = unfold earlier in refl
    not_earlier (some n) = let no : ltb n 0 ≡ false = ground arith in unfold earlier in rw no refl

earlier_front :
    (token : SpecialToken) (best : Option (ℕ × SpecialToken))
    → (other : SpecialToken) × (earlier token (some 0) best ≡ some (0, other))
unfolding earlier
earlier_front token none = (token, refl)
earlier_front token (some (zero, t)) = (t, refl)
earlier_front token (some (suc m, t)) =
    let before : ltb 0 (suc m) ≡ true = ground arith in (token, rw before refl)

starts_with-find_text :
    (pattern text : Bytes) → starts_with pattern text ≡ true → find_text pattern text ≡ some 0
unfolding find_text
starts_with-find_text pattern [] h = rw h refl
starts_with-find_text pattern (c ∷ cs) h = rw h refl

-- Where a text begins with a special token, the first match is at the beginning.
first_match_front :
    (pieces : List Bytes) (text pattern : Bytes) (id : TokenId) (tokens : List SpecialToken)
    (best : Option (ℕ × SpecialToken))
    → AllListed pieces tokens
    → is_special_id tokens id ≡ true
    → get_elem? pieces id ≡ some pattern
    → starts_with pattern text ≡ true
    → (token : SpecialToken) × (first_match true text tokens best ≡ some (0, token))
unfolding first_match is_special_id
first_match_front pieces text pattern id [] best listed special there begins = absurd (cc)
first_match_front pieces text pattern id (t ∷ ts) best (listed_one u us piece_there listed) special
      there begins =
    elim (Bool-cases (t.id == id)) [
      | inl this ↦
          let same : t.id ≡ id = ground (arith, this) in
          let spelled : t.text ≡ pattern =
            some_same (sym piece_there ∙ ap (get_elem? pieces) same ∙ there) in
          let found : find_text t.text text ≡ some 0 =
            ap (λ p. find_text p text) spelled ∙ starts_with-find_text pattern text begins in
          let (other, first) = earlier_front t best in
          (
            other,
            ap (λ o. first_match true text ts (earlier t o best)) found
                ∙ ap (first_match true text ts) first
                ∙ front_kept text ts other,
          )
      | inr not_this ↦
          let later : is_special_id ts id ≡ true = ground arith in
          first_match_front pieces text pattern id ts (earlier t (find_text t.text text) best)
            listed later there begins
    ]
  where
    some_same : {a b : Bytes} → some a ≡ some b → a ≡ b
    some_same e = cc

pub first_match_known :
    (impl : Impl) (text pattern : Bytes)
    → IsLoaded impl
    → is_known_special impl (find_token impl pattern) ≡ true
    → starts_with pattern text ≡ true
    → (token : SpecialToken) × (first_match true text impl.special_tokens none ≡ some (0, token))
first_match_known impl text pattern loaded known begins = at_id (find_token impl pattern) refl known
  where
    at_id :
        (o : Option TokenId)
        → find_token impl pattern ≡ o
        → is_known_special impl o ≡ true
        → (token : SpecialToken) × (first_match true text impl.special_tokens none
            ≡ some (0, token))
    at_id none e special = absurd (cc)
    at_id (some id) e special =
        let spelled : piece impl id ≡ ok pattern = (loaded.finds_iff pattern id).0 e in
        first_match_front impl.id_to_piece text pattern id impl.special_tokens none
          loaded.all_listed special
          ((in_range_iff (get_elem? impl.id_to_piece id) pattern).0 (unfold piece in spelled))
          begins
