-- ===== src/Tokenizer/Spelling/Segment.antt =====
-- `tokenize_segment` of src/tokenizer.cpp spells its segment.
use branchscore.Base.{
  ℕ, zero, suc, ◌+◌, ◌-◌, ◌*◌, ◌%◌, ◌^◌, ◌<◌, ◌≡◌, refl, sym, subst, Option, none, some, List, [],
  ◌∷◌, ◌++◌, append-nil, Bytes, length, drop, take-drop, drop-drop, drop-length, Bool-cases, inl,
  inr, arith,
}
use branchscore.Decision.{TokenId}
use branchscore.Result.{Result, Outcome, Outcome-bind}
use branchscore.Tokenizer.Linked.Links.{last, chained, IsLinked}
use branchscore.Tokenizer.Linked.Queue.{
  all_none, first_bigrams-AllQueued, length-first_bigrams, merge_symbols-IsLinked,
}
use branchscore.Tokenizer.Linked.Start.{split_symbols-IsLinked}
use branchscore.Tokenizer.Linked.Store.{IsAlive, IsAlive-lt, alive_count-le}
use branchscore.Tokenizer.Merge.{
  Symbol, at, substr, first_bigrams, require_id, byte_tokens, whole_or, symbol_tokens, emit,
  all_newlines, tokenize_symbols, tokenize_segment,
}
use branchscore.Tokenizer.Spelling.{Spells, nothing, whole, single, Spells-append, LacksByte, lacks}
use branchscore.Tokenizer.Vocabulary.{Impl, find_token, byte_piece}

require_id-Finds :
    (impl : Impl) (byte : ℕ)
    → Outcome
        (λ id. find_token impl (byte_piece (byte % 2 ^ 8)) ≡ some id)
        (LacksByte impl)
        (require_id (find_token impl (byte_piece (byte % 2 ^ 8))))
unfolding require_id
require_id-Finds impl byte = required (find_token impl (byte_piece (byte % 2 ^ 8))) refl
  where
    required :
        (o : Option TokenId)
        → find_token impl (byte_piece (byte % 2 ^ 8)) ≡ o
        → Outcome
            (λ id. find_token impl (byte_piece (byte % 2 ^ 8)) ≡ some id)
            (LacksByte impl)
            (require_id o)
    required none e = lacks (byte % 2 ^ 8) (omega arith) e
    required (some id) e = e

byte_tokens-Spells :
    (impl : Impl) (text : Bytes)
    → Outcome (Spells impl text) (LacksByte impl) (byte_tokens impl text)
unfolding byte_tokens
byte_tokens-Spells impl [] = nothing
byte_tokens-Spells impl (byte ∷ text) =
    Outcome-bind (λ id. find_token impl (byte_piece (byte % 2 ^ 8)) ≡ some id)
      (Spells impl (byte ∷ text)) (LacksByte impl) _ _ (require_id-Finds impl byte)
      (λ id e.
        Outcome-bind (Spells impl text) (Spells impl (byte ∷ text)) (LacksByte impl)
          (byte_tokens impl text) _ (byte_tokens-Spells impl text)
          (λ ids h. single byte text id ids e h))

whole_or-Spells :
    (impl : Impl) (text : Bytes) (o : Option TokenId) (rest : Result (List TokenId))
    → find_token impl text ≡ o
    → Outcome (Spells impl text) (LacksByte impl) rest
    → Outcome (Spells impl text) (LacksByte impl) (whole_or o rest)
unfolding whole_or
whole_or-Spells impl text none rest e h = h
whole_or-Spells impl text (some id) rest e h =
    rw (sym (append-nil text)) (whole text [] id [] e nothing)

symbol_tokens-Spells :
    (impl : Impl) (text : Bytes)
    → Outcome (Spells impl text) (LacksByte impl) (symbol_tokens impl text)
unfolding symbol_tokens
symbol_tokens-Spells impl text =
    whole_or-Spells impl text (find_token impl text) (byte_tokens impl text) refl
      (byte_tokens-Spells impl text)

-- A symbol's text, and the segment behind it
Spells-symbol :
    {impl : Impl} {is js : List TokenId} (segment : Bytes) (offset size : ℕ)
    → Spells impl (substr segment offset size) is
    → Spells impl (drop (offset + size) segment) js
    → Spells impl (drop offset segment) (is ++ js)
Spells-symbol {impl = impl} {js = js} segment offset size p q =
    let behind = drop-drop size offset (offset + size) segment refl in
    let rest : Spells impl (drop size (drop offset segment)) js = rw behind q in
    rw (sym (take-drop size (drop offset segment))) (Spells-append p rest)

emit-none-Spells :
    (impl : Impl) (segment : Bytes) (ss : List Symbol) (fuel at_end : ℕ)
    → 0 < fuel
    → at_end ≡ length segment
    → Outcome (Spells impl (drop at_end segment)) (LacksByte impl) (emit impl segment ss fuel none)
unfolding emit
emit-none-Spells impl segment ss zero at_end h e = absurd (omega arith)
emit-none-Spells impl segment ss (suc fuel) at_end h e = rw (e, drop-length segment) nothing

-- Along the links from a living symbol on, the rest of the segment is spelled.
emit-Spells :
    (impl : Impl) (segment : Bytes) (ss : List Symbol) (fuel i : ℕ)
    → IsLinked (length segment) ss
    → IsAlive (at ss i)
    → length ss < fuel + i
    → Outcome
        (Spells impl (drop (at ss i).offset segment))
        (LacksByte impl)
        (emit impl segment ss fuel (some i))
unfolding emit
emit-Spells impl segment ss zero i linked alive h = absurd (omega (arith, IsAlive-lt i ss alive, h))
emit-Spells impl segment ss (suc fuel) i linked alive h =
    let s = at ss i in
    let rest : Outcome (Spells impl (drop (s.offset + s.size) segment)) (LacksByte impl)
        (emit impl segment ss fuel s.next) =
      elim (linked.links i alive) [
        | last n e ↦ rw n (
            emit-none-Spells impl segment ss fuel (s.offset + s.size)
              (omega (arith, IsAlive-lt i ss alive, h)) e)
        | chained j n f ↦
            rw (n, sym f.adjoins)
              (emit-Spells impl segment ss fuel j linked f.alive (omega (arith, f.later, h)))
      ] in
    Outcome-bind (Spells impl (substr segment s.offset s.size))
      (Spells impl (drop s.offset segment)) (LacksByte impl) _ _
      (symbol_tokens-Spells impl (substr segment s.offset s.size))
      (λ is p.
        Outcome-bind (Spells impl (drop (s.offset + s.size) segment))
          (Spells impl (drop s.offset segment)) (LacksByte impl) (emit impl segment ss fuel s.next)
          _ rest (λ js q. Spells-symbol segment s.offset s.size p q))

tokenize_symbols-Spells :
    (impl : Impl) (c : ℕ) (cs : Bytes)
    → Outcome (Spells impl (c ∷ cs)) (LacksByte impl) (tokenize_symbols impl (c ∷ cs))
unfolding tokenize_symbols drop
tokenize_symbols-Spells impl c cs =
    let (ss, split, linked, chain) = split_symbols-IsLinked c cs in
    let queue = first_bigrams impl (c ∷ cs) ss (length ss - 1) 0 [] in
    let some_alive = IsAlive-lt 0 ss linked.first_alive in
    let queued =
      first_bigrams-AllQueued impl (c ∷ cs) ss (length ss - 1) 0 [] (omega (arith, some_alive))
        chain all_none in
    let (after, merge, kept) =
      merge_symbols-IsLinked impl (c ∷ cs) (suc (3 * length ss)) (length (c ∷ cs)) ss queue linked
        queued
        (omega (
          arith,
          length-first_bigrams impl (c ∷ cs) ss (length ss - 1) 0 [],
          alive_count-le ss,
          some_alive,
        )) in
    let spelled =
      emit-Spells impl (c ∷ cs) after (suc (length after)) 0 kept kept.first_alive (omega arith) in
    rw (split, merge)
      (subst
        (λ n.
          Outcome (Spells impl (drop n (c ∷ cs))) (LacksByte impl)
            (emit impl (c ∷ cs) after (suc (length after)) (some 0)))
        kept.first_offset spelled)

-- tokenize_segment ends, and throws for the lack of the piece of a byte or returns tokens that
-- spell the segment.
pub tokenize_segment-Spells :
    (impl : Impl) (segment : Bytes)
    → Outcome (Spells impl segment) (LacksByte impl) (tokenize_segment impl segment)
unfolding tokenize_segment
tokenize_segment-Spells impl [] = nothing
tokenize_segment-Spells impl (c ∷ cs) = elim (Bool-cases (all_newlines (c ∷ cs))) [
  | inl e ↦ rw e (
      whole_or-Spells impl (c ∷ cs) (find_token impl (c ∷ cs)) _ refl
        (tokenize_symbols-Spells impl c cs))
  | inr e ↦ rw e (tokenize_symbols-Spells impl c cs)
]
