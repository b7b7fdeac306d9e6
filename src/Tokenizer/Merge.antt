-- ===== src/Tokenizer/Merge.antt =====
-- `Impl::tokenize_segment` of src/tokenizer.cpp: byte pair encoding of one segment. An index is a
-- natural number, with `none` for -1: a segment has fewer than 2 ^ 31 characters.
use branchscore.Base.{
  ℕ, zero, suc, ◌+◌, ◌-◌, ◌*◌, ◌%◌, ◌^◌, Bool, true, not, ◌&&◌, ◌||◌, Option, none, some, List, [],
  ◌∷◌, ◌++◌, Bytes, equal, ◌==◌, ltb, if◌then◌else◌, length, take, drop,
}
use branchscore.Decision.{TokenId}
use branchscore.Result.{Result, ok, throw, out_of_fuel, runtime_error, ◌>>=◌}
use branchscore.Tokenizer.Vocabulary.{Impl, find_rank, find_token, utf8_character_size, byte_piece}

pub record Symbol : Type 0 where
  pub previous : Option ℕ
  pub next : Option ℕ
  pub offset : ℕ
  pub size : ℕ

pub record Bigram : Type 0 where
  pub left : ℕ
  pub right : ℕ
  pub rank : ℕ
  pub text : Bytes

-- What `symbols[i]` reads: outside the vector, where C++ leaves the read undefined, an empty symbol.
unfoldable pub at : List Symbol → ℕ → Symbol
at [] i = record { previous = none; next = none; offset = 0; size = 0 }
at (s ∷ ss) zero = s
at (s ∷ ss) (suc i) = at ss i

-- The assignment of `symbols[i]`
unfoldable pub store : ℕ → Symbol → List Symbol → List Symbol
store i s [] = []
store zero s (t ∷ ts) = s ∷ ts
store (suc i) s (t ∷ ts) = t ∷ store i s ts

-- `std::string::substr`
abbrev pub substr : Bytes → ℕ → ℕ → Bytes
substr text offset size = take size (drop offset text)

abbrev pub predecessor : ℕ → Option ℕ
predecessor zero = none
predecessor (suc i) = some i

-- The loop that cuts the segment into characters. `rest` is the segment from `offset` on.
unfoldable pub split_symbols : ℕ → ℕ → ℕ → Bytes → Result (List Symbol)
unfolding drop utf8_character_size
split_symbols zero index offset rest = out_of_fuel
split_symbols (suc fuel) index offset [] = ok []
split_symbols (suc fuel) index offset (first ∷ more) =
    let size = utf8_character_size first (length (first ∷ more)) in
    let symbol : Symbol = record {
      previous = predecessor index;
      next = if size == length (first ∷ more) then none else some (suc index);
      offset = offset;
      size = size;
    } in
    split_symbols fuel (suc index) (offset + size) (drop size (first ∷ more)) >>= λ symbols.
    ok (symbol ∷ symbols)

-- `BigramLater`: whether the queue gives out the other bigram first.
unfoldable pub bigram_later : Bigram → Bigram → Bool
bigram_later left right =
    ltb right.rank left.rank || (left.rank == right.rank && ltb right.left left.left)

-- `std::priority_queue`: its bigrams in the order in which they are given out.
unfoldable pub push : Bigram → List Bigram → List Bigram
push b [] = b ∷ []
push b (c ∷ queue) = let rest = push b queue in if bigram_later b c then c ∷ rest else b ∷ c ∷ queue

-- `if (rank == merge_ranks.end()) return;`, and the call of `push` behind it
unfoldable pub enqueue : ℕ → ℕ → Bytes → Option ℕ → List Bigram → List Bigram
enqueue left right text none queue = queue
enqueue left right text (some rank) queue =
    push (record { left = left; right = right; rank = rank; text = text }) queue

-- `add_bigram`; an index that is negative is `none`.
unfoldable pub add_bigram :
    Impl → Bytes → List Symbol → Option ℕ → Option ℕ → List Bigram → List Bigram
add_bigram impl segment symbols none right queue = queue
add_bigram impl segment symbols (some left) none queue = queue
add_bigram impl segment symbols (some left) (some right) queue =
    let left_text = substr segment (at symbols left).offset (at symbols left).size in
    let right_text = substr segment (at symbols right).offset (at symbols right).size in
    enqueue left right (left_text ++ right_text) (find_rank impl.merge_ranks left_text right_text)
      queue

-- The loop `add_bigram(i - 1, i)`, with `count` rounds left.
unfoldable pub first_bigrams : Impl → Bytes → List Symbol → ℕ → ℕ → List Bigram → List Bigram
first_bigrams impl segment symbols zero i queue = queue
first_bigrams impl segment symbols (suc count) i queue =
    first_bigrams impl segment symbols count (suc i)
      (add_bigram impl segment symbols (some i) (some (suc i)) queue)

-- `if (right.next >= 0) symbols[right.next].previous = bigram.left`
unfoldable pub relink : Option ℕ → ℕ → List Symbol → List Symbol
relink none left symbols = symbols
relink (some i) left symbols = store i (record (at symbols i) { previous = some left }) symbols

-- The right symbol is added to the left one, and becomes empty.
unfoldable pub join : ℕ → ℕ → List Symbol → List Symbol
join left right symbols =
    let l = at symbols left in
    let r = at symbols right in
    relink r.next left (
      store right (record r { size = 0 })
        (store left (record l { size = l.size + r.size; next = r.next }) symbols))

-- Whether a bigram of the queue no longer describes two symbols.
unfoldable pub is_stale : Bytes → List Symbol → Bigram → Bool
is_stale segment symbols bigram =
    let l = at symbols bigram.left in
    let r = at symbols bigram.right in
    l.size == 0
    || r.size == 0
    || not (equal (substr segment l.offset (l.size + r.size)) bigram.text)

-- The two calls of `add_bigram` after a merge
unfoldable pub add_neighbours : Impl → Bytes → List Symbol → ℕ → List Bigram → List Bigram
add_neighbours impl segment symbols left queue =
    let before = add_bigram impl segment symbols (at symbols left).previous (some left) queue in
    add_bigram impl segment symbols (some left) (at symbols left).next before

-- The loop over the queue
unfoldable pub merge_symbols : Impl → Bytes → ℕ → List Symbol → List Bigram → Result (List Symbol)
merge_symbols impl segment zero symbols queue = out_of_fuel
merge_symbols impl segment (suc fuel) symbols [] = ok symbols
merge_symbols impl segment (suc fuel) symbols (bigram ∷ queue) =
    if is_stale segment symbols bigram
    then merge_symbols impl segment fuel symbols queue
    else (let joined = join bigram.left bigram.right symbols in
        merge_symbols impl segment fuel joined
          (add_neighbours impl segment joined bigram.left queue))

-- `if (fallback == end()) throw`, and the id
unfoldable pub require_id : Option TokenId → Result TokenId
require_id none = throw runtime_error
require_id (some id) = ok id

-- The byte fallback of one symbol, over its characters as `unsigned char`
unfoldable pub byte_tokens : Impl → Bytes → Result (List TokenId)
byte_tokens impl [] = ok []
byte_tokens impl (byte ∷ text) = require_id (find_token impl (byte_piece (byte % 2 ^ 8))) >>= λ id.
    byte_tokens impl text >>= λ ids. ok (id ∷ ids)

-- The token of a whole text, where there is one; else what follows in the code.
unfoldable pub whole_or : Option TokenId → Result (List TokenId) → Result (List TokenId)
whole_or none rest = rest
whole_or (some id) rest = ok (id ∷ [])

unfoldable pub symbol_tokens : Impl → Bytes → Result (List TokenId)
symbol_tokens impl text = whole_or (find_token impl text) (byte_tokens impl text)

-- The loop along the links from an index on
unfoldable pub emit : Impl → Bytes → List Symbol → ℕ → Option ℕ → Result (List TokenId)
emit impl segment symbols zero index = out_of_fuel
emit impl segment symbols (suc fuel) none = ok []
emit impl segment symbols (suc fuel) (some index) =
    let symbol = at symbols index in
    symbol_tokens impl (substr segment symbol.offset symbol.size) >>= λ ids.
    emit impl segment symbols fuel symbol.next >>= λ more. ok (ids ++ more)

-- `find_first_not_of('\n') == npos`
unfoldable pub all_newlines : Bytes → Bool
all_newlines [] = true
all_newlines (c ∷ cs) = c == 10 && all_newlines cs

-- What follows the look-up of a segment of newlines. Every symbol but the first adds one bigram to
-- the queue at the start, and every merge two at most.
unfoldable pub tokenize_symbols : Impl → Bytes → Result (List TokenId)
tokenize_symbols impl segment = split_symbols (suc (length segment)) 0 0 segment >>= λ symbols.
    merge_symbols impl segment (suc (3 * length symbols)) symbols
      (first_bigrams impl segment symbols (length symbols - 1) 0 [])
    >>= λ merged. emit impl segment merged (suc (length merged)) (some 0)

-- What is appended to `output`
unfoldable pub tokenize_segment : Impl → Bytes → Result (List TokenId)
tokenize_segment impl [] = ok []
tokenize_segment impl (c ∷ cs) =
    if all_newlines (c ∷ cs)
    then whole_or (find_token impl (c ∷ cs)) (tokenize_symbols impl (c ∷ cs))
    else tokenize_symbols impl (c ∷ cs)
