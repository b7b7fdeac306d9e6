-- ===== src/Tokenizer/Linked/Queue.antt =====
-- The queue of bigrams in `tokenize_segment` of src/tokenizer.cpp: what it holds, and its end.
use branchscore.Base.{
  ℕ, zero, suc, ◌+◌, ◌*◌, ◌<◌, ◌≤◌, ◌≡◌, ◌⊎◌, inl, inr, refl, Option, none, some, List, [], ◌∷◌,
  Bytes, false, Bool-cases, length, arith,
}
use branchscore.Result.{ok}
use branchscore.Tokenizer.Linked.Join.{
  IsLinked-join, alive_count-join, length-join, empty_stays, link_stays, left_stays,
}
use branchscore.Tokenizer.Linked.Links.{Link, last, chained, IsLinked}
use branchscore.Tokenizer.Linked.Store.{IsAlive, IsAlive-lt, alive_count}
use branchscore.Tokenizer.Merge.{
  Symbol, Bigram, at, push, add_bigram, first_bigrams, join, enqueue, is_stale, bigram_later,
  add_neighbours, merge_symbols,
}
use branchscore.Tokenizer.Vocabulary.{Impl}

-- A bigram of the queue: two neighbours, or one of them has been merged away.
pub record IsQueued (ss : List Symbol) (b : Bigram) : Type 0 where
  pub left_inside : b.left < length ss
  pub right_inside : b.right < length ss
  pub state :
      ((at ss b.left).size ≡ 0) ⊎ ((at ss b.right).size ≡ 0) ⊎ ((at ss b.left).next ≡ some b.right)

pub data AllQueued (ss : List Symbol) : List Bigram → Type 0 where
  all_none : AllQueued ss []
  all_one :
      (b : Bigram) (queue : List Bigram)
      → IsQueued ss b
      → AllQueued ss queue
      → AllQueued ss (b ∷ queue)

push-AllQueued :
    {ss : List Symbol} (b : Bigram) (queue : List Bigram)
    → IsQueued ss b
    → AllQueued ss queue
    → AllQueued ss (push b queue)
unfolding push
push-AllQueued b [] h all_none = all_one b [] h all_none
push-AllQueued b (c ∷ queue) h (all_one d rest g all) = elim (Bool-cases (bigram_later b c)) [
  | inl later ↦ rw later (all_one c (push b queue) g (push-AllQueued b queue h all))
  | inr first ↦ rw first (all_one b (c ∷ queue) h (all_one c queue g all))
]

length-push : (b : Bigram) (queue : List Bigram) → length (push b queue) ≡ suc (length queue)
unfolding push
length-push b [] = refl
length-push b (c ∷ queue) = ground (arith, length-push b queue)

length-enqueue :
    (left right : ℕ) (text : Bytes) (o : Option ℕ) (queue : List Bigram)
    → length (enqueue left right text o queue) ≤ suc (length queue)
unfolding enqueue
length-enqueue left right text none queue = omega arith
length-enqueue left right text (some rank) queue = omega (arith, length-push _ queue)

-- `add_bigram` adds one bigram at most.
length-add_bigram :
    (impl : Impl) (segment : Bytes) (ss : List Symbol) (left right : Option ℕ) (queue : List Bigram)
    → length (add_bigram impl segment ss left right queue) ≤ suc (length queue)
unfolding add_bigram
length-add_bigram impl segment ss none right queue = omega arith
length-add_bigram impl segment ss (some left) none queue = omega arith
length-add_bigram impl segment ss (some left) (some right) queue =
    length-enqueue left right _ _ queue

-- The arguments with which `add_bigram` is called: neighbours, or a negative index.
data Adjoin (ss : List Symbol) : Option ℕ → Option ℕ → Type 0 where
  no_left : (right : Option ℕ) → Adjoin ss none right
  no_right : (left : Option ℕ) → Adjoin ss left none
  both :
      (left right : ℕ)
      → left < length ss
      → right < length ss
      → (at ss left).next ≡ some right
      → Adjoin ss (some left) (some right)

enqueue-AllQueued :
    {ss : List Symbol} (left right : ℕ) (text : Bytes) (o : Option ℕ) (queue : List Bigram)
    → left < length ss
    → right < length ss
    → (at ss left).next ≡ some right
    → AllQueued ss queue
    → AllQueued ss (enqueue left right text o queue)
unfolding enqueue
enqueue-AllQueued left right text none queue h g e all = all
enqueue-AllQueued left right text (some rank) queue h g e all =
    push-AllQueued _ queue (record { left_inside = h; right_inside = g; state = inr (inr e) }) all

add_bigram-AllQueued :
    (impl : Impl) (segment : Bytes) (ss : List Symbol) (left right : Option ℕ) (queue : List Bigram)
    → Adjoin ss left right
    → AllQueued ss queue
    → AllQueued ss (add_bigram impl segment ss left right queue)
unfolding add_bigram
add_bigram-AllQueued impl segment ss none right queue h all = all
add_bigram-AllQueued impl segment ss (some left) none queue h all = all
add_bigram-AllQueued impl segment ss (some left) (some right) queue (both l r h g e) all =
    enqueue-AllQueued left right _ _ queue h g e all

-- A symbol that links to another one is inside of the vector.
next-lt : (ss : List Symbol) (i j : ℕ) → (at ss i).next ≡ some j → i < length ss
unfolding at
next-lt [] i j e = absurd (cc)
next-lt (s ∷ ss) zero j e = omega arith
next-lt (s ∷ ss) (suc i) j e = omega (arith, next-lt ss i j e)

-- The queue at the start
pub first_bigrams-AllQueued :
    (impl : Impl) (segment : Bytes) (ss : List Symbol) (count i : ℕ) (queue : List Bigram)
    → i + count < length ss
    → ((j : ℕ) → suc j < length ss → (at ss j).next ≡ some (suc j))
    → AllQueued ss queue
    → AllQueued ss (first_bigrams impl segment ss count i queue)
unfolding first_bigrams
first_bigrams-AllQueued impl segment ss zero i queue h chain all = all
first_bigrams-AllQueued impl segment ss (suc count) i queue h chain all =
    first_bigrams-AllQueued impl segment ss count (suc i) _ (omega (arith, h)) chain (
      add_bigram-AllQueued impl segment ss (some i) (some (suc i)) queue
        (both i (suc i) (omega (arith, h)) (omega (arith, h)) (chain i (omega (arith, h)))) all)

pub length-first_bigrams :
    (impl : Impl) (segment : Bytes) (ss : List Symbol) (count i : ℕ) (queue : List Bigram)
    → length (first_bigrams impl segment ss count i queue) ≤ count + length queue
unfolding first_bigrams
length-first_bigrams impl segment ss zero i queue = omega arith
length-first_bigrams impl segment ss (suc count) i queue = omega (
  arith,
  length-first_bigrams impl segment ss count (suc i)
      (add_bigram impl segment ss (some i) (some (suc i)) queue),
  length-add_bigram impl segment ss (some i) (some (suc i)) queue,
)

length-add_neighbours :
    (impl : Impl) (segment : Bytes) (ss : List Symbol) (left : ℕ) (queue : List Bigram)
    → length (add_neighbours impl segment ss left queue) ≤ 2 + length queue
unfolding add_neighbours
length-add_neighbours impl segment ss left queue = omega (
  arith,
  length-add_bigram impl segment ss (at ss left).previous (some left) queue,
  length-add_bigram impl segment ss (some left) (at ss left).next
      (add_bigram impl segment ss (at ss left).previous (some left) queue),
)

Adjoin-next :
    {end : ℕ} {ss : List Symbol} {left : ℕ}
    → Link end ss left
    → left < length ss
    → Adjoin ss (some left) (at ss left).next
Adjoin-next {left = left} (last n e) h = rw n (no_right (some left))
Adjoin-next {ss = ss} {left = left} (chained j n f) h =
    rw n (both left j h (IsAlive-lt j ss f.alive) n)

Adjoin-previous :
    {end : ℕ} {ss : List Symbol} {left : ℕ}
    → IsLinked end ss
    → IsAlive (at ss left)
    → (o : Option ℕ) → (at ss left).previous ≡ o
    → Adjoin ss o (some left)
Adjoin-previous linked alive none e = no_left _
Adjoin-previous {ss = ss} {left = left} linked alive (some p) e =
    let forth = linked.backs p left alive e in
    both p left (next-lt ss p left forth) (IsAlive-lt left ss alive) forth

add_neighbours-AllQueued :
    (impl : Impl) (segment : Bytes) (ss : List Symbol) (end left : ℕ) (queue : List Bigram)
    → IsLinked end ss
    → IsAlive (at ss left)
    → AllQueued ss queue
    → AllQueued ss (add_neighbours impl segment ss left queue)
unfolding add_neighbours
add_neighbours-AllQueued impl segment ss end left queue linked alive all =
    let inside = IsAlive-lt left ss alive in
    add_bigram-AllQueued impl segment ss (some left) (at ss left).next _
      (Adjoin-next (linked.links left alive) inside)
      (add_bigram-AllQueued impl segment ss (at ss left).previous (some left) queue
        (Adjoin-previous linked alive (at ss left).previous refl) all)

-- What is in the queue stays valid behind a merge.
join-AllQueued :
    (end : ℕ) (ss : List Symbol) (l r : ℕ)
    → IsLinked end ss
    → IsAlive (at ss l)
    → IsAlive (at ss r)
    → (at ss l).next ≡ some r
    → (queue : List Bigram) → AllQueued ss queue
    → AllQueued (join l r ss) queue
join-AllQueued end ss l r linked al ar e [] all_none = all_none
join-AllQueued end ss l r linked al ar e (b ∷ queue) (all_one c rest h all) =
    let same = length-join end ss l r linked al ar e in
    all_one b queue
      (record {
        left_inside = rw same h.left_inside;
        right_inside = rw same h.right_inside;
        state = elim h.state [
          | inl empty ↦ inl (empty_stays end ss l r linked al ar e b.left empty)
          | inr (inl empty) ↦ inr (inl (empty_stays end ss l r linked al ar e b.right empty))
          | inr (inr link) ↦ link_stays end ss l r linked al ar e b.left b.right link
        ];
      })
      (join-AllQueued end ss l r linked al ar e queue all)

-- A bigram that is not stale names two living neighbours.
is_stale-state :
    (segment : Bytes) (ss : List Symbol) (b : Bigram)
    → IsQueued ss b
    → is_stale segment ss b ≡ false
    → IsAlive (at ss b.left) × IsAlive (at ss b.right) × ((at ss b.left).next ≡ some b.right)
unfolding is_stale
is_stale-state segment ss b h e = (
  ground arith,
  ground arith,
  elim h.state [
    | inl empty ↦ absurd (ground arith)
    | inr (inl empty) ↦ absurd (ground arith)
    | inr (inr link) ↦ link
  ],
)

-- The loop over the queue ends, and keeps the symbols linked.
pub merge_symbols-IsLinked :
    (impl : Impl) (segment : Bytes) (fuel end : ℕ) (ss : List Symbol) (queue : List Bigram)
    → IsLinked end ss
    → AllQueued ss queue
    → length queue + 2 * alive_count ss < fuel
    → (after : List Symbol) × (merge_symbols impl segment fuel ss queue ≡ ok after)
      × IsLinked end after
unfolding merge_symbols
merge_symbols-IsLinked impl segment zero end ss queue linked all h = absurd (omega arith)
merge_symbols-IsLinked impl segment (suc fuel) end ss [] linked all h = (ss, refl, linked)
merge_symbols-IsLinked impl segment (suc fuel) end ss (b ∷ queue) linked (all_one c rest q all) h =
    elim (Bool-cases (is_stale segment ss b)) [
      | inl stale ↦
          rw stale
            (merge_symbols-IsLinked impl segment fuel end ss queue linked all (omega (arith, h)))
      | inr fresh ↦
          let (al, ar, e) = is_stale-state segment ss b q fresh in
          let joined = join b.left b.right ss in
          let linked_after = IsLinked-join end ss b.left b.right linked al ar e in
          let fewer = alive_count-join end ss b.left b.right linked al ar e in
          let left_alive : IsAlive (at joined b.left) =
            left_stays end ss b.left b.right linked al ar e in
          let all_after =
            add_neighbours-AllQueued impl segment joined end b.left queue linked_after left_alive
              (join-AllQueued end ss b.left b.right linked al ar e queue all) in
          rw fresh (
            merge_symbols-IsLinked impl segment fuel end joined
              (add_neighbours impl segment joined b.left queue) linked_after all_after
              (omega (arith, h, fewer, length-add_neighbours impl segment joined b.left queue)))
    ]
