-- ===== src/Tokenizer/Linked/Links.antt =====
-- The links between the symbols of src/tokenizer.cpp.
use branchscore.Base.{ℕ, ◌+◌, ◌<◌, ◌≡◌, ◌≢◌, refl, sym, ap, ◌∙◌, Option, none, some, List, length}
use branchscore.Tokenizer.Linked.Store.{IsAlive, at-store, at-store_other, length-store}
use branchscore.Tokenizer.Merge.{Symbol, at, relink}

pub record Follows (ss : List Symbol) (i j : ℕ) : Type 0 where
  pub later : i < j
  pub alive : IsAlive (at ss j)
  pub adjoins : (at ss j).offset ≡ (at ss i).offset + (at ss i).size
  pub links_back : (at ss j).previous ≡ some i

-- What a living symbol's `next` says: the segment ends behind it, or the next symbol begins there.
pub data Link (end : ℕ) (ss : List Symbol) (i : ℕ) : Type 0 where
  last : (at ss i).next ≡ none → (at ss i).offset + (at ss i).size ≡ end → Link end ss i
  chained : (j : ℕ) → (at ss i).next ≡ some j → Follows ss i j → Link end ss i

pub record IsLinked (end : ℕ) (ss : List Symbol) : Type 0 where
  pub first_alive : IsAlive (at ss 0)
  pub first_offset : (at ss 0).offset ≡ 0
  pub links : (i : ℕ) → IsAlive (at ss i) → Link end ss i
  pub backs : (p j : ℕ) → IsAlive (at ss j) → (at ss j).previous ≡ some p → (at ss p).next ≡ some j

pub some-injective : {a b : ℕ} → some a ≡ some b → a ≡ b
some-injective h = cc

pub Link-Follows :
    {end : ℕ} {ss : List Symbol} {i : ℕ} (j : ℕ)
    → Link end ss i
    → (at ss i).next ≡ some j
    → Follows ss i j
Link-Follows j (last n s) e = absurd (cc)
Link-Follows {ss = ss} {i = i} j (chained k n f) e =
    let same : k ≡ j = some-injective (sym n ∙ e) in rw (sym same) f

pub at-relink_next :
    (o : Option ℕ) (left j : ℕ) (ss : List Symbol)
    → o ≡ some j
    → IsAlive (at ss j)
    → at (relink o left ss) j ≡ record (at ss j) { previous = some left }
unfolding relink
at-relink_next none left j ss e h = absurd (cc)
at-relink_next (some k) left j ss e h =
    let same : k ≡ j = some-injective e in rw same (at-store j _ ss h)

pub at-relink_other :
    (o : Option ℕ) (left j : ℕ) (ss : List Symbol) → o ≢ some j → at (relink o left ss) j ≡ at ss j
unfolding relink
at-relink_other none left j ss h = refl
at-relink_other (some k) left j ss h = at-store_other k j _ ss (λ e. h (ap some e))

-- What a symbol keeps, apart from its `previous`
pub record Keeps (s t : Symbol) : Type 0 where
  pub next_kept : s.next ≡ t.next
  pub offset_kept : s.offset ≡ t.offset
  pub size_kept : s.size ≡ t.size

pub kept_by : {s t : Symbol} (o : Option ℕ) → s ≡ record t { previous = o } → Keeps s t
kept_by o e = rw e (record { next_kept = refl; offset_kept = refl; size_kept = refl })

pub length-relink :
    (o : Option ℕ) (left : ℕ) (ss : List Symbol) → length (relink o left ss) ≡ length ss
unfolding relink
length-relink none left ss = refl
length-relink (some i) left ss = length-store i _ ss
