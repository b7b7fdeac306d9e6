-- ===== src/Tokenizer/Linked/Store.antt =====
-- The vector of symbols of src/tokenizer.cpp, read behind a write.
use branchscore.Base.{ℕ, zero, suc, ◌+◌, ◌<◌, ◌≤◌, ◌≡◌, ◌≢◌, refl, ap, List, [], ◌∷◌, arith, length}
use branchscore.Tokenizer.Merge.{Symbol, at, store}

-- The symbol has not been merged into another.
abbrev pub IsAlive : Symbol → Type 0
IsAlive s = 0 < s.size

pub at-store : (i : ℕ) (s : Symbol) (ss : List Symbol) → IsAlive (at ss i) → at (store i s ss) i ≡ s
unfolding at store
at-store i s [] h = absurd (omega arith)
at-store zero s (t ∷ ts) h = refl
at-store (suc i) s (t ∷ ts) h = at-store i s ts h

pub at-store_other :
    (i j : ℕ) (s : Symbol) (ss : List Symbol) → i ≢ j → at (store i s ss) j ≡ at ss j
unfolding at store
at-store_other i j s [] h = refl
at-store_other zero zero s (t ∷ ts) h = absurd (h refl)
at-store_other zero (suc j) s (t ∷ ts) h = refl
at-store_other (suc i) zero s (t ∷ ts) h = refl
at-store_other (suc i) (suc j) s (t ∷ ts) h = at-store_other i j s ts (λ e. h (ap suc e))

pub IsAlive-lt : (i : ℕ) (ss : List Symbol) → IsAlive (at ss i) → i < length ss
unfolding at
IsAlive-lt i [] h = absurd (omega arith)
IsAlive-lt zero (s ∷ ss) h = omega arith
IsAlive-lt (suc i) (s ∷ ss) h = omega (arith, IsAlive-lt i ss h)

pub length-store : (i : ℕ) (s : Symbol) (ss : List Symbol) → length (store i s ss) ≡ length ss
unfolding store
length-store i s [] = refl
length-store zero s (t ∷ ts) = refl
length-store (suc i) s (t ∷ ts) = omega (arith, length-store i s ts)

-- How many symbols are left
abbrev weight : ℕ → ℕ
weight zero = 0
weight (suc n) = 1

unfoldable pub alive_count : List Symbol → ℕ
alive_count [] = 0
alive_count (s ∷ ss) = weight s.size + alive_count ss

pub alive_count-store :
    (i : ℕ) (s : Symbol) (ss : List Symbol)
    → IsAlive (at ss i)
    → IsAlive s
    → alive_count (store i s ss) ≡ alive_count ss
unfolding at store alive_count
alive_count-store i s [] h g = refl
alive_count-store zero s (t ∷ ts) h g = ground arith
alive_count-store (suc i) s (t ∷ ts) h g = omega (arith, alive_count-store i s ts h g)

pub alive_count-store_empty :
    (i : ℕ) (s : Symbol) (ss : List Symbol)
    → IsAlive (at ss i)
    → s.size ≡ 0
    → suc (alive_count (store i s ss)) ≡ alive_count ss
unfolding at store alive_count
alive_count-store_empty i s [] h g = absurd (omega arith)
alive_count-store_empty zero s (t ∷ ts) h g = ground arith
alive_count-store_empty (suc i) s (t ∷ ts) h g = omega (arith, alive_count-store_empty i s ts h g)

pub alive_count-le : (ss : List Symbol) → alive_count ss ≤ length ss
unfolding alive_count
alive_count-le [] = omega arith
alive_count-le (s ∷ ss) = ground (arith, alive_count-le ss)
