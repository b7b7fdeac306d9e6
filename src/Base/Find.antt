-- ===== src/Base/Find.antt =====
-- Where a text begins with another, and where it first occurs.
use Prim.Native.Nat.{ℕ, suc, ◌+◌}
use mathlib.Core.Path.{◌≡◌, refl, sym, ap, ◌∙◌}
use mathlib.Core.Bool.{true}
use mathlib.Core.Logic.{inl, inr}
use mathlib.Core.List.{[], ◌∷◌, ◌++◌}
use mathlib.Core.Option
use mathlib.Core.Option.{Option, none, some}
use native.Mathlib.Omega.{arith}
use branchscore.Base.ByteString.{Bytes, starts_with, find_text}
use branchscore.Base.Lists.{length, take, drop, take-drop, drop-drop}
use branchscore.Base.Tests.{Bool-cases}

pub starts_with-append :
    (pattern text : Bytes)
    → starts_with pattern text ≡ true
    → pattern ++ drop (length pattern) text ≡ text
unfolding starts_with drop
starts_with-append [] text h = refl
starts_with-append (c ∷ cs) [] h = absurd (cc)
starts_with-append (c ∷ cs) (b ∷ bs) h = ground (arith, starts_with-append cs bs)

map-suc : (o : Option ℕ) (n : ℕ) → Option.map suc o ≡ some n → (m : ℕ) × (n ≡ suc m) × (o ≡ some m)
map-suc none n h = absurd (cc)
map-suc (some m) n h = (m, ground (arith, h), refl)

some_zero : (n : ℕ) → some 0 ≡ some n → n ≡ 0
some_zero n h = ground (arith, h)

-- Where `find` finds a pattern, it stands.
pub find_text-starts_with :
    (pattern text : Bytes) (n : ℕ)
    → find_text pattern text ≡ some n
    → starts_with pattern (drop n text) ≡ true
unfolding find_text drop
find_text-starts_with pattern [] n h = elim (Bool-cases (starts_with pattern [])) [
  | inl e ↦ let here = some_zero n (sym (rw e refl) ∙ h) in rw (here, e) refl
  | inr e ↦ absurd (ground arith)
]
find_text-starts_with pattern (c ∷ cs) n h = elim (Bool-cases (starts_with pattern (c ∷ cs))) [
  | inl e ↦ let here = some_zero n (sym (rw e refl) ∙ h) in rw (here, e) refl
  | inr e ↦
      let (m, same, later) = map-suc (find_text pattern cs) n (sym (rw e refl) ∙ h) in
      rw same (find_text-starts_with pattern cs m later)
]

-- The text before what `find` finds, the pattern, and the text behind it
pub find_text-append :
    (pattern text : Bytes) (n : ℕ)
    → find_text pattern text ≡ some n
    → take n text ++ (pattern ++ drop (n + length pattern) text) ≡ text
find_text-append pattern text n h =
    let behind = drop-drop (length pattern) n (n + length pattern) text refl in
    let found = starts_with-append pattern (drop n text) (find_text-starts_with pattern text n h) in
    ap (λ t. take n text ++ (pattern ++ t)) (sym behind)
    ∙ ap (λ t. take n text ++ t) found
    ∙ take-drop n text
