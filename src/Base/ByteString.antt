-- ===== src/Base/ByteString.antt =====
-- A `std::string` as the list of its bytes, with `operator==` and `operator<`.
use Prim.Native.Char.{code}
use Prim.Native.Nat.{ℕ, suc}
use Prim.Native.String.{String}
use mathlib.Core.Path.{◌≡◌, refl}
use mathlib.Core.Logic.{◌↔◌}
use mathlib.Core.Bool.{Bool, true, false, ◌&&◌, ◌||◌}
use mathlib.Core.List.{List, [], ◌∷◌}
use mathlib.Core.Option
use mathlib.Core.Option.{Option, none, some}
use native.Mathlib.Omega.{arith}
use branchscore.Base.Tests.{ltb, ◌==◌, if◌then◌else◌}

abbrev pub Bytes : Type 0
Bytes = List ℕ

-- The code points of a text: its bytes, where it is ASCII.
abbrev pub codes : String → Bytes
codes String.[] = []
codes (String.◌∷◌ c s) = code c ∷ codes s

-- `operator==`
unfoldable pub equal : Bytes → Bytes → Bool
equal [] [] = true
equal (x ∷ xs) (y ∷ ys) = x == y && equal xs ys
equal _ _ = false

-- `operator<`: lexicographic on unsigned bytes
unfoldable pub less : Bytes → Bytes → Bool
less [] [] = false
less [] (y ∷ ys) = true
less (x ∷ xs) [] = false
less (x ∷ xs) (y ∷ ys) = ltb x y || (x == y && less xs ys)

-- Whether a text begins with another.
unfoldable pub starts_with : Bytes → Bytes → Bool
starts_with [] bytes = true
starts_with (c ∷ cs) [] = false
starts_with (c ∷ cs) (b ∷ bs) = c == b && starts_with cs bs

-- `std::string::find`: where a text first occurs
unfoldable pub find_text : Bytes → Bytes → Option ℕ
find_text pattern [] = if starts_with pattern [] then some 0 else none
find_text pattern (c ∷ cs) =
    let later = find_text pattern cs in
    if starts_with pattern (c ∷ cs) then some 0 else Option.map suc later

-- `operator==` decides equality.
pub equal_iff : (left right : Bytes) → (equal left right ≡ true) ↔ (left ≡ right)
unfolding equal
equal_iff [] [] = ground arith
equal_iff [] (c ∷ right) = ground arith
equal_iff (c ∷ left) [] = ground arith
equal_iff (c ∷ left) (d ∷ right) = ground (arith, equal_iff left right)

pub less_trans : (a b c : Bytes) → less a b ≡ true → less b c ≡ true → less a c ≡ true
unfolding less
less_trans [] (y ∷ b) (z ∷ c) p q = refl
less_trans (x ∷ a) (y ∷ b) (z ∷ c) p q = ground (arith, less_trans a b c)
less_trans [] [] c p q = cc
less_trans (x ∷ a) [] c p q = cc
less_trans a (y ∷ b) [] p q = cc

pub less_irrefl : (a : Bytes) → less a a ≡ false
unfolding less
less_irrefl [] = refl
less_irrefl (x ∷ a) = ground (arith, less_irrefl a)

pub less_asymm : (a b : Bytes) → less a b ≡ true → less b a ≡ false
unfolding less
less_asymm [] (y ∷ b) p = refl
less_asymm (x ∷ a) (y ∷ b) p = ground (arith, less_asymm a b)
less_asymm [] [] p = refl
less_asymm (x ∷ a) [] p = cc

pub less_total : (a b : Bytes) → less a b ≡ false → equal b a ≡ false → less b a ≡ true
unfolding less equal
less_total [] [] p q = cc
less_total (x ∷ a) [] p q = refl
less_total [] (y ∷ b) p q = cc
less_total (x ∷ a) (y ∷ b) p q = ground (arith, less_total a b)

pub less-equal : (a b : Bytes) → less a b ≡ true → equal a b ≡ false
unfolding less equal
less-equal [] (y ∷ b) p = refl
less-equal (x ∷ a) (y ∷ b) p = ground (arith, less-equal a b)
less-equal [] [] p = cc
less-equal (x ∷ a) [] p = refl
