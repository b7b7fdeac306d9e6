-- ===== src/Result.antt =====
-- The outcome of code that may throw, and postconditions on it.
-- An exception is its class, with the `code()` of those that have one. No caller inside the program
-- reads a message, so messages are left out.
use branchscore.Base.{◌≡◌, refl, Bool, true, false, String, if◌then◌else◌}

pub data Exception : Type 0 where
  runtime_error invalid_argument out_of_range image_decode_error : Exception
  request_error decision_budget_error : String → Exception

-- `out_of_fuel` has no counterpart in the program.
pub data Result {ℓ} (A : Type ℓ) : Type ℓ where
  ok : A → Result A
  throw : Exception → Result A
  out_of_fuel : Result A

infixl 5 ◌>>=◌ ◌>>◌
abbrev pub ◌>>=◌ {ℓ κ} : {A : Type ℓ} {B : Type κ} → Result A → (A → Result B) → Result B
ok a >>= f = f a
throw e >>= f = throw e
out_of_fuel >>= f = out_of_fuel

abbrev pub ◌>>◌ {ℓ} : {B : Type ℓ} → Result (Unit {0}) → Result B → Result B
m >> k = m >>= λ _. k

-- `if (b) throw e;`
abbrev pub throw_if : Bool → Exception → Result (Unit {0})
throw_if true e = throw e
throw_if false e = ok tt

-- The run keeps within its fuel, and `P` holds of its value if it has one.
abbrev pub Ensures {ℓ} : {A : Type ℓ} → (A → Type 0) → Result A → Type 0
Ensures P (ok a) = P a
Ensures P (throw e) = Unit
Ensures P out_of_fuel = ⊥

pub Ensures-bind {ℓ κ} :
    {A : Type ℓ} {B : Type κ} (P : A → Type 0) (Q : B → Type 0) (r : Result A) (f : A → Result B)
    → Ensures P r
    → ((a : A) → P a → Ensures Q (f a))
    → Ensures Q (r >>= f)
Ensures-bind P Q (ok a) f h k = k a h
Ensures-bind P Q (throw e) f h k = tt
Ensures-bind P Q out_of_fuel f h k = h

pub Ensures-if {ℓ} :
    {A : Type ℓ} (P : A → Type 0) (b : Bool) (x y : Result A)
    → (b ≡ true → Ensures P x)
    → (b ≡ false → Ensures P y)
    → Ensures P (if b then x else y)
Ensures-if P true x y hx hy = hx refl
Ensures-if P false x y hx hy = hy refl

pub Ensures-throw_if {ℓ} :
    {A : Type ℓ} (P : A → Type 0) (b : Bool) (e : Exception) (r : Result A)
    → (b ≡ false → Ensures P r)
    → Ensures P (throw_if b e >> r)
Ensures-throw_if P true e r h = tt
Ensures-throw_if P false e r h = h refl

pub Ensures-mono {ℓ} :
    {A : Type ℓ} (P Q : A → Type 0) (r : Result A)
    → Ensures P r
    → ((a : A) → P a → Q a)
    → Ensures Q r
Ensures-mono P Q (ok a) h k = k a h
Ensures-mono P Q (throw e) h k = tt
Ensures-mono P Q out_of_fuel h k = h

-- A bind that returns: its first part did, and so did the rest.
pub ok_of_bind {ℓ κ} :
    {A : Type ℓ} {B : Type κ} (m : Result A) (f : A → Result B) (b : B)
    → (m >>= f) ≡ ok b
    → (a : A) × (m ≡ ok a) × (f a ≡ ok b)
ok_of_bind (ok a) f b h = (a, refl, h)
ok_of_bind (throw e) f b h = absurd (cc)
ok_of_bind out_of_fuel f b h = absurd (cc)

pub ok-injective {ℓ} : {A : Type ℓ} {a b : A} → ok a ≡ ok b → a ≡ b
ok-injective h = cc

-- `P` holds of the value, or `E` of the exception.
abbrev pub Outcome {ℓ} : {A : Type ℓ} → (A → Type 0) → (Exception → Type 0) → Result A → Type 0
Outcome P E (ok a) = P a
Outcome P E (throw e) = E e
Outcome P E out_of_fuel = ⊥

pub Outcome-bind {ℓ κ} :
    {A : Type ℓ} {B : Type κ} (P : A → Type 0) (Q : B → Type 0) (E : Exception → Type 0)
    (r : Result A) (f : A → Result B)
    → Outcome P E r
    → ((a : A) → P a → Outcome Q E (f a))
    → Outcome Q E (r >>= f)
Outcome-bind P Q E (ok a) f h k = k a h
Outcome-bind P Q E (throw e) f h k = h
Outcome-bind P Q E out_of_fuel f h k = h

pub Outcome-throw_if {ℓ} :
    {A : Type ℓ} (Q : A → Type 0) (E : Exception → Type 0) (b : Bool) (e : Exception) (r : Result A)
    → E e
    → (b ≡ false → Outcome Q E r)
    → Outcome Q E (throw_if b e >> r)
Outcome-throw_if Q E true e r he h = he
Outcome-throw_if Q E false e r he h = h refl

pub Outcome-weaken {ℓ} :
    {A : Type ℓ} (P : A → Type 0) (E F : Exception → Type 0) (r : Result A)
    → Outcome P E r
    → ((e : Exception) → E e → F e)
    → Outcome P F r
Outcome-weaken P E F (ok a) h k = h
Outcome-weaken P E F (throw e) h k = k e h
Outcome-weaken P E F out_of_fuel h k = h

pub Outcome-mono {ℓ} :
    {A : Type ℓ} (P Q : A → Type 0) (E : Exception → Type 0) (r : Result A)
    → Outcome P E r
    → ((a : A) → P a → Q a)
    → Outcome Q E r
Outcome-mono P Q E (ok a) h k = k a h
Outcome-mono P Q E (throw e) h k = h
Outcome-mono P Q E out_of_fuel h k = h

-- A run whose exceptions are ruled out returns.
pub ok_of_Outcome {ℓ} :
    {A : Type ℓ} {P : A → Type 0} {E : Exception → Type 0} (r : Result A)
    → Outcome P E r
    → ((e : Exception) → E e → ⊥)
    → (a : A) × (r ≡ ok a) × P a
ok_of_Outcome (ok a) h never = (a, refl, h)
ok_of_Outcome (throw e) h never = absurd (never e h)
ok_of_Outcome out_of_fuel h never = absurd h
