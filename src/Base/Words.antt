-- ===== src/Base/Words.antt =====
-- `std::size_t` on a 64-bit machine, and the bit operations of C at zero.
use Prim.Native.Nat.{
  ℕ, zero, suc, ◌+◌, ◌-◌, ◌/◌, ◌%◌, ◌^◌, ◌≤◌, ◌<◌, max, bit_or, bit_xor, differ, digits,
  bit_or-bitwise, bit_xor-bitwise,
}
use mathlib.Core.Path.{◌≡◌, refl, sym, ap}
use native.Mathlib.Omega.{arith}

-- The difference of two `std::size_t`, modulo 2 ^ 64.
unfoldable pub sub64 : ℕ → ℕ → ℕ
sub64 a b = (a + 2 ^ 64 - b) % 2 ^ 64

pub sub64-exact : (a b : ℕ) → b ≤ a → a < 2 ^ 64 → sub64 a b ≡ a - b
unfolding sub64
sub64-exact a b h w = omega arith

or_digits-zero : (n a b : ℕ) → a ≤ n → digits (λ b. b) max n a b ≡ 0 → (a ≡ 0) × (b ≡ 0)
or_digits-zero zero zero b h e = (refl, e)
or_digits-zero zero (suc a) b h e = absurd (omega arith)
or_digits-zero (suc n) zero b h e = (refl, e)
or_digits-zero (suc n) (suc a) b h e =
    let halves = or_digits-zero n (suc a / 2) (b / 2) (omega arith) (omega arith) in
    (omega (arith, halves.0, halves.1), omega (arith, halves.0, halves.1))

pub bit_or-zero : (a b : ℕ) → bit_or a b ≡ 0 → (a ≡ 0) × (b ≡ 0)
bit_or-zero a b e = or_digits-zero a a b (omega arith) (omega (arith, bit_or-bitwise a b))

differ-zero : (x y : ℕ) → differ x y ≡ 0 → x ≡ y
differ-zero zero y e = sym e
differ-zero (suc x) zero e = e
differ-zero (suc x) (suc y) e = ap suc (differ-zero x y e)

differ_self : (x : ℕ) → differ x x ≡ 0
differ_self zero = refl
differ_self (suc x) = differ_self x

xor_digits-zero : (n a b : ℕ) → a ≤ n → digits (λ b. b) differ n a b ≡ 0 → a ≡ b
xor_digits-zero zero zero b h e = sym e
xor_digits-zero zero (suc a) b h e = absurd (omega arith)
xor_digits-zero (suc n) zero b h e = sym e
xor_digits-zero (suc n) (suc a) b h e =
    let halves = xor_digits-zero n (suc a / 2) (b / 2) (omega arith) (omega arith) in
    let lowest = differ-zero (suc a % 2) (b % 2) (omega arith) in omega (arith, halves, lowest)

pub bit_xor-zero : (a b : ℕ) → bit_xor a b ≡ 0 → a ≡ b
bit_xor-zero a b e = xor_digits-zero a a b (omega arith) (omega (arith, bit_xor-bitwise a b))

xor_digits_self : (n a : ℕ) → a ≤ n → digits (λ b. b) differ n a a ≡ 0
xor_digits_self zero zero h = refl
xor_digits_self zero (suc a) h = absurd (omega arith)
xor_digits_self (suc n) zero h = refl
xor_digits_self (suc n) (suc a) h =
    omega (arith, xor_digits_self n (suc a / 2) (omega arith), differ_self (suc a % 2))

pub bit_xor_self : (a : ℕ) → bit_xor a a ≡ 0
bit_xor_self a = omega (arith, bit_xor-bitwise a a, xor_digits_self a a (omega arith))

differ-le : (x y : ℕ) → differ x y ≤ x + y
differ-le zero y = omega arith
differ-le (suc x) zero = omega arith
differ-le (suc x) (suc y) = omega (arith, differ-le x y)

xor_digits-le : (n a b : ℕ) → a ≤ n → digits (λ b. b) differ n a b ≤ a + b
xor_digits-le zero a b h = omega arith
xor_digits-le (suc n) zero b h = omega arith
xor_digits-le (suc n) (suc a) b h =
    omega (arith, xor_digits-le n (suc a / 2) (b / 2) (omega arith), differ-le (suc a % 2) (b % 2))

pub bit_xor-le : (a b : ℕ) → bit_xor a b ≤ a + b
bit_xor-le a b = omega (arith, bit_xor-bitwise a b, xor_digits-le a a b (omega arith))
