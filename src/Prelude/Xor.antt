-- ===== src/Prelude/Xor.antt =====
-- The exclusive or at variables: one equation for the lowest digit, its range, and cancellation.
use Prim.Native.Nat.{
  ℕ, zero, suc, ◌+◌, ◌*◌, ◌/◌, ◌%◌, ◌^◌, ◌≤◌, ◌<◌, bit_xor, bit_xor-bitwise, differ,
}
use mathlib.Core.Path.{◌≡◌, refl}
use jungey_os.Prelude.Bits.{halved_fuel}
use native.Mathlib.Omega.{arith}
use native.Mathlib.Nat.{pow-suc}

differ_digits : (a b : ℕ) → a < 2 → b < 2 → differ a b ≡ (a + b) % 2
differ_digits zero b h g = omega arith
differ_digits (suc zero) zero h g = refl
differ_digits (suc zero) (suc zero) h g = refl
differ_digits (suc zero) (suc (suc b)) h g = absurd (omega arith)
differ_digits (suc (suc a)) b h g = absurd (omega arith)

pub bit_xor-halves : (a b : ℕ) → bit_xor a b ≡ bit_xor (a / 2) (b / 2) * 2 + (a % 2 + b % 2) % 2
bit_xor-halves zero b = omega (arith, bit_xor-bitwise 0 b, bit_xor-bitwise 0 (b / 2))
bit_xor-halves (suc a) b = omega (
  arith,
  bit_xor-bitwise (suc a) b,
  bit_xor-bitwise (suc a / 2) (b / 2),
  halved_fuel (λ b. b) differ a (b / 2),
  differ_digits (suc a % 2) (b % 2),
)

both_zero : (a b : ℕ) → a < 1 → b < 1 → bit_xor a b ≡ 0
both_zero zero zero h g = refl
both_zero zero (suc b) h g = absurd (omega arith)
both_zero (suc a) b h g = absurd (omega arith)

-- A number below a power of two stays below it.
pub bit_xor-lt : (k a b : ℕ) → a < 2 ^ k → b < 2 ^ k → bit_xor a b < 2 ^ k
bit_xor-lt zero a b h g = omega (arith, both_zero a b)
bit_xor-lt (suc k) a b h g =
    let below =
      bit_xor-lt k (a / 2) (b / 2) (omega (arith, pow-suc 2 k)) (omega (arith, pow-suc 2 k)) in
    omega (arith, pow-suc 2 k, bit_xor-halves a b)

cancel_right : (n a c b : ℕ) → a ≤ n → c ≤ n → bit_xor a b ≡ bit_xor c b → a ≡ c
cancel_right zero a c b h g e = omega arith
cancel_right (suc n) a c b h g e =
    let halves =
      cancel_right n (a / 2) (c / 2) (b / 2) (omega arith) (omega arith)
        (omega (arith, bit_xor-halves a b, bit_xor-halves c b)) in
    omega (arith, bit_xor-halves a b, bit_xor-halves c b)

cancel_left : (n a b c : ℕ) → b ≤ n → c ≤ n → bit_xor a b ≡ bit_xor a c → b ≡ c
cancel_left zero a b c h g e = omega arith
cancel_left (suc n) a b c h g e =
    let halves =
      cancel_left n (a / 2) (b / 2) (c / 2) (omega arith) (omega arith)
        (omega (arith, bit_xor-halves a b, bit_xor-halves a c)) in
    omega (arith, bit_xor-halves a b, bit_xor-halves a c)

pub bit_xor-cancel_right : (a c b : ℕ) → bit_xor a b ≡ bit_xor c b → a ≡ c
bit_xor-cancel_right a c b e = cancel_right (a + c) a c b (omega arith) (omega arith) e

pub bit_xor-cancel_left : (a b c : ℕ) → bit_xor a b ≡ bit_xor a c → b ≡ c
bit_xor-cancel_left a b c e = cancel_left (b + c) a b c (omega arith) (omega arith) e
