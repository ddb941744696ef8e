-- ===== src/Prelude/Bits.antt =====
-- The bit operations at variables: one equation for the lowest digit, and the laws of masks.
use Prim.Native.Nat.{
  ℕ, zero, suc, ◌+◌, ◌-◌, ◌*◌, ◌/◌, ◌%◌, ◌^◌, ◌≤◌, ◌<◌, min, bit_and, digits, bit_and-bitwise,
}
use mathlib.Core.Path.{◌≡◌, refl, ap, ◌∙◌, sym}
use mathlib.Core.Logic.{◌≢◌}
use mathlib.Core.Bool.{◌||◌}
use jungey_os.Prelude.Tests.{◌==◌}
use native.Mathlib.Omega.{arith}
use native.Mathlib.Nat.{
  pow-suc, one-le-pow, mod-lt, mod-eq_of_lt, div-add-mod, mul-add-mod_self_left,
}

-- Fuel beyond the first operand changes nothing.
pub spare_fuel :
    (z : ℕ → ℕ) (f : ℕ → ℕ → ℕ) (n k a b : ℕ) → a ≤ n → digits z f (n + k) a b ≡ digits z f n a b
spare_fuel z f zero zero a b h = refl
spare_fuel z f zero (suc k) zero b h = let e : 0 + suc k ≡ suc k = omega arith in rw e
spare_fuel z f zero (suc k) (suc a) b h = absurd (omega arith)
spare_fuel z f (suc n) k zero b h = let e : suc n + k ≡ suc (n + k) = omega arith in rw e
spare_fuel z f (suc n) k (suc a) b h =
    let e : suc n + k ≡ suc (n + k) = omega arith in
    rw e (
      ap (λ (t : ℕ). t * 2 + f (suc a % 2) (b % 2))
        (spare_fuel z f n k (suc a / 2) (b / 2) (omega arith)))

pub halved_fuel :
    (z : ℕ → ℕ) (f : ℕ → ℕ → ℕ) (a b : ℕ)
    → digits z f a (suc a / 2) b ≡ digits z f (suc a / 2) (suc a / 2) b
halved_fuel z f a b =
    let e : suc a / 2 + (a - suc a / 2) ≡ a = omega arith in
    ap (λ (n : ℕ). digits z f n (suc a / 2) b) (sym e)
    ∙ spare_fuel z f (suc a / 2) (a - suc a / 2) (suc a / 2) b (omega arith)

pub bit_and-halves : (a b : ℕ) → bit_and a b ≡ bit_and (a / 2) (b / 2) * 2 + min (a % 2) (b % 2)
bit_and-halves zero b = omega (arith, bit_and-bitwise 0 b, bit_and-bitwise 0 (b / 2))
bit_and-halves (suc a) b = omega (
  arith,
  bit_and-bitwise (suc a) b,
  bit_and-bitwise (suc a / 2) (b / 2),
  halved_fuel (λ _. zero) min a (b / 2),
)

-- The digits of a conjunction.
pub bit_and-parts :
    (a b : ℕ)
    → (bit_and a b / 2 ≡ bit_and (a / 2) (b / 2)) × (bit_and a b % 2 ≡ min (a % 2) (b % 2))
bit_and-parts a b = (omega (arith, bit_and-halves a b), omega (arith, bit_and-halves a b))

and-zero_fuel : (n a : ℕ) → a ≤ n → bit_and a 0 ≡ 0
and-zero_fuel zero zero h = refl
and-zero_fuel zero (suc a) h = absurd (omega arith)
and-zero_fuel (suc n) zero h = refl
and-zero_fuel (suc n) (suc a) h =
    omega (arith, bit_and-halves (suc a) 0, and-zero_fuel n (suc a / 2) (omega arith))

pub bit_and-zero : (a : ℕ) → bit_and a 0 ≡ 0
bit_and-zero a = and-zero_fuel a a (omega arith)

narrow_fuel : (n a b r : ℕ) → a ≤ n → bit_and a r ≡ 0 → bit_and (bit_and a b) r ≡ 0
narrow_fuel n zero b r h e = omega (
  arith,
  bit_and-bitwise 0 b,
  bit_and-bitwise 0 r,
  ap (λ (t : ℕ). bit_and t r) (bit_and-bitwise 0 b),
)
narrow_fuel zero (suc a) b r h e = absurd (omega arith)
narrow_fuel (suc n) (suc a) b r h e = omega (
  arith,
  bit_and-halves (suc a) r,
  bit_and-halves (bit_and (suc a) b) r,
  bit_and-parts (suc a) b,
  ap (λ (t : ℕ). bit_and t (r / 2)) (bit_and-parts (suc a) b).0,
  narrow_fuel n (suc a / 2) (b / 2) (r / 2) (omega arith) (omega (arith, bit_and-halves (suc a) r)),
)

-- A mask only takes bits away: what `a & b` has in common with `r`, `a` has too.
pub bit_and_narrows : (a b r : ℕ) → bit_and (bit_and a b) r ≢ 0 → bit_and a r ≢ 0
bit_and_narrows a b r h e = h (narrow_fuel a a b r (omega arith) e)

-- The lowest digit of a remainder.
mod-halves : (m a : ℕ) → 0 < m → a % (m * 2) ≡ a / 2 % m * 2 + a % 2
mod-halves m a h =
    ap (λ (t : ℕ). t % (m * 2)) whole
    ∙ mul-add-mod_self_left (m * 2) (a / 2 / m) (a / 2 % m * 2 + a % 2)
    ∙ mod-eq_of_lt (omega (arith, mod-lt (a / 2) h))
  where
    whole : a ≡ m * 2 * (a / 2 / m) + (a / 2 % m * 2 + a % 2)
    whole = omega (arith, div-add-mod (a / 2) m)

-- The low mask 2 ^ k - 1 takes the remainder.
pub bit_and-low : (k a : ℕ) → bit_and a (2 ^ k - 1) ≡ a % 2 ^ k
bit_and-low zero a = omega (arith, bit_and-zero a)
bit_and-low (suc k) a =
    let p : (2 ^ suc k - 1) / 2 ≡ 2 ^ k - 1 = omega (arith, pow-suc 2 k, one-le-pow k 2) in
    omega (
      arith,
      bit_and-halves a (2 ^ suc k - 1),
      ap (λ (t : ℕ). bit_and (a / 2) t) p,
      pow-suc 2 k,
      one-le-pow k 2,
      bit_and-low k (a / 2),
      mod-halves (2 ^ k) a (one-le-pow k 2 (omega arith)),
      ap (λ (t : ℕ). a % t) (pow-suc 2 k),
    )

mul_two : (j k : ℕ) → 2 ^ j * 2 ^ suc k ≡ 2 ^ j * 2 ^ k * 2
mul_two j k = simp pow-suc (omega arith)

-- A mask with k zeros below a full field clears the k low bits.
pub bit_and-high : (j k a : ℕ) → a < 2 ^ j * 2 ^ k → bit_and a ((2 ^ j - 1) * 2 ^ k) ≡ a - a % 2 ^ k
bit_and-high j zero a h =
    let p : (2 ^ j - 1) * 2 ^ 0 ≡ 2 ^ j - 1 = omega arith in
    omega (
      arith,
      ap (λ (t : ℕ). bit_and a t) p,
      bit_and-low j a,
      mod-eq_of_lt {n = a} {m = 2 ^ j} (omega arith),
    )
bit_and-high j (suc k) a h =
    let double : (2 ^ j - 1) * 2 ^ suc k ≡ (2 ^ j - 1) * 2 ^ k * 2 = simp pow-suc (omega arith) in
    let half : (2 ^ j - 1) * 2 ^ suc k / 2 ≡ (2 ^ j - 1) * 2 ^ k = omega (arith, double) in
    let fits : a < 2 ^ j * 2 ^ k * 2 = rw (← mul_two j k) h in
    omega (
      arith,
      double,
      bit_and-halves a ((2 ^ j - 1) * 2 ^ suc k),
      ap (λ (t : ℕ). bit_and (a / 2) t) half,
      bit_and-high j k (a / 2) (omega arith),
      mod-halves (2 ^ k) a (one-le-pow k 2 (omega arith)),
      ap (λ (t : ℕ). a % t) (pow-suc 2 k),
    )

-- One bit of a number: what `x & (1 << k)` finds, one digit further up.
flag-suc : (k x : ℕ) → bit_and x (2 ^ suc k) ≡ bit_and (x / 2) (2 ^ k) * 2
flag-suc k x =
    let half : 2 ^ suc k / 2 ≡ 2 ^ k = omega (arith, pow-suc 2 k) in
    omega (arith, pow-suc 2 k, bit_and-halves x (2 ^ suc k), ap (λ (t : ℕ). bit_and (x / 2) t) half)

-- A conjunction has the bit k exactly when both numbers have it.
pub flag-bit_and :
    (k a b : ℕ)
    → (bit_and (bit_and a b) (2 ^ k) == 0) ≡ ((bit_and a (2 ^ k) == 0) || (bit_and b (2 ^ k) == 0))
flag-bit_and zero a b =
    ground (arith, bit_and-low 1 (bit_and a b), bit_and-low 1 a, bit_and-low 1 b, bit_and-parts a b)
flag-bit_and (suc k) a b = ground (
  arith,
  flag-suc k (bit_and a b),
  flag-suc k a,
  flag-suc k b,
  ap (λ (t : ℕ). bit_and t (2 ^ k)) (bit_and-parts a b).0,
  flag-bit_and k (a / 2) (b / 2),
)
