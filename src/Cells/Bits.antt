-- ===== src/Cells/Bits.antt =====
-- The bits of words that are put together by `|` and taken apart by `&`.
use Prim.Native.Nat.{bit_and, bit_or, digits, bit_and-bitwise, bit_or-bitwise}
use native.Mathlib.Nat.{div-div-eq-div-mul}
use libs_gui.Base.{
  ℕ, zero, suc, ◌+◌, ◌*◌, ◌/◌, ◌%◌, ◌^◌, ◌≤◌, ◌<◌, min, max, ◌≡◌, refl, ap, sym, arith,
}

-- More rounds than the first number has digits do not change the result.
digits_fuel :
    (z : ℕ → ℕ) (f : ℕ → ℕ → ℕ) (n m a b : ℕ) → a ≤ n → a ≤ m → digits z f n a b ≡ digits z f m a b
digits_fuel z f zero zero zero b p q = refl
digits_fuel z f zero zero (suc a) b p q = absurd (omega arith)
digits_fuel z f zero (suc m) zero b p q = refl
digits_fuel z f zero (suc m) (suc a) b p q = absurd (omega arith)
digits_fuel z f (suc n) zero zero b p q = refl
digits_fuel z f (suc n) zero (suc a) b p q = absurd (omega arith)
digits_fuel z f (suc n) (suc m) zero b p q = refl
digits_fuel z f (suc n) (suc m) (suc a) b p q =
    ap (λ r. r * 2 + f (suc a % 2) (b % 2))
      (digits_fuel z f n m (suc a / 2) (b / 2) (omega arith) (omega arith))

bit_or_step : (a b : ℕ) → bit_or a b ≡ bit_or (a / 2) (b / 2) * 2 + max (a % 2) (b % 2)
bit_or_step zero b = omega (arith, bit_or-bitwise 0 b, bit_or-bitwise 0 (b / 2))
bit_or_step (suc a) b = omega (
  arith,
  bit_or-bitwise (suc a) b,
  bit_or-bitwise (suc a / 2) (b / 2),
  digits_fuel (λ b. b) max a (suc a / 2) (suc a / 2) (b / 2) (omega arith) (omega arith),
)

pub bit_and_step : (a b : ℕ) → bit_and a b ≡ bit_and (a / 2) (b / 2) * 2 + min (a % 2) (b % 2)
bit_and_step zero b = omega (arith, bit_and-bitwise 0 b, bit_and-bitwise 0 (b / 2))
bit_and_step (suc a) b = omega (
  arith,
  bit_and-bitwise (suc a) b,
  bit_and-bitwise (suc a / 2) (b / 2),
  digits_fuel (λ b. 0) min a (suc a / 2) (suc a / 2) (b / 2) (omega arith) (omega arith),
)

bit_or-zero : (n a : ℕ) → a ≤ n → bit_or a 0 ≡ a
bit_or-zero n zero h = refl
bit_or-zero zero (suc a) h = absurd (omega arith)
bit_or-zero (suc n) (suc a) h =
    omega (arith, bit_or_step (suc a) 0, bit_or-zero n (suc a / 2) (omega arith))

bit_and-zero : (n a : ℕ) → a ≤ n → bit_and a 0 ≡ 0
bit_and-zero n zero h = refl
bit_and-zero zero (suc a) h = absurd (omega arith)
bit_and-zero (suc n) (suc a) h =
    omega (arith, bit_and_step (suc a) 0, bit_and-zero n (suc a / 2) (omega arith))

double : (b k : ℕ) → b * 2 ^ suc k ≡ 2 * (b * 2 ^ k)
double b k = let twice : 2 ^ suc k ≡ 2 * 2 ^ k = omega arith in rw twice (grind arith)

-- `|` of a number below 2 ^ k and one of the bits from k on adds them up.
pub bit_or-above : (k a b : ℕ) → a < 2 ^ k → bit_or a (b * 2 ^ k) ≡ a + b * 2 ^ k
bit_or-above zero zero b h = omega (arith, bit_or-bitwise 0 (b * 2 ^ 0))
bit_or-above zero (suc a) b h = absurd (omega arith)
bit_or-above (suc k) a b h =
    let half : 2 * (b * 2 ^ k) / 2 ≡ b * 2 ^ k = omega arith in
    let step = rw half at (bit_or_step a (2 * (b * 2 ^ k))) in
    rw (double b k) (omega (arith, step, bit_or-above k (a / 2) b (omega arith)))

-- `&` with a mask of bits from k on.
pub bit_and-above : (k x m : ℕ) → bit_and x (m * 2 ^ k) ≡ bit_and (x / 2 ^ k) m * 2 ^ k
bit_and-above zero x m =
    let whole : x / 1 ≡ x = omega arith in
    let same : m * 1 ≡ m = omega arith in rw (same, whole) (omega arith)
bit_and-above (suc k) x m =
    let half : 2 * (m * 2 ^ k) / 2 ≡ m * 2 ^ k = omega arith in
    let step = rw half at (bit_and_step x (2 * (m * 2 ^ k))) in
    let twice : 2 ^ suc k ≡ 2 * 2 ^ k = omega arith in
    let quotient : x / 2 ^ suc k ≡ x / 2 / 2 ^ k =
      rw twice (sym (div-div-eq-div-mul x 2 (2 ^ k))) in
    rw (double m k, quotient, double (bit_and (x / 2 / 2 ^ k) m) k)
      (omega (arith, step, bit_and-above k (x / 2) m))

pub bit_and-one : (x : ℕ) → bit_and x 1 ≡ x % 2
bit_and-one x = omega (arith, bit_and_step x 1, bit_and-zero (x / 2) (x / 2) (omega arith))

pub bit_and-three : (x : ℕ) → bit_and x 3 ≡ x % 4
bit_and-three x = omega (arith, bit_and_step x 3, bit_and-one (x / 2))

pub bit_and-seven : (x : ℕ) → bit_and x 7 ≡ x % 8
bit_and-seven x = omega (arith, bit_and_step x 7, bit_and-three (x / 2))

pub bit_or-none : (a : ℕ) → bit_or a 0 ≡ a
bit_or-none a = bit_or-zero a a (omega arith)
