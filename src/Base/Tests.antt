-- ===== src/Base/Tests.antt =====
-- Boolean tests on the native numbers, the conditional, and 32-bit and 64-bit conversions.
use Prim.Native.Nat.{ℕ, zero, suc, ◌+◌, ◌-◌, ◌%◌, ◌≤◌, ◌<◌, compare, Ordering}
use mathlib.Core.Path.{◌≡◌, refl}
use mathlib.Core.Logic.{◌⊎◌, inl, inr}
use mathlib.Core.Bool.{Bool, true, false, ◌&&◌}
use mathlib.Core.Option.{Option, none, some}
use native.Mathlib.Omega.{arith}

abbrev pub ltb : ℕ → ℕ → Bool
ltb a b = elim (compare a b) [ Ordering.lt ↦ true | _ ↦ false ]

abbrev pub leb : ℕ → ℕ → Bool
leb a b = elim (compare a b) [ Ordering.gt ↦ false | _ ↦ true ]

infix 50 ◌==◌
abbrev pub ◌==◌ : ℕ → ℕ → Bool
a == b = elim (compare a b) [ Ordering.eq ↦ true | _ ↦ false ]

infix 1 if◌then◌else◌
abbrev pub if◌then◌else◌ {ℓ} : {A : Type ℓ} → Bool → A → A → A
if true then x else y = x
if false then x else y = y

-- To split on a computed value and keep the equation.
pub Bool-cases : (b : Bool) → (b ≡ true) ⊎ (b ≡ false)
Bool-cases true = inl refl
Bool-cases false = inr refl

pub Option-cases {ℓ} : {A : Type ℓ} (o : Option A) → (o ≡ none) ⊎ ((a : A) × (o ≡ some a))
Option-cases none = inl refl
Option-cases (some a) = inr (a, refl)

-- The conversion to `unsigned int`.
abbrev pub u32_mod : ℕ
u32_mod = 4294967296

-- The modulus of `NSUInteger` on a 64-bit machine.
abbrev pub u64_mod : ℕ
u64_mod = 18446744073709551616

unfoldable pub u32 : ℕ → ℕ
u32 n = n % u32_mod

pub u32_lem : (n : ℕ) → n < u32_mod → u32 n ≡ n
unfolding u32
u32_lem n h = omega arith

-- Subtraction of one from an `unsigned int`.
unfoldable pub u32_pred : ℕ → ℕ
unfolding u32
u32_pred n = u32 (n + (u32_mod - 1))

pub u32_pred-suc : (n : ℕ) → n < u32_mod → u32_pred (suc n) ≡ n
unfolding u32_pred
u32_pred-suc n h = omega arith

pub suc-u32_pred : (n : ℕ) {k : ℕ} → k < n → n < u32_mod → suc (u32_pred n) ≡ n
suc-u32_pred zero h b = elim h [ ]
suc-u32_pred (suc n) h b = omega (arith, u32_pred-suc n (omega arith))

pub leb-true : (a b : ℕ) → a ≤ b → leb a b ≡ true
leb-true a b h = ground arith

pub leb-false : (a b : ℕ) → b < a → leb a b ≡ false
leb-false a b h = ground arith

pub ltb-true : (a b : ℕ) → a < b → ltb a b ≡ true
ltb-true a b h = ground arith

pub ltb-false : (a b : ℕ) → b ≤ a → ltb a b ≡ false
ltb-false a b h = ground arith

-- An `NSRange`, and its `NSMaxRange`.
pub record Range : Type 0 where
  pub location : ℕ
  pub length : ℕ

unfoldable pub max_range : Range → ℕ
max_range r = (r.location + r.length) % u64_mod

pub max_range_lem :
    (r : Range) → r.location + r.length < u64_mod → max_range r ≡ r.location + r.length
unfolding max_range
max_range_lem r h = omega arith

-- `NSInteger`, over the native numbers.
pub data ℤ : Type 0 where
  pos : ℕ → ℤ
  negsuc : ℕ → ℤ

-- A property of the two outcomes of a test for nil.
pub by_option {ℓ κ} :
    {A : Type 0} {B : Type ℓ} (P : B → Type κ) (o : Option A) (n : B) (s : A → B)
    → (o ≡ none → P n)
    → ((a : A) → o ≡ some a → P (s a))
    → P (elim o [ none ↦ n | some a ↦ s a ])
by_option P none n s pn ps = pn refl
by_option P (some a) n s pn ps = ps a refl

-- Over a small range, a test holds where it holds at every value.
unfoldable pub all_below : ℕ → (ℕ → Bool) → Bool
all_below zero test = true
all_below (suc n) test = test n && all_below n test

pub all_below-use :
    (n : ℕ) (test : ℕ → Bool) (x : ℕ) → all_below n test ≡ true → x < n → test x ≡ true
unfolding all_below
all_below-use zero test x h small = absurd (omega arith)
all_below-use (suc n) test x h small = ground (arith, all_below-use n test x)
