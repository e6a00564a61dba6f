-- ===== src/Prelude/Float.antt =====
-- Go's float64, its conversions and the functions of package math that the program calls (and Lua's
-- numbers, which are the same). Only what the program uses is named; the laws that a theorem needs
-- are the records below, which IEEE 754 arithmetic meets.
use nanolink.Prelude.{ℕ, ◌+◌, ◌-◌, ◌*◌, ◌/◌, ◌^◌, ◌≤◌, ◌<◌, ◌≡◌, Bool, true, leb, if◌then◌else◌}
use nanolink.Prelude.Int.{ℤ, pos}

pub record Floats : Type 1 where
  pub F : Type 0
  -- the float nearest to a / b
  pub ratio : ℕ → ℕ → F
  -- the conversion of an integer
  pub of_nat : ℕ → F
  -- time.Duration.Seconds, of a duration in nanoseconds
  pub seconds : ℤ → F
  pub le : F → F → Bool
  pub add : F → F → F
  pub sub : F → F → F
  pub mul : F → F → F
  pub div : F → F → F
  pub neg : F → F
  pub log : F → F
  pub pow : F → F → F
  pub ceil : F → F
  pub round : F → F
  -- math.Min and math.Max
  pub min : F → F → F
  pub max : F → F → F
  -- conversions to integers, towards zero and downwards
  pub to_uint : F → ℕ
  pub to_int : F → ℤ
  pub floor : F → ℤ
  -- the number, as Lua prints it, is an integer that Redis takes for a number of seconds
  pub is_seconds : F → Bool

module _ (fl : Floats) where
  open fl use {F, of_nat, le, add, sub, mul, div, min, max, ceil, floor, is_seconds}

  -- `a` is at least zero, which also says that it is a number.
  abbrev pub NonNeg : F → Type 0
  NonNeg a = le (of_nat 0) a ≡ true

  -- Rounding keeps these orders; an infinity meets them too.
  pub record Ordered : Type 0 where
    pub le_trans : (a b c : F) → le a b ≡ true → le b c ≡ true → le a c ≡ true
    pub add_nonneg : (a b : F) → NonNeg a → NonNeg b → NonNeg (add a b)
    pub le_refl_nonneg : (a : F) → NonNeg a → le a a ≡ true
    pub min_nonneg : (a b : F) → NonNeg a → NonNeg b → NonNeg (min a b)
    pub min-le_left : (a b : F) → NonNeg a → NonNeg b → le (min a b) a ≡ true
    pub sub_nonneg : (a : F) (n : ℕ) → le (of_nat n) a ≡ true → NonNeg (sub a (of_nat n))
    pub sub-le : (a : F) (n : ℕ) → le (of_nat n) a ≡ true → le (sub a (of_nat n)) a ≡ true

  -- Up to 2 ^ 53, integer arithmetic in floats is exact.
  pub record Exact : Type 0 where
    pub le_exact : (a b : ℕ) → a ≤ 2 ^ 53 → b ≤ 2 ^ 53 → le (of_nat a) (of_nat b) ≡ leb a b
    pub add_exact : (a b : ℕ) → a + b ≤ 2 ^ 53 → add (of_nat a) (of_nat b) ≡ of_nat (a + b)
    pub mul_exact :
        (a b : ℕ)
        → a ≤ 2 ^ 53
        → b ≤ 2 ^ 53
        → a * b ≤ 2 ^ 53
        → mul (of_nat a) (of_nat b) ≡ of_nat (a * b)
    pub sub_exact : (a b : ℕ) → b ≤ a → a ≤ 2 ^ 53 → sub (of_nat a) (of_nat b) ≡ of_nat (a - b)
    pub min_exact :
        (a b : ℕ)
        → a ≤ 2 ^ 53
        → b ≤ 2 ^ 53
        → min (of_nat a) (of_nat b) ≡ of_nat (if leb a b then a else b)
    -- math.max(0, a - b), also where the difference is negative
    pub max-sub_exact :
        (a b : ℕ)
        → a ≤ 2 ^ 53
        → b ≤ 2 ^ 53
        → max (of_nat 0) (sub (of_nat a) (of_nat b)) ≡ of_nat (a - b)
    pub floor_exact : (a : ℕ) → a ≤ 2 ^ 53 → floor (of_nat a) ≡ pos a

  -- Below 2 ^ 52 a quotient that is not whole is not rounded to a whole number, and so rounding it up
  -- is exact; whole numbers up to 2 ^ 53 are printed with all their digits.
  pub record Whole : Type 0 where
    pub ceil_exact :
        (a b : ℕ)
        → 0 < b
        → a ≤ 2 ^ 52
        → b ≤ 2 ^ 53
        → ceil (div (of_nat a) (of_nat b)) ≡ of_nat ((a + (b - 1)) / b)
    pub seconds_exact : (a : ℕ) → a ≤ 2 ^ 53 → is_seconds (of_nat a) ≡ true
