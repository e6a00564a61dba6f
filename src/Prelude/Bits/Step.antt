-- ===== src/Prelude/Bits/Step.antt =====
-- The lowest digit of a native bit operation.
use Prim.Native.Nat.{
  ℕ, zero, suc, ◌+◌, ◌*◌, ◌/◌, ◌%◌, ◌≤◌, min, max, bit_and, bit_or, digits, bitwise,
  bit_and-bitwise, bit_or-bitwise,
}
use mathlib.Core.Path.{◌≡◌, refl, ap, sym, ◌∙◌}
use native.Mathlib.Decide.{ℕ_discrete}
use native.Mathlib.Omega.{arith}

-- `past` is what the operation makes of the second number once the first has no digit left.
module _ (past : ℕ → ℕ) (digit : ℕ → ℕ → ℕ) where
  one_spare :
      (fuel a b : ℕ) → a ≤ fuel → digits past digit (suc fuel) a b ≡ digits past digit fuel a b
  one_spare zero zero b h = refl
  one_spare (suc fuel) zero b h = refl
  one_spare zero (suc a) b h = absurd (omega arith)
  one_spare (suc fuel) (suc a) b h =
      ap (λ (t : ℕ). t * 2 + digit (suc a % 2) (b % 2))
        (one_spare fuel (suc a / 2) (b / 2) (omega arith))

  all_spare : (fuel a b : ℕ) → a ≤ fuel → digits past digit fuel a b ≡ bitwise past digit a b
  all_spare zero zero b h = refl
  all_spare zero (suc a) b h = absurd (omega arith)
  all_spare (suc fuel) a b h = elim (ℕ_discrete a (suc fuel)) [
    | yes e ↦ ap (λ (n : ℕ). digits past digit n a b) (sym e)
    | no e ↦ one_spare fuel a b (omega arith) ∙ all_spare fuel a b (omega arith)
  ]

  pub bitwise_step :
      ((b : ℕ) → past b ≡ past (b / 2) * 2 + digit 0 (b % 2))
      → (a b : ℕ)
      → bitwise past digit a b ≡ bitwise past digit (a / 2) (b / 2) * 2 + digit (a % 2) (b % 2)
  bitwise_step h zero b = h b
  bitwise_step h (suc a) b =
      ap (λ (t : ℕ). t * 2 + digit (suc a % 2) (b % 2))
        (all_spare a (suc a / 2) (b / 2) (omega arith))

pub bit_or_step : (a b : ℕ) → bit_or a b ≡ bit_or (a / 2) (b / 2) * 2 + max (a % 2) (b % 2)
bit_or_step a b = simp bit_or-bitwise (bitwise_step (λ t. t) max (λ t. omega arith) a b)

pub bit_and_step : (a b : ℕ) → bit_and a b ≡ bit_and (a / 2) (b / 2) * 2 + min (a % 2) (b % 2)
bit_and_step a b = simp bit_and-bitwise (bitwise_step (λ t. 0) min (λ t. omega arith) a b)
