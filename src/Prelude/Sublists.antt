-- ===== src/Prelude/Sublists.antt =====
-- Parts of a list, in its order.
use Prim.Native.Nat.{ℕ, ◌+◌, ◌≤◌}
use mathlib.Core.Path.{◌≡◌, refl}
use mathlib.Core.Bool.{Bool}
use mathlib.Core.List.{List, [], ◌∷◌, ◌++◌, Sublistᴰ}
use native.Mathlib.Omega.{arith}
use nanolink.Prelude.Tests.{if◌then◌else◌}

module _ {ℓ} {A : Type ℓ} where
  pub nothing_listed : (l : List A) → Sublistᴰ [] l
  nothing_listed [] = Sublistᴰ.slnil
  nothing_listed (x ∷ l) = Sublistᴰ.cons (nothing_listed l)

  pub all_listed : (l : List A) → Sublistᴰ l l
  all_listed [] = Sublistᴰ.slnil
  all_listed (x ∷ l) = Sublistᴰ.cons-cons refl (all_listed l)

  -- the parts of two lists, one after the other
  pub Sublistᴰ-join : {a b c d : List A} → Sublistᴰ a b → Sublistᴰ c d → Sublistᴰ (a ++ c) (b ++ d)
  Sublistᴰ-join Sublistᴰ.slnil t = t
  Sublistᴰ-join (Sublistᴰ.cons s) t = Sublistᴰ.cons (Sublistᴰ-join s t)
  Sublistᴰ-join (Sublistᴰ.cons-cons e s) t = Sublistᴰ.cons-cons e (Sublistᴰ-join s t)

  -- how many elements pass a test
  abbrev pub count : (A → Bool) → List A → ℕ
  count p [] = 0
  count p (x ∷ xs) = count p xs + (if p x then 1 else 0)

  pub count-append : (p : A → Bool) (xs ys : List A) → count p (xs ++ ys) ≡ count p xs + count p ys
  count-append p [] ys = omega arith
  count-append p (x ∷ xs) ys = omega (arith, count-append p xs ys)

  pub count-sublist : (p : A → Bool) {a b : List A} → Sublistᴰ a b → count p a ≤ count p b
  count-sublist p Sublistᴰ.slnil = omega arith
  count-sublist p (Sublistᴰ.cons s) = omega (arith, count-sublist p s)
  count-sublist p (Sublistᴰ.cons-cons e s) = rw e (omega (arith, count-sublist p s))
