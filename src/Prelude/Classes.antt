-- ===== src/Prelude/Classes.antt =====
-- Python's `==` as one operator for every type with a decided equality.
use Prim.Native.Nat.{ℕ}
use mathlib.Core.Path.{◌≡◌, refl}
use mathlib.Core.Logic.{◌↔◌}
use mathlib.Core.Bool.{Bool, true, false, ◌||◌}
use mathlib.Core.List.{List, [], ◌∷◌}
use agentic_octopus.Prelude.Tests.{nat_beq, nat_beq_iff}

-- A test for equality that is true of equal values and of no others.
pub record Eq {κ} (K : Type κ) : Type κ where
  pub beq : K → K → Bool
  pub beq_iff : (j k : K) → (beq j k ≡ true) ↔ (j ≡ k)

instance abbrev pub nat_eq : Eq ℕ
nat_eq = record { beq = nat_beq; beq_iff = nat_beq_iff }

module _ {κ} {K : Type κ} ⦃test : Eq K⦄ where
  infix 50 ◌==◌
  abbrev pub ◌==◌ : K → K → Bool
  j == k = test.beq j k

  pub ==_refl : (k : K) → (k == k) ≡ true
  ==_refl k = (test.beq_iff k k).1 refl

  -- `k in l`
  unfoldable pub contains : K → List K → Bool
  contains k [] = false
  contains k (j ∷ l) = k == j || contains k l
