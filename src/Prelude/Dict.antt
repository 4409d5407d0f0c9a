-- ===== src/Prelude/Dict.antt =====
-- A Python dict, in insertion order, over keys with a decided equality.
use mathlib.Core.Path.{◌≡◌, refl, subst}
use mathlib.Core.Option.{Option, none, some}
use mathlib.Core.List.{List, [], ◌∷◌}
use mathlib.Core.Logic.{inl, inr}
use native.Mathlib.Omega.{arith}
use agentic_octopus.Prelude.Lists.{All}
use agentic_octopus.Prelude.Tests.{if◌then◌else◌, Bool-cases}
use agentic_octopus.Prelude.Classes.{Eq, ◌==◌}

abbrev pub Dict {ℓ κ} : Type ℓ → Type κ → Type (ℓ ⊔ κ)
Dict K V = List (K × V)

module _ {ℓ κ} {K : Type ℓ} {V : Type κ} ⦃e : Eq K⦄ where
  -- `d.get(k)`
  unfoldable pub lookup : K → Dict K V → Option V
  lookup k [] = none
  lookup k ((j, v) ∷ d) = if k == j then some v else lookup k d

  -- `d[k] = v`: the place of a key that is there is kept
  unfoldable pub insert : K → V → Dict K V → Dict K V
  insert k v [] = (k, v) ∷ []
  insert k v ((j, w) ∷ d) = if k == j then (j, v) ∷ d else (j, w) ∷ insert k v d

  pub lookup-insert :
      (k j : K) (v : V) (d : Dict K V)
      → lookup j (insert k v d) ≡ (if j == k then some v else lookup j d)
  unfolding lookup insert
  lookup-insert k j v [] = refl
  lookup-insert k j v ((i, w) ∷ d) =
      ground
        (arith, e.beq_iff k j, e.beq_iff j k, e.beq_iff k i, e.beq_iff j i, lookup-insert k j v d)

module _ {ℓ κ} {K : Type ℓ} {V : Type κ} ⦃e : Eq K⦄ where
  -- `{k: v for k, v in d.items() if k != key}`
  unfoldable pub without : K → Dict K V → Dict K V
  without key [] = []
  without key ((k, v) ∷ d) = let rest = without key d in if k == key then rest else (k, v) ∷ rest

  pub lookup-without :
      (k j : K) (d : Dict K V) → lookup j (without k d) ≡ (if j == k then none else lookup j d)
  unfolding lookup without
  lookup-without k j [] = ground arith
  lookup-without k j ((i, v) ∷ d) =
      ground (arith, e.beq_iff i k, e.beq_iff j i, e.beq_iff j k, lookup-without k j d)

module _ {ℓ κ ρ} {K : Type ℓ} {V : Type κ} ⦃e : Eq K⦄ where
  -- An insertion keeps a property of all entries that does not depend on which of two equal keys
  -- stands in the dict.
  pub All-insert :
      (P : K × V → Type ρ) (k : K) (v : V) (d : Dict K V)
      → P (k, v)
      → All P d
      → All P (insert k v d)
  unfolding insert
  All-insert P k v [] p h = (p, tt)
  All-insert P k v ((j, w) ∷ d) p h = elim (Bool-cases (k == j)) [
    | inl here ↦ rw here (subst (λ i. P (i, v)) ((e.beq_iff k j).0 here) p, h.1)
    | inr there ↦ rw there (h.0, All-insert P k v d p h.1)
  ]
