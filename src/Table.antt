-- ===== src/Table.antt =====
-- A table with a primary key: rows in the order of their insertion, and the statements that the
-- program issues (SELECT by key, UPDATE … WHERE, the row count, ORDER BY … LIMIT 1).
pub mod Laws
pub mod Oldest
use agentic_octopus.Prelude.{
  ℕ, zero, suc, ◌≡◌, Bool, Option, none, some, List, [], ◌∷◌, ◌++◌, ltb, ◌==◌, nat_eq,
  if◌then◌else◌,
}

abbrev pub Table : Type 0 → Type 0
Table R = List (ℕ × R)

module _ {R : Type 0} where
  -- SELECT * … WHERE id = k
  unfoldable pub find : ℕ → Table R → Option R
  find k [] = none
  find k ((j, r) ∷ t) = if k == j then some r else find k t

  -- INSERT, after the check of the primary key
  unfoldable pub append : ℕ → R → Table R → Table R
  append k r t = t ++ (k, r) ∷ []

  -- UPDATE … SET f WHERE p
  unfoldable pub update_where : (ℕ → R → Bool) → (R → R) → Table R → Table R
  update_where p f [] = []
  update_where p f ((j, r) ∷ t) = (j, (if p j r then f r else r)) ∷ update_where p f t

  -- The row count of a statement with WHERE p.
  unfoldable pub count_where : (ℕ → R → Bool) → Table R → ℕ
  count_where p [] = 0
  count_where p ((j, r) ∷ t) = let n = count_where p t in if p j r then suc n else n

  -- SELECT id … WHERE p
  unfoldable pub ids_where : (ℕ → R → Bool) → Table R → List ℕ
  ids_where p [] = []
  ids_where p ((j, r) ∷ t) = let l = ids_where p t in if p j r then j ∷ l else l

  -- The earlier of a row and the best of the rows behind it; of equals the first.
  earlier : (R → ℕ) → ℕ × R → Option (ℕ × R) → Option (ℕ × R)
  earlier time e none = some e
  earlier time e (some d) = if ltb (time d.1) (time e.1) then some d else some e

  -- SELECT … WHERE p ORDER BY time LIMIT 1
  unfoldable pub oldest : (R → ℕ) → (ℕ → R → Bool) → Table R → Option (ℕ × R)
  unfolding earlier
  oldest time p [] = none
  oldest time p ((j, r) ∷ t) =
      let best = oldest time p t in if p j r then earlier time (j, r) best else best

  -- The primary key: no id stands on two rows.
  abbrev pub IsKeyed : Table R → Type 0
  IsKeyed [] = Unit
  IsKeyed ((j, r) ∷ t) = (find j t ≡ none) × IsKeyed t
