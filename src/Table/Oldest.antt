-- ===== src/Table/Oldest.antt =====
-- The laws of ORDER BY … LIMIT 1.
use agentic_octopus.Prelude.{
  ℕ, ◌≡◌, ◌&&◌, ltb, refl, ◌≤◌, Bool, true, false, none, some, [], ◌∷◌, arith, Option-cases, inl,
  inr,
}
use agentic_octopus.Table.{Table, find, oldest, count_where, IsKeyed}

module _ {R : Type 0} (time : R → ℕ) (p : ℕ → R → Bool) where
  pub oldest-find :
      {k : ℕ} {r : R} (t : Table R)
      → IsKeyed t
      → oldest time p t ≡ some (k, r)
      → (find k t ≡ some r) × (p k r ≡ true)
  unfolding find oldest
  oldest-find [] v h = absurd (cc)
  oldest-find {k} {r} ((j, q) ∷ t) v h = ground (arith, oldest-find {k = k} {r = r} t v.1)

  pub oldest-eq-none :
      {j : ℕ} {q : R} (t : Table R) → oldest time p t ≡ none → find j t ≡ some q → p j q ≡ false
  unfolding find oldest
  oldest-eq-none [] h e = absurd (cc)
  oldest-eq-none {j} {q} ((i, s) ∷ t) h e = ground (arith, oldest-eq-none {j = j} {q = q} t)

  pub oldest-le :
      {k j : ℕ} {r q : R} (t : Table R)
      → oldest time p t ≡ some (k, r)
      → find j t ≡ some q
      → p j q ≡ true
      → time r ≤ time q
  unfolding find oldest
  oldest-le [] h e m = absurd (cc)
  oldest-le {k} {j} {r} {q} ((i, s) ∷ t) h e m = elim (Option-cases (oldest time p t)) [
    | inl nothing ↦ ground (arith, oldest-eq-none {j = j} {q = q} t nothing)
    | inr ((k', r'), best) ↦ ground (arith, oldest-le {k = k'} {j = j} {r = r'} {q = q} t best)
  ]

  pub oldest-none-count : (t : Table R) → oldest time p t ≡ none → count_where p t ≡ 0
  unfolding oldest count_where
  oldest-none-count [] h = refl
  oldest-none-count ((i, s) ∷ t) h = ground (arith, oldest-none-count t)

  -- Meets the condition and is earlier than the given time.
  abbrev pub before : ℕ → ℕ → R → Bool
  before limit j q = p j q && ltb (time q) limit

  none-before :
      (limit : ℕ) (t : Table R) → oldest time p t ≡ none → count_where (before limit) t ≡ 0
  unfolding oldest count_where
  none-before limit [] h = refl
  none-before limit ((i, s) ∷ t) h = ground (arith, none-before limit t)

  later-before :
      (limit : ℕ) {k : ℕ} {r : R} (t : Table R)
      → oldest time p t ≡ some (k, r)
      → limit ≤ time r
      → count_where (before limit) t ≡ 0
  unfolding oldest count_where
  later-before limit [] h le = absurd (cc)
  later-before limit {k} {r} ((i, s) ∷ t) h le = elim (Option-cases (oldest time p t)) [
    | inl nothing ↦ ground (arith, none-before limit t nothing)
    | inr ((k', r'), best) ↦ ground (arith, later-before limit {k = k'} {r = r'} t best)
  ]

  pub oldest-before :
      {k : ℕ} {r : R} (t : Table R)
      → oldest time p t ≡ some (k, r)
      → count_where (before (time r)) t ≡ 0
  oldest-before {k} {r} t h = later-before (time r) {k = k} {r = r} t h (ground arith)
