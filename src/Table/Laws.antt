-- ===== src/Table/Laws.antt =====
-- What an UPDATE, an INSERT and a row count do to the rows that are found by their key.
use mathlib.Core.Option
use mathlib.Core.Path.{subst}
use agentic_octopus.Prelude.{
  ℕ, ◌≡◌, refl, Bool, true, false, ◌&&◌, Option, none, some, [], ◌∷◌, arith, ◌==◌, nat_eq,
  if◌then◌else◌, contains, Bool-cases, inl, inr, List,
}
use agentic_octopus.Table.{Table, find, append, update_where, count_where, ids_where, IsKeyed}

abbrev pub IsDistinct : List ℕ → Type 0
IsDistinct [] = Unit
IsDistinct (j ∷ l) = (contains j l ≡ false) × IsDistinct l

module _ {R : Type 0} where
  pub find-update_where :
      (p : ℕ → R → Bool) (f : R → R) (k : ℕ) (t : Table R)
      → find k (update_where p f t) ≡ Option.map (λ r. if p k r then f r else r) (find k t)
  unfolding find update_where
  find-update_where p f k [] = refl
  find-update_where p f k ((j, r) ∷ t) = ground (arith, find-update_where p f k t)

  pub find-append :
      (k j : ℕ) (r : R) (t : Table R)
      → find k t ≡ none
      → find j (append k r t) ≡ (if j == k then some r else find j t)
  unfolding find append
  find-append k j r [] h = refl
  find-append k j r ((i, q) ∷ t) h = ground (arith, find-append k j r t)

  pub IsKeyed-update_where :
      (p : ℕ → R → Bool) (f : R → R) (t : Table R) → IsKeyed t → IsKeyed (update_where p f t)
  unfolding update_where
  IsKeyed-update_where p f [] h = tt
  IsKeyed-update_where p f ((j, r) ∷ t) h =
      (ground (arith, find-update_where p f j t), IsKeyed-update_where p f t h.1)

  pub IsKeyed-append :
      (k : ℕ) (r : R) (t : Table R) → find k t ≡ none → IsKeyed t → IsKeyed (append k r t)
  unfolding append find
  IsKeyed-append k r [] h v = (refl, tt)
  IsKeyed-append k r ((j, q) ∷ t) h v =
      (ground (arith, find-append k j r t), IsKeyed-append k r t (ground arith) v.1)

  -- A statement on one key and a test of its row counts that row or none.
  unfoldable pub hits : (R → Bool) → Option R → ℕ
  hits q none = 0
  hits q (some r) = if q r then 1 else 0

  pub count_where-key_absent :
      (k : ℕ) (q : R → Bool) (t : Table R)
      → find k t ≡ none
      → count_where (λ i r. i == k && q r) t ≡ 0
  unfolding find count_where
  count_where-key_absent k q [] h = refl
  count_where-key_absent k q ((j, r) ∷ t) h = ground (arith, count_where-key_absent k q t)

  pub count_where-key :
      (k : ℕ) (q : R → Bool) (t : Table R)
      → IsKeyed t
      → count_where (λ i r. i == k && q r) t ≡ hits q (find k t)
  unfolding find count_where hits
  count_where-key k q [] h = refl
  count_where-key k q ((j, r) ∷ t) h =
      ground (arith, count_where-key k q t h.1, count_where-key_absent k q t)

  -- The ids that a statement returns are those of the rows that meet its condition.
  unfoldable pub meets : (ℕ → R → Bool) → ℕ → Option R → Bool
  meets p k none = false
  meets p k (some r) = p k r

  pub contains-ids_where_absent :
      (p : ℕ → R → Bool) (k : ℕ) (t : Table R)
      → find k t ≡ none
      → contains k (ids_where p t) ≡ false
  unfolding find ids_where contains
  contains-ids_where_absent p k [] h = refl
  contains-ids_where_absent p k ((j, r) ∷ t) h = ground (arith, contains-ids_where_absent p k t)

  pub contains-ids_where :
      (p : ℕ → R → Bool) (k : ℕ) (t : Table R)
      → IsKeyed t
      → contains k (ids_where p t) ≡ meets p k (find k t)
  unfolding find ids_where contains meets
  contains-ids_where p k [] h = refl
  contains-ids_where p k ((j, r) ∷ t) h =
      ground (arith, contains-ids_where p k t h.1, contains-ids_where_absent p k t)

  pub IsDistinct-ids_where :
      (p : ℕ → R → Bool) (t : Table R) → IsKeyed t → IsDistinct (ids_where p t)
  unfolding ids_where
  IsDistinct-ids_where p [] h = tt
  IsDistinct-ids_where p ((j, r) ∷ t) h = elim (Bool-cases (p j r)) [
    | inl yes_row ↦ rw yes_row (contains-ids_where_absent p j t h.0, IsDistinct-ids_where p t h.1)
    | inr no_row ↦ rw no_row (IsDistinct-ids_where p t h.1)
  ]

module _ {R : Type 0} (P : R → Type 0) where
  -- Every row of the table has the property.
  abbrev pub AllRows : Table R → Type 0
  AllRows [] = Unit
  AllRows ((j, r) ∷ t) = P r × AllRows t

  pub AllRows-find : (k : ℕ) {r : R} (t : Table R) → AllRows t → find k t ≡ some r → P r
  unfolding find
  AllRows-find k [] h e = absurd (cc)
  AllRows-find k {r} ((j, q) ∷ t) h e = elim (Bool-cases (k == j)) [
    | inl here ↦ subst P (ground arith) h.0
    | inr there ↦ AllRows-find k t h.1 (ground arith)
  ]

  pub AllRows-append : (k : ℕ) (r : R) (t : Table R) → P r → AllRows t → AllRows (append k r t)
  unfolding append
  AllRows-append k r [] p h = (p, tt)
  AllRows-append k r ((j, q) ∷ t) p h = (h.0, AllRows-append k r t p h.1)

  pub AllRows-update_where :
      (p : ℕ → R → Bool) (f : R → R) (t : Table R)
      → ((i : ℕ) (r : R) → p i r ≡ true → P r → P (f r))
      → AllRows t
      → AllRows (update_where p f t)
  unfolding update_where
  AllRows-update_where p f [] keep h = tt
  AllRows-update_where p f ((j, r) ∷ t) keep h = elim (Bool-cases (p j r)) [
    | inl met ↦ rw met (keep j r met h.0, AllRows-update_where p f t keep h.1)
    | inr not_met ↦ rw not_met (h.0, AllRows-update_where p f t keep h.1)
  ]

module _ {R : Type 0} (f : R → R) (k : ℕ) where
  pub update_where-key_absent :
      (q : R → Bool) (t : Table R) → find k t ≡ none → update_where (λ i r. i == k && q r) f t ≡ t
  unfolding find update_where
  update_where-key_absent q [] h = refl
  update_where-key_absent q ((j, r) ∷ t) h = ground (arith, update_where-key_absent q t)

  pub update_where-only_absent :
      (t : Table R) → find k t ≡ none → update_where (λ i r. i == k) f t ≡ t
  unfolding find update_where
  update_where-only_absent [] h = refl
  update_where-only_absent ((j, r) ∷ t) h = ground (arith, update_where-only_absent t)

  -- An UPDATE by key alone is one that also tests the row, if the row passes the test.
  pub update_where-key :
      (q : R → Bool) {r : R} (t : Table R)
      → IsKeyed t
      → find k t ≡ some r
      → q r ≡ true
      → update_where (λ i r. i == k) f t ≡ update_where (λ i r. i == k && q r) f t
  unfolding find update_where
  update_where-key q [] v h m = absurd (cc)
  update_where-key q {r} ((j, s) ∷ t) v h m = ground (
    arith,
    update_where-key q {r = r} t v.1,
    update_where-key_absent q t,
    update_where-only_absent t,
  )
