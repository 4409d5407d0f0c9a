-- ===== src/Queue/Drain.antt =====
-- src/octo/queue.py, claim, time after time: every run that is available is taken.
use agentic_octopus.Prelude.{
  ℕ, suc, ◌+◌, ◌≡◌, refl, ◌∙◌, Bool, true, false, ◌&&◌, Option, none, some, List, [], ◌∷◌, ◌++◌,
  arith, ◌==◌, nat_eq, Text, length, min, Option-cases, Bool-cases, inl, inr, nat_beq_iff,
}
use agentic_octopus.Status.{status_eq, status_beq, queued, running}
use agentic_octopus.Table.{Table, find, update_where, count_where, oldest, IsKeyed}
use agentic_octopus.Table.Laws.{IsKeyed-update_where, update_where-key_absent}
use agentic_octopus.Table.Oldest.{oldest-find, oldest-none-count}
use agentic_octopus.Db.{Run, Db, Tx, ok, ◌>>=◌, >>=-ok, pure}
use agentic_octopus.Transition.{in_status}
use agentic_octopus.Transition.Outcome.{moved, set_status}
use agentic_octopus.Queue.{available, mark_running, claim}
use agentic_octopus.Queue.Claim.{claimed, claim-eq-claimed, worker_payload}

-- An UPDATE that takes one row out of a condition leaves one row less that meets it.
count_where-update :
    {R : Type 0} (p : ℕ → R → Bool) (q : R → Bool) (f : R → R) (k : ℕ) {r : R} (t : Table R)
    → IsKeyed t
    → find k t ≡ some r
    → q r ≡ true
    → p k r ≡ true
    → p k (f r) ≡ false
    → suc (count_where p (update_where (λ i s. i == k && q s) f t)) ≡ count_where p t
unfolding find update_where count_where
count_where-update p q f k [] keyed here hit met unmet = absurd (cc)
count_where-update p q f k {r} ((j, s) ∷ t) keyed here hit met unmet = elim (Bool-cases (k == j)) [
  | inl same ↦ ground (arith, update_where-key_absent f k q t, nat_beq_iff k j, same)
  | inr other ↦
      ground (
        arith,
        count_where-update p q f k {r = r} t keyed.1,
        other,
        nat_beq_iff k j,
        nat_beq_iff j k,
      )
]

abbrev claimed_id : Option (ℕ × Run) → List ℕ
claimed_id none = []
claimed_id (some (id, r)) = id ∷ []

module _ (now lease : ℕ) (locked : ℕ → Bool) where
  -- One claim of each worker, one after the other, and the ids of the claimed runs.
  unfoldable pub claim_each : List Text → Tx (List ℕ)
  claim_each [] = pure []
  claim_each (w ∷ ws) = do
    o ← claim now w lease locked
    ids ← claim_each ws
    pure (claimed_id o ++ ids)

  -- The number of the runs that are queued, due and unlocked.
  abbrev pub waiting : Db → ℕ
  waiting db = count_where (available now locked) db.runs

  -- What the claims of these workers give.
  abbrev pub Drains : List Text → Db → Type 0
  Drains ws db =
      (ids : List ℕ) × (db' : Db) × (claim_each ws db ≡ ok (ids, db'))
      × (length ids ≡ min (length ws) (waiting db))
      × (waiting db' + length ids ≡ waiting db)

  claim-Drains :
      (w : Text) (ws : List Text) (db mid : Db) (o : Option (ℕ × Run))
      → claim now w lease locked db ≡ ok (o, mid)
      → waiting mid + length (claimed_id o) ≡ waiting db
      → length (claimed_id o) ≡ min 1 (waiting db)
      → Drains ws mid
      → Drains (w ∷ ws) db
  unfolding claim_each
  claim-Drains w ws db mid none e left taken (ids, db', rest, n, m) = (
    ids,
    db',
    >>=-ok (claim now w lease locked) _ db e ∙ >>=-ok (claim_each ws) _ mid rest,
    omega (arith, n, m, left, taken),
    omega (arith, n, m, left, taken),
  )
  claim-Drains w ws db mid (some (id, r)) e left taken (ids, db', rest, n, m) = (
    id ∷ ids,
    db',
    >>=-ok (claim now w lease locked) _ db e ∙ >>=-ok (claim_each ws) _ mid rest,
    omega (arith, n, m, left, taken),
    omega (arith, n, m, left, taken),
  )

  moved-waiting :
      (w : Text) (id : ℕ) (r : Run) (db : Db)
      → IsKeyed db.runs
      → find id db.runs ≡ some r
      → available now locked id r ≡ true
      → suc (
          waiting (
            moved now id queued running
              (mark_running now w lease)
              (worker_payload now w lease locked)
              db))
        ≡ waiting db
  unfolding moved status_beq
  moved-waiting w id r db keyed here met =
      count_where-update (available now locked) (λ q. q.status == queued)
        (set_status now id queued running (mark_running now w lease)
          (worker_payload now w lease locked))
        id {r = r} db.runs keyed here (ground (arith, met)) met refl

  moved-IsKeyed :
      (w : Text) (id : ℕ) (db : Db)
      → IsKeyed db.runs
      → IsKeyed
          (moved now id queued running
            (mark_running now w lease)
            (worker_payload now w lease locked)
            db).runs
  unfolding moved
  moved-IsKeyed w id db keyed =
      IsKeyed-update_where (in_status id queued)
        (set_status now id queued running (mark_running now w lease)
          (worker_payload now w lease locked))
        db.runs keyed

  -- Over a keyed table, claims that are made one after the other, at one time and by any workers, all
  -- return. Each takes a run as long as one is queued, due and unlocked: as many claims as there are
  -- such runs leave none waiting, and further claims take none.
  pub claim_each-Drains : (ws : List Text) (db : Db) → IsKeyed db.runs → Drains ws db
  unfolding claim_each claimed
  claim_each-Drains [] db keyed = ([], db, refl, omega arith, omega arith)
  claim_each-Drains (w ∷ ws) db keyed =
      elim (Option-cases (oldest (λ r. r.created_at) (available now locked) db.runs)) [
        | inl nothing ↦
            let none_left =
              oldest-none-count (λ r. r.created_at) (available now locked) db.runs nothing in
            claim-Drains w ws db db none
              (claim-eq-claimed now w lease locked db keyed ∙ rw (nothing, claimed) refl)
              (omega arith) (omega (arith, none_left)) (claim_each-Drains ws db keyed)
        | inr ((id, r), picked) ↦
            let (here, met) =
              oldest-find (λ q. q.created_at) (available now locked) db.runs keyed picked in
            let taken = moved-waiting w id r db keyed here met in
            let after =
              moved now id queued running (mark_running now w lease)
                (worker_payload now w lease locked) db in
            claim-Drains w ws db after (some (id, mark_running now w lease r))
              (claim-eq-claimed now w lease locked db keyed ∙ rw (picked, claimed) refl)
              (omega (arith, taken)) (omega (arith, taken))
              (claim_each-Drains ws after (moved-IsKeyed w id db keyed))
      ]
