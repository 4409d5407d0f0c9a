-- ===== src/Queue/Claim.antt =====
-- src/octo/queue.py, claim: what a claim writes and returns.
use mathlib.Core.Path.{subst}
use agentic_octopus.Prelude.{
  ℕ, ◌≡◌, ◌≢◌, sym, ap, ◌∙◌, Bool, true, Option, none, some, [], ◌∷◌, arith, ◌==◌, nat_eq, Text,
  lit, Option-cases, inl, inr, nat_beq_iff,
}
use agentic_octopus.Prelude.Dict.{Dict}
use agentic_octopus.Prelude.Json.{Json, str}
use agentic_octopus.Status.{status_eq, status_beq, queued, running}
use agentic_octopus.Table.{find, update_where, count_where, oldest, IsKeyed}
use agentic_octopus.Table.Laws.{IsKeyed-update_where, find-update_where, update_where-key}
use agentic_octopus.Table.Oldest.{oldest-find, before, oldest-before, oldest-none-count}
use agentic_octopus.Db.{Run, Db, Result, ok, ◌>>=◌, find_run, update_runs, insert_event}
use agentic_octopus.Transition.{in_status}
use agentic_octopus.Transition.Outcome.{moved, set_status}
use agentic_octopus.Queue.{available, mark_running, select_oldest, claim}

module _ (now : ℕ) (worker_id : Text) (lease : ℕ) (locked : ℕ → Bool) where
  abbrev pub worker_payload : Dict Text Json
  worker_payload = (lit "worker", str worker_id) ∷ []

  unfoldable pub claimed : Option (ℕ × Run) → Db → Result (Option (ℕ × Run) × Db)
  claimed none db = ok (none, db)
  claimed (some (id, r)) db = ok (
    some (id, mark_running now worker_id lease r),
    moved now id queued running (mark_running now worker_id lease) worker_payload db,
  )

  pub claim-eq-claimed :
      (db : Db)
      → IsKeyed db.runs
      → claim now worker_id lease locked db
        ≡ claimed (oldest (λ r. r.created_at) (available now locked) db.runs) db
  unfolding claim select_oldest find_run update_runs insert_event claimed moved
  claim-eq-claimed db keyed =
      elim (Option-cases (oldest (λ r. r.created_at) (available now locked) db.runs)) [
        | inl nothing ↦ rw nothing
        | inr ((id, r), picked) ↦
            let (here, met) =
              oldest-find (λ q. q.created_at) (available now locked) db.runs keyed picked in
            let queued_row : (r.status == queued) ≡ true = ground (arith, met) in
            let seen : find id
                  (update_where (in_status id queued) (mark_running now worker_id lease) db.runs)
                ≡ some (mark_running now worker_id lease r) =
              ground (
                arith,
                here,
                queued_row,
                nat_beq_iff id id,
                find-update_where (in_status id queued) (mark_running now worker_id lease) id
                    db.runs,
              ) in
            rw
              (
                picked,
                update_where-key (mark_running now worker_id lease) id (λ q. q.status == queued)
                    db.runs keyed here queued_row,
              )
              (rw (seen, seen, insert_event, ◌>>=◌))
      ]

  -- Over a keyed table, a claim that returns a run returns one that was queued, due and locked by
  -- nobody, and no such run was created earlier. The run comes back running, held by the worker, with
  -- its lease and one attempt more, and the claim wrote this as a transition from queued to running.
  pub claim-oldest :
      (db db' : Db) (id : ℕ) (run : Run)
      → IsKeyed db.runs
      → claim now worker_id lease locked db ≡ ok (some (id, run), db')
      → (r : Run) × (find id db.runs ≡ some r)
        × (available now locked id r ≡ true)
        × (count_where (before (λ q. q.created_at) (available now locked) r.created_at) db.runs ≡ 0)
        × (run ≡ mark_running now worker_id lease r)
        × (db' ≡ moved now id queued running (mark_running now worker_id lease) worker_payload db)
  unfolding claimed
  claim-oldest db db' id run keyed e =
      elim (Option-cases (oldest (λ q. q.created_at) (available now locked) db.runs)) [
        | inl nothing ↦ absurd (ground (arith, claim-eq-claimed db keyed))
        | inr ((k, r), picked) ↦
            let (here, met) =
              oldest-find (λ q. q.created_at) (available now locked) db.runs keyed picked in
            let same : k ≡ id = ground (arith, claim-eq-claimed db keyed) in
            (
              r,
              rw (← same) here,
              rw (← same) met,
              oldest-before (λ q. q.created_at) (available now locked) {k = k} {r = r} db.runs
                  picked,
              ground (arith, claim-eq-claimed db keyed),
              ground (arith, claim-eq-claimed db keyed),
            )
      ]

  -- Over a keyed table, a claim that comes back empty has written nothing, and no run was queued, due
  -- and unlocked.
  pub claim_empty :
      (db db' : Db)
      → IsKeyed db.runs
      → claim now worker_id lease locked db ≡ ok (none, db')
      → (db' ≡ db) × (count_where (available now locked) db.runs ≡ 0)
  unfolding claimed
  claim_empty db db' keyed e =
      elim (Option-cases (oldest (λ q. q.created_at) (available now locked) db.runs)) [
        | inl nothing ↦ (
          ground (arith, claim-eq-claimed db keyed),
          oldest-none-count (λ q. q.created_at) (available now locked) db.runs nothing,
        )
        | inr ((k, r), picked) ↦ absurd (ground (arith, claim-eq-claimed db keyed))
      ]

-- Over a keyed table, a run that one worker has claimed is not claimed by the next claim, whoever
-- makes it and whatever rows are locked.
pub claims_distinct :
    (now now' : ℕ) (w w' : Text) (lease lease' : ℕ) (locked locked' : ℕ → Bool) (db db₁ db₂ : Db)
    (id id' : ℕ) (run run' : Run)
    → IsKeyed db.runs
    → claim now w lease locked db ≡ ok (some (id, run), db₁)
    → claim now' w' lease' locked' db₁ ≡ ok (some (id', run'), db₂)
    → id' ≢ id
unfolding moved status_beq
claims_distinct now now' w w' lease lease' locked locked' db db₁ db₂ id id' run run' keyed e e'
      same =
    let (r, here, met, _, _, wrote) = claim-oldest now w lease locked db db₁ id run keyed e in
    let keyed' : IsKeyed db₁.runs =
      subst (λ d. IsKeyed d.runs) (sym wrote)
        (IsKeyed-update_where (in_status id queued)
          (set_status now id queued running (mark_running now w lease)
            (worker_payload now w lease locked))
          db.runs keyed) in
    let (r', there, met', _, _, _) =
      claim-oldest now' w' lease' locked' db₁ db₂ id' run' keyed' e' in
    let queued_row : (r.status == queued) ≡ true = ground (arith, met) in
    let not_queued : (r'.status == queued) ≡ true = ground (arith, met') in
    let seen : find id db₁.runs ≡ some (mark_running now w lease r) =
      ap (λ (d : Db). find id d.runs) wrote
      ∙ ground (
        arith,
        here,
        queued_row,
        nat_beq_iff id id,
        find-update_where (in_status id queued) (mark_running now w lease) id db.runs,
      ) in
    let same_row : some r' ≡ some (mark_running now w lease r) =
      sym there ∙ ap (λ i. find i db₁.runs) same ∙ seen in
    ground (arith, same_row, not_queued)
