-- ===== src/Transition/Outcome.antt =====
-- All outcomes of a transition, and what it writes.
use agentic_octopus.Prelude.{
  ℕ, ◌≡◌, true, Option, none, some, ◌∷◌, arith, ◌==◌, nat_eq, nat_beq_iff, Text, if◌then◌else◌,
  Option-cases, inl, inr,
}
use agentic_octopus.Prelude.Dict.{Dict}
use agentic_octopus.Prelude.Json.{Json}
use agentic_octopus.Status.{RunStatus, status_eq, status_beq_iff, allowed}
use agentic_octopus.Table.{find, update_where, IsKeyed}
use agentic_octopus.Table.Laws.{hits, count_where-key, find-update_where}
use agentic_octopus.Db.{
  Run, Db, Result, ok, err, illegal_pair, not_in_status, update_runs, insert_event,
}
use agentic_octopus.Db.EventBody.{status_change}
use agentic_octopus.Transition.{transition, in_status}

module _ (now run_id : ℕ) (from to : RunStatus) (extra_set : Run → Run)
    (payload : Dict Text Json) where
  abbrev pub set_status : Run → Run
  set_status r = record (extra_set r) { status = to }

  -- The tables after a transition that went through.
  unfoldable pub moved : Db → Db
  moved db = record db {
    runs = update_where (in_status run_id from) set_status db.runs;
    events =
        record { run_id = run_id; ts = now; body = status_change (some from) to payload }
        ∷ db.events;
  }

  unfoldable pub outcome : Option Run → Db → Result (Unit × Db)
  outcome none db = err (not_in_status run_id from)
  outcome (some r) db =
      if r.status == from then ok (tt, moved db) else err (not_in_status run_id from)

  -- Over a keyed table, all outcomes of a transition: an illegal pair raises, a run that is absent or
  -- in another state raises, and neither writes anything; else the row gets the new state and
  -- columns and one status change is recorded.
  pub transition-eq-outcome :
      (db : Db)
      → IsKeyed db.runs
      → transition now run_id from to extra_set payload db
        ≡ (if allowed from to then outcome (find run_id db.runs) db else err (illegal_pair from to))
  unfolding transition moved outcome update_runs insert_event hits
  transition-eq-outcome db keyed = elim (Option-cases (find run_id db.runs)) [
    | inl absent ↦ ground (
      arith,
      count_where-key run_id (λ r. r.status == from) db.runs keyed,
      find-update_where (in_status run_id from) set_status run_id db.runs,
    )
    | inr (r, here) ↦ ground (
      arith,
      count_where-key run_id (λ r. r.status == from) db.runs keyed,
      find-update_where (in_status run_id from) set_status run_id db.runs,
    )
  ]

  -- The row that moved, and the others as they were.
  pub find-moved :
      (j : ℕ) (db : Db) (r : Run)
      → find run_id db.runs ≡ some r
      → r.status ≡ from
      → find j (moved db).runs ≡ (if j == run_id then some (set_status r) else find j db.runs)
  unfolding moved
  find-moved j db r here was = elim (Option-cases (find j db.runs)) [
    | inl absent ↦ ground (
      arith,
      find-update_where (in_status run_id from) set_status j db.runs,
      status_beq_iff r.status from,
      nat_beq_iff j run_id,
    )
    | inr (q, there) ↦ ground (
      arith,
      find-update_where (in_status run_id from) set_status j db.runs,
      status_beq_iff r.status from,
      nat_beq_iff j run_id,
    )
  ]

  -- A transition that returns was legal, found the run in its old state, and wrote `moved`.
  pub transition-eq-ok :
      (db : Db) {db' : Db} {u : Unit}
      → IsKeyed db.runs
      → transition now run_id from to extra_set payload db ≡ ok (u, db')
      → (r : Run) × (find run_id db.runs ≡ some r)
        × (r.status ≡ from)
        × (allowed from to ≡ true)
        × (db' ≡ moved db)
  unfolding outcome
  transition-eq-ok db keyed e = elim (Option-cases (find run_id db.runs)) [
    | inl absent ↦ absurd (ground (arith, transition-eq-outcome db keyed))
    | inr (r, here) ↦ (
      r,
      here,
      ground (arith, transition-eq-outcome db keyed, status_beq_iff r.status from),
      ground (arith, transition-eq-outcome db keyed),
      ground (arith, transition-eq-outcome db keyed),
    )
  ]
