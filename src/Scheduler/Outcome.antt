-- ===== src/Scheduler/Outcome.antt =====
-- What firing a schedule that returns has done.
use agentic_octopus.Prelude.{
  ℕ, ◌≡◌, Option, none, some, [], ◌∷◌, arith, ◌==◌, nat_eq, Text, Option-cases, inl, inr,
}
use agentic_octopus.Status.{queued}
use agentic_octopus.Table.{find, append, update_where}
use agentic_octopus.Db.{
  Trigger, Run, Schedule, Db, ok, ◌>>=◌, >>=-eq-ok, insert_run, insert_run-eq-ok, insert_event,
  insert_event-eq-ok,
}
use agentic_octopus.Db.EventBody.{status_change}
use agentic_octopus.Queue.{new_run, trigger_payload}
use agentic_octopus.Scheduler.{compute_next, fire, update_schedules, mark_fired}

-- The run that a schedule enqueues.
abbrev pub scheduled_run : ℕ → ℕ → Schedule → Run
scheduled_run now sid s = new_run now s.agent Trigger.schedule s.params (some sid) 1 []

-- The tables after one schedule has fired.
abbrev pub fired_db : ℕ → ℕ → ℕ → ℕ → Schedule → Db → Db
fired_db now next run_id sid s db = record db {
  runs = append run_id (scheduled_run now sid s) db.runs;
  events =
      record {
        run_id = run_id;
        ts = now;
        body = status_change none queued (trigger_payload Trigger.schedule);
      }
      ∷ db.events;
  schedules = update_where (λ i _. i == sid) (mark_fired now next run_id) db.schedules;
}

module _ (get_next : Text → Text → ℕ → Option ℕ) where
  pub compute_next-eq-ok :
      (wall : ℕ) (expr timezone : Text) (db : Db) {t : ℕ} {db' : Db}
      → compute_next get_next wall expr timezone db ≡ ok (t, db')
      → (get_next expr timezone wall ≡ some t) × (db' ≡ db)
  unfolding compute_next
  compute_next-eq-ok wall expr timezone db e = elim (Option-cases (get_next expr timezone wall)) [
    | inl raised ↦ absurd (cc (rw (raised, compute_next) at e))
    | inr (t, at) ↦ ground (arith, rw (at, compute_next) at e)
  ]

  pub fire-eq-ok :
      (now wall run_id sid : ℕ) (s : Schedule) (db : Db) {u : Unit} {db' : Db}
      → fire get_next now wall run_id sid s db ≡ ok (u, db')
      → (next : ℕ) × (get_next s.cron_expr s.timezone wall ≡ some next)
        × (find run_id db.runs ≡ none)
        × (db' ≡ fired_db now next run_id sid s db)
  unfolding fire update_schedules
  fire-eq-ok now wall run_id sid s db {u} {db'} e =
      let run = scheduled_run now sid s in
      let body = status_change none queued (trigger_payload Trigger.schedule) in
      let write = λ (next : ℕ). update_schedules (λ i _. i == sid) (mark_fired now next run_id) in
      let (_, mid, inserted, rest) =
        >>=-eq-ok (insert_run run_id run)
          (λ _. insert_event now run_id body >>= λ _.
            compute_next get_next wall s.cron_expr s.timezone >>= write)
          db e in
      let (_, mid', logged, rest') =
        >>=-eq-ok (insert_event now run_id body)
          (λ _. compute_next get_next wall s.cron_expr s.timezone >>= write) mid rest in
      let (next, last, computed, done) =
        >>=-eq-ok (compute_next get_next wall s.cron_expr s.timezone) write mid' rest' in
      let (fresh, written) = insert_run-eq-ok run_id run db inserted in
      let (at, same) = compute_next-eq-ok wall s.cron_expr s.timezone mid' computed in
      (next, at, fresh, ground (arith, insert_event-eq-ok now run_id body mid logged))
