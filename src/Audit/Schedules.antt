-- ===== src/Audit/Schedules.antt =====
-- The invariant under src/octo/worker/scheduler.py.
use mathlib.Core.Path.{subst}
use agentic_octopus.Prelude.{ℕ, ◌+◌, ◌≡◌, refl, Bool, Option, some, List, [], ◌∷◌, arith, Text, sym}
use agentic_octopus.Table.{Table}
use agentic_octopus.Db.{Trigger, Schedule, Db, ok, >>=-eq-ok}
use agentic_octopus.Queue.{new_run, trigger_payload}
use agentic_octopus.Scheduler.{fire, fire_each, tick, rows_where, is_due}
use agentic_octopus.Scheduler.Outcome.{scheduled_run, fired_db, fire-eq-ok}
use agentic_octopus.Audit.{IsSound}
use agentic_octopus.Audit.Queue.{created, created-IsSound, new_run-IsRow}

pub with_schedules-IsSound :
    (t : Table Schedule) (db : Db) → IsSound db → IsSound (record db { schedules = t })
with_schedules-IsSound t db s = record {
  keyed = s.keyed;
  rows = s.rows;
  audited = s.audited;
  legal_trail = s.legal_trail;
}

module _ (get_next : Text → Text → ℕ → Option ℕ) where
  pub fire-IsSound :
      (now wall run_id sid : ℕ) (sch : Schedule) (db db' : Db) (u : Unit)
      → IsSound db
      → fire get_next now wall run_id sid sch db ≡ ok (u, db')
      → IsSound db'
  unfolding new_run
  fire-IsSound now wall run_id sid sch db db' u s e =
      let (next, at, fresh, written) = fire-eq-ok get_next now wall run_id sid sch db e in
      let run = scheduled_run now sid sch in
      subst IsSound (sym written) (
        with_schedules-IsSound (fired_db now next run_id sid sch db).schedules
          (created now run_id run (trigger_payload Trigger.schedule) db)
          (created-IsSound now run_id run (trigger_payload Trigger.schedule) db fresh refl
            (new_run-IsRow now sch.agent Trigger.schedule sch.params (some sid) 1 [] (omega arith))
            s))

  fire_each-IsSound :
      (now wall : ℕ) (draw : ℕ → ℕ) (fired : ℕ) (due : List (ℕ × Schedule)) (db db' : Db) (n : ℕ)
      → IsSound db
      → fire_each get_next now wall draw fired due db ≡ ok (n, db')
      → IsSound db'
  unfolding fire_each
  fire_each-IsSound now wall draw fired [] db db' n s e = subst IsSound (ground arith) s
  fire_each-IsSound now wall draw fired ((sid, sch) ∷ due) db db' n s e =
      let (u, mid, first, rest) =
        >>=-eq-ok (fire get_next now wall (draw fired) sid sch)
          (λ _. fire_each get_next now wall draw (fired + 1) due) db e in
      fire_each-IsSound now wall draw (fired + 1) due mid db' n
        (fire-IsSound now wall (draw fired) sid sch db mid u s first) rest

  pub tick-IsSound :
      (now wall : ℕ) (draw : ℕ → ℕ) (locked : ℕ → Bool) (db db' : Db) (n : ℕ)
      → IsSound db
      → tick get_next now wall draw locked db ≡ ok (n, db')
      → IsSound db'
  unfolding tick
  tick-IsSound now wall draw locked db db' n s e =
      fire_each-IsSound now wall draw 0 (rows_where (is_due now locked) db.schedules) db db' n s e
