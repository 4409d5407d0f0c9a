-- ===== src/Tests/Schedules.antt =====
-- A tick of the scheduler over two schedules, one of them due.
use agentic_octopus.Prelude.{
  ℕ, ◌+◌, ◌≡◌, ◌<◌, arith, refl, false, Option, none, some, [], ◌∷◌, Text, lit, length,
}
use agentic_octopus.Prelude.Json.{null}
use agentic_octopus.Status.{queued}
use agentic_octopus.Table.{find, append, update_where}
use agentic_octopus.Db.{Trigger, Schedule, Db, ok, insert_run, insert_event}
use agentic_octopus.Db.EventBody.{status_change}
use agentic_octopus.Queue.{new_run, trigger_payload}
use agentic_octopus.Scheduler.{
  rows_where, is_due, mark_fired, tick, fire_each, fire, compute_next, update_schedules,
  default_schedule,
}
use agentic_octopus.Scheduler.Outcome.{scheduled_run}
use agentic_octopus.Scheduler.Again.{tick-again}
use agentic_octopus.Scheduler.Firing.{Fired, tick-fires_due, tick-keeps_others}

abbrev hourly : Text → Text → ℕ → Option ℕ
hourly expr timezone t = some (t + 3600000000)

abbrev daily : ℕ → Schedule
daily next = default_schedule hourly (lit "echo") (lit "0 6 * * *") null next

abbrev before_db : Db
before_db = record {
  runs = [];
  events = [];
  approvals = [];
  schedules = (1, daily 100) ∷ (2, daily 900) ∷ [];
}

abbrev draw : ℕ → ℕ
draw n = n + 50

abbrev after_db : Db
after_db = record {
  runs = (50, scheduled_run 200 1 (daily 100)) ∷ [];
  events =
      record {
        run_id = 50;
        ts = 200;
        body = status_change none queued (trigger_payload Trigger.schedule);
      }
      ∷ [];
  approvals = [];
  schedules = (1, mark_fired 200 3600000201 50 (daily 100)) ∷ (2, daily 900) ∷ [];
}

ticked : tick hourly 200 201 draw (λ i. false) before_db ≡ ok (1, after_db)
unfolding tick fire_each fire rows_where compute_next update_schedules insert_run insert_event
    new_run find append update_where
ticked = refl

tick-fires_due_example :
    (1 ≡ length (rows_where (is_due 200 (λ i. false)) before_db.schedules))
    × Fired hourly 200 201 1 (daily 100) after_db
unfolding find
tick-fires_due_example =
    tick-fires_due hourly 200 201 draw (λ i. false) 1 (daily 100) before_db after_db {n = 1}
      (refl, (refl, tt)) refl refl ticked

tick-keeps_others_example : find 2 after_db.schedules ≡ some (daily 900)
unfolding find
tick-keeps_others_example =
    tick-keeps_others hourly 200 201 draw (λ i. false) 2 (daily 900) before_db after_db {n = 1}
      (refl, (refl, tt)) refl refl ticked

hourly_after : (expr timezone : Text) (t next : ℕ) → hourly expr timezone t ≡ some next → t < next
hourly_after expr timezone t next e = ground arith

tick-again_example : tick hourly 200 300 draw (λ i. false) after_db ≡ ok (0, after_db)
unfolding find
tick-again_example =
    tick-again hourly 200 201 hourly_after (omega arith) draw draw (λ i. false) 300 before_db
      after_db {n = 1} (refl, (refl, tt)) ticked
