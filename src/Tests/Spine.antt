-- ===== src/Tests/Spine.antt =====
-- The spine on concrete tables: a run that is enqueued, claimed, finished or reaped.
use mathlib.Core.Option
use agentic_octopus.Prelude.{
  ℕ, ◌≡◌, ◌≢◌, ◌<◌, ◌≤◌, ◌+◌, refl, Bool, true, false, Option, none, some, [], ◌∷◌, arith, Text,
  lit, length, is_some, text_eq, if◌then◌else◌,
}
use agentic_octopus.Prelude.Json.{Json, null}
use agentic_octopus.Status.{is_terminal, status_beq, allowed, queued, running, completed}
use agentic_octopus.Table.{find, append, update_where, count_where, ids_where, oldest}
use agentic_octopus.Table.Oldest.{before}
use agentic_octopus.Db.{
  Trigger, Run, Db, ok, err, find_run, insert_run, insert_event, update_runs, illegal_pair,
}
use agentic_octopus.Db.EventBody.{status_change}
use agentic_octopus.Transition.{transition}
use agentic_octopus.Transition.Outcome.{moved, outcome, transition-eq-outcome}
use agentic_octopus.Queue.{
  heartbeat, finish, Finish, new_run, enqueue, trigger_payload, available, mark_running,
  select_oldest, claim, exhausted, requeueable, reap_expired,
}
use agentic_octopus.Queue.Claim.{claim-oldest, claim_empty, claims_distinct, worker_payload}
use agentic_octopus.Queue.Reap.{
  reaped, requeue_batch, fail_batch, reap_expired-eq-batches, find-reap_expired,
}
use agentic_octopus.Audit.History.{Extends}
use agentic_octopus.Audit.Terminal.{at_once, later, Later-terminal}
use agentic_octopus.Audit.{trail_status, IsTrail}
use agentic_octopus.Audit.Reach.{
  Reach, start, next, enqueues, claims, finishes, beats, Reach-audited, Reach-held, Reach-released,
  Reach-room,
}

-- Each cron expression fires an hour later.
abbrev hourly : Text → Text → ℕ → Option ℕ
hourly expr timezone t = some (t + 3600000000)

abbrev unlocked : ℕ → Bool
unlocked i = false

abbrev waiting : Run
waiting = new_run 10 (lit "echo") Trigger.api null none 2 []

abbrev enqueued_db : Db
enqueued_db = record {
  runs = (1, waiting) ∷ [];
  events =
      record { run_id = 1; ts = 10; body = status_change none queued (trigger_payload Trigger.api) }
      ∷ [];
  approvals = [];
  schedules = [];
}

abbrev held_run : Run
held_run = mark_running 20 (lit "w") 15 waiting

abbrev claimed_db : Db
claimed_db = record {
  runs = (1, held_run) ∷ [];
  events =
      record {
        run_id = 1;
        ts = 20;
        body = status_change (some queued) running ((lit "worker", Json.str (lit "w")) ∷ []);
      }
      ∷ enqueued_db.events;
  approvals = [];
  schedules = [];
}

enqueued-Reach : Reach hourly enqueued_db
unfolding enqueue insert_run insert_event new_run find append
enqueued-Reach =
    next start (enqueues 10 1 (lit "echo") Trigger.api null none 2 [] ((omega arith)) refl)

claimed_once : claim 20 (lit "w") 15 unlocked enqueued_db ≡ ok (some (1, held_run), claimed_db)
unfolding claim select_oldest oldest find_run insert_event update_runs new_run find update_where
    count_where status_beq
claimed_once = refl

claimed-Reach : Reach hourly claimed_db
claimed-Reach =
    next enqueued-Reach (claims 20 (lit "w") 15 unlocked (some (1, held_run)) claimed_once)

Reach-audited_example :
    (trail_status 1 claimed_db.events ≡ Option.map (λ r. r.status) (find 1 claimed_db.runs))
    × IsTrail claimed_db.events
Reach-audited_example = Reach-audited hourly 1 claimed-Reach

found_held : find 1 claimed_db.runs ≡ some held_run
unfolding find
found_held = refl

found_waiting : find 1 enqueued_db.runs ≡ some waiting
unfolding find
found_waiting = refl

Reach-held_example :
    (is_some held_run.locked_by ≡ true)
    × (is_some held_run.lease_expires_at ≡ true)
    × (0 < held_run.attempts)
    × (held_run.attempts ≤ held_run.max_attempts)
Reach-held_example = Reach-held hourly 1 held_run claimed-Reach found_held refl

waiting_queued : waiting.status ≡ queued
unfolding new_run
waiting_queued = refl

waiting_not_running : waiting.status ≢ running
unfolding new_run
waiting_not_running e = absurd (cc)

Reach-released_example : (waiting.locked_by ≡ none) × (waiting.lease_expires_at ≡ none)
Reach-released_example =
    Reach-released hourly 1 waiting enqueued-Reach found_waiting waiting_not_running

Reach-room_example : waiting.attempts < waiting.max_attempts
Reach-room_example = Reach-room hourly 1 waiting enqueued-Reach found_waiting waiting_queued

claim-oldest_example :
    (r : Run) × (find 1 enqueued_db.runs ≡ some r)
    × (available 20 unlocked 1 r ≡ true)
    × (count_where
          (before (λ q. q.created_at) (available 20 unlocked) r.created_at)
          enqueued_db.runs
        ≡ 0)
    × (held_run ≡ mark_running 20 (lit "w") 15 r)
    × (claimed_db
        ≡ moved 20 1 queued running
            (mark_running 20 (lit "w") 15)
            (worker_payload 20 (lit "w") 15 unlocked)
            enqueued_db)
unfolding find
claim-oldest_example =
    claim-oldest 20 (lit "w") 15 unlocked enqueued_db claimed_db 1 held_run (refl, tt) claimed_once

nothing_left : claim 30 (lit "v") 15 unlocked claimed_db ≡ ok (none, claimed_db)
unfolding claim select_oldest oldest status_beq
nothing_left = refl

claim_empty_example :
    (claimed_db ≡ claimed_db) × (count_where (available 30 unlocked) claimed_db.runs ≡ 0)
unfolding find
claim_empty_example =
    claim_empty 30 (lit "v") 15 unlocked claimed_db claimed_db (refl, tt) nothing_left

-- Two runs, claimed by two workers one after the other.
abbrev two_db : Db
two_db = record enqueued_db { runs = (1, waiting) ∷ (2, waiting) ∷ [] }

abbrev two_claimed : Db
two_claimed = record two_db { runs = (1, held_run) ∷ (2, waiting) ∷ []; events = claimed_db.events }

abbrev second_run : Run
second_run = mark_running 21 (lit "v") 15 waiting

abbrev two_taken : Db
two_taken = record two_db {
  runs = (1, held_run) ∷ (2, second_run) ∷ [];
  events =
      record {
        run_id = 2;
        ts = 21;
        body = status_change (some queued) running ((lit "worker", Json.str (lit "v")) ∷ []);
      }
      ∷ claimed_db.events;
}

first_claim : claim 20 (lit "w") 15 unlocked two_db ≡ ok (some (1, held_run), two_claimed)
unfolding claim select_oldest oldest find_run insert_event update_runs new_run find update_where
    count_where status_beq
first_claim = refl

second_claim : claim 21 (lit "v") 15 unlocked two_claimed ≡ ok (some (2, second_run), two_taken)
unfolding claim select_oldest oldest find_run insert_event update_runs new_run find update_where
    count_where status_beq
second_claim = refl

claims_distinct_example : ◌≢◌ {A = ℕ} 2 1
unfolding find
claims_distinct_example =
    claims_distinct 20 21 (lit "w") (lit "v") 15 15 unlocked unlocked two_db two_claimed two_taken 1
      2 held_run second_run (refl, (refl, tt)) first_claim second_claim

abbrev done : Finish
done = record { result = some (lit "fine"); error = none; cost_usd = none; session_id = none }

transition-eq-outcome_example :
    transition 20 1 queued running (mark_running 20 (lit "w") 15) [] enqueued_db ≡ (
      if allowed queued running
      then outcome 20 1 queued running
          (mark_running 20 (lit "w") 15)
          []
          (find 1 enqueued_db.runs)
          enqueued_db
      else err (illegal_pair queued running))
unfolding find
transition-eq-outcome_example =
    transition-eq-outcome 20 1 queued running (mark_running 20 (lit "w") 15) [] enqueued_db
      (refl, tt)

reap_expired-eq-batches_example :
    reap_expired 2000000000 unlocked claimed_db
    ≡ ok (
      length (ids_where (requeueable 2000000000 unlocked) claimed_db.runs)
          + length (
              ids_where
                (exhausted 2000000000 unlocked)
                (requeue_batch 2000000000 unlocked claimed_db).runs),
      fail_batch 2000000000 unlocked (requeue_batch 2000000000 unlocked claimed_db),
    )
reap_expired-eq-batches_example = reap_expired-eq-batches 2000000000 unlocked claimed_db

find-reap_expired_example :
    find 1 (fail_batch 2000000000 unlocked (requeue_batch 2000000000 unlocked claimed_db)).runs
    ≡ Option.map (reaped 2000000000 unlocked 1) (find 1 claimed_db.runs)
find-reap_expired_example =
    find-reap_expired 2000000000 unlocked claimed_db
      (fail_batch 2000000000 unlocked (requeue_batch 2000000000 unlocked claimed_db))
      (length (ids_where (requeueable 2000000000 unlocked) claimed_db.runs)
        + length (
            ids_where (exhausted 2000000000 unlocked)
              (requeue_batch 2000000000 unlocked claimed_db).runs))
      1 reap_expired-eq-batches_example

-- The run ends, and the worker's last heartbeat comes too late.
abbrev ended_run : Run
ended_run = record held_run {
  status = completed;
  result = some (lit "fine");
  locked_by = none;
  lease_expires_at = none;
  finished_at = some 30;
}

abbrev ended_db : Db
ended_db = record claimed_db {
  runs = (1, ended_run) ∷ [];
  events =
      record { run_id = 1; ts = 30; body = status_change (some running) completed [] }
      ∷ claimed_db.events;
}

ended_once : finish 30 1 completed done claimed_db ≡ ok (tt, ended_db)
unfolding finish transition insert_event update_runs new_run find update_where count_where
    status_beq allowed
ended_once = refl

late_heartbeat : heartbeat 40 1 (lit "w") 15 ended_db ≡ ok (false, ended_db)
unfolding heartbeat update_runs update_where count_where status_beq
late_heartbeat = refl

Later-terminal_example :
    Extends ended_db.events ended_db.events
    × (Option.map (λ r. r.status) (find 1 ended_db.runs) ≡ some completed)
unfolding find is_terminal status_beq
Later-terminal_example =
    Later-terminal hourly 1 ended_run (next claimed-Reach (finishes 30 1 completed done ended_once))
      (later at_once (beats 40 1 (lit "w") 15 false late_heartbeat)) refl refl
