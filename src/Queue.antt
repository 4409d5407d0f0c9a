-- ===== src/Queue.antt =====
-- src/octo/queue.py: the run queue. Each operation is one transaction at the time `now`.
-- `locked` tells the rows that other open transactions hold (FOR UPDATE SKIP LOCKED passes them
-- over), and `new_id` is the id that the database draws for an inserted row.
pub mod Claim
pub mod Drain
pub mod Reap
pub mod Reads
use mathlib.Core.Option
use agentic_octopus.Prelude.{
  ℕ, ◌+◌, ◌-◌, ◌*◌, Bool, true, false, not, ◌&&◌, ◌||◌, Option, none, some, List, [], ◌∷◌, ◌++◌,
  ◌==◌, nat_eq, Text, text_eq, lit, ltb, leb, if◌then◌else◌, coalesce, or_default, length, reverse,
}
use agentic_octopus.Prelude.Dict.{Dict}
use agentic_octopus.Prelude.Json.{Json, str, null}
use agentic_octopus.Status.{
  RunStatus, status_eq, value, queued, running, awaiting_approval, completed, failed,
}
use agentic_octopus.Table.{Table, oldest, ids_where}
use agentic_octopus.Db.{
  Trigger, Run, EventBody, Event, Db, Tx, pure, raise, gets, ok, err, ◌>>=◌, ◌>>◌, assertion_error,
  find_run, insert_run, update_runs, insert_event,
}
use agentic_octopus.Db.EventBody.{status_change, other_event}
use agentic_octopus.Transition.{transition}

abbrev pub default_lease_minutes : ℕ
default_lease_minutes = 15

-- `now() + make_interval(mins => …)`
abbrev pub lease_end : ℕ → ℕ → ℕ
lease_end now minutes = now + minutes * 60000000

abbrev pub trigger_text : Trigger → Text
trigger_text Trigger.api = lit "api"
trigger_text Trigger.schedule = lit "schedule"
trigger_text Trigger.cli = lit "cli"
trigger_text Trigger.webhook = lit "webhook"
trigger_text Trigger.chat = lit "chat"

abbrev pub trigger_payload : Trigger → Dict Text Json
trigger_payload trigger = (lit "trigger", str (trigger_text trigger)) ∷ []

-- The row of an INSERT, with the defaults of the schema.
unfoldable pub new_run : ℕ → Text → Trigger → Json → Option ℕ → ℕ → Dict Text Json → Run
new_run now agent trigger params schedule_id max_attempts tags = record {
  agent = agent;
  status = queued;
  trigger = trigger;
  params = params;
  schedule_id = schedule_id;
  attempts = 0;
  max_attempts = max_attempts;
  available_at = now;
  locked_by = none;
  lease_expires_at = none;
  session_id = none;
  result = none;
  error = none;
  cost_usd = none;
  created_at = now;
  started_at = none;
  finished_at = none;
  tags = tags;
}

unfoldable pub enqueue : ℕ → ℕ → Text → Trigger → Json → Option ℕ → ℕ → Dict Text Json → Tx ℕ
unfolding new_run
enqueue now new_id agent trigger params schedule_id max_attempts tags = do
  insert_run new_id (new_run now agent trigger params schedule_id max_attempts tags)
  insert_event now new_id (status_change none queued (trigger_payload trigger))
  pure new_id

-- `status = 'queued' AND available_at <= now()`, and the row is not locked
abbrev pub available : ℕ → (ℕ → Bool) → ℕ → Run → Bool
available now locked i r = r.status == queued && leb r.available_at now && not (locked i)

-- The SET list of claim.
abbrev pub mark_running : ℕ → Text → ℕ → Run → Run
mark_running now worker_id lease r = record r {
  status = running;
  locked_by = some worker_id;
  attempts = r.attempts + 1;
  started_at = coalesce r.started_at (some now);
  lease_expires_at = some (lease_end now lease);
}

unfoldable pub select_oldest : ℕ → (ℕ → Bool) → Tx (Option (ℕ × Run))
select_oldest now locked db = ok (oldest (λ r. r.created_at) (available now locked) db.runs, db)

unfoldable pub take_up : ℕ → Text → ℕ → Option (ℕ × Run) → Tx (Option (ℕ × Run))
take_up now worker_id lease none = pure none
take_up now worker_id lease (some (id, _)) = do
  update_runs (λ i _. i == id) (mark_running now worker_id lease)
  run ← find_run id
  insert_event now id (status_change (some queued) running ((lit "worker", str worker_id) ∷ []))
  pure (Option.map (λ r. (id, r)) run)

-- The claimed row as RETURNING gives it, or `none` if no row is available.
unfoldable pub claim : ℕ → Text → ℕ → (ℕ → Bool) → Tx (Option (ℕ × Run))
unfolding take_up
claim now worker_id lease locked = do
  picked ← select_oldest now locked
  take_up now worker_id lease picked

abbrev pub owned : ℕ → Text → ℕ → Run → Bool
owned run_id worker_id i r = i == run_id && (r.status == running && is_worker r.locked_by)
  where
    is_worker : Option Text → Bool
    is_worker none = false
    is_worker (some w) = w == worker_id

unfoldable pub heartbeat : ℕ → ℕ → Text → ℕ → Tx Bool
heartbeat now run_id worker_id lease = do
  n ←
      update_runs (owned run_id worker_id)
        (λ r. record r { lease_expires_at = some (lease_end now lease) })
  pure (n == 1)

-- What a run ends with.
pub record Finish : Type 0 where
  pub result : Option Text
  pub error : Option Text
  pub cost_usd : Option ℕ
  pub session_id : Option Text

-- The `extra_set` of finish.
abbrev pub mark_finished : ℕ → Finish → Run → Run
mark_finished now f r = record r {
  result = f.result;
  error = f.error;
  cost_usd = f.cost_usd;
  session_id = coalesce f.session_id r.session_id;
  finished_at = some now;
  locked_by = none;
  lease_expires_at = none;
}

-- `{"error": error} if error else None`
abbrev pub error_payload : Option Text → Dict Text Json
error_payload none = []
error_payload (some []) = []
error_payload (some (c ∷ e)) = (lit "error", str (c ∷ e)) ∷ []

unfoldable pub finish : ℕ → ℕ → RunStatus → Finish → Tx Unit
finish now run_id status f =
    if status == completed || status == failed
    then transition now run_id running status (mark_finished now f) (error_payload f.error)
    else raise assertion_error

-- The `extra_set` of a run that parks. A running run has at least one attempt, so the
-- subtraction is exact there.
abbrev pub mark_parked : Run → Run
mark_parked r = record r { locked_by = none; lease_expires_at = none; attempts = r.attempts - 1 }

unfoldable pub park_awaiting_approval : ℕ → ℕ → Tx Unit
park_awaiting_approval now run_id = transition now run_id running awaiting_approval mark_parked []

-- `lease_expires_at < now()`, which is not true of a NULL
abbrev pub lease_over : ℕ → Option ℕ → Bool
lease_over now none = false
lease_over now (some t) = ltb t now

abbrev pub requeueable : ℕ → (ℕ → Bool) → ℕ → Run → Bool
requeueable now locked i r =
    r.status == running
    && (lease_over now r.lease_expires_at && (ltb r.attempts r.max_attempts && not (locked i)))

abbrev pub exhausted : ℕ → (ℕ → Bool) → ℕ → Run → Bool
exhausted now locked i r =
    r.status == running
    && (lease_over now r.lease_expires_at && (leb r.max_attempts r.attempts && not (locked i)))

abbrev pub mark_requeued : Run → Run
mark_requeued r = record r { status = queued; locked_by = none; lease_expires_at = none }

abbrev pub mark_dead : ℕ → Run → Run
mark_dead now r = record r {
  status = failed;
  error = some (lit "lease expired; attempts exhausted");
  locked_by = none;
  lease_expires_at = none;
  finished_at = some now;
}

-- `for rid in ids: await record_event(…)`
unfoldable pub record_each : ℕ → EventBody → List ℕ → Tx Unit
record_each now body [] = pure tt
record_each now body (rid ∷ ids) = do insert_event now rid body; record_each now body ids

abbrev pub lease_expired : Dict Text Json
lease_expired = (lit "reason", str (lit "lease_expired")) ∷ []

-- UPDATE … RETURNING id
unfoldable pub update_returning : (ℕ → Run → Bool) → (Run → Run) → Tx (List ℕ)
update_returning p f = do ids ← gets (λ db. ids_where p db.runs); update_runs p f; pure ids

unfoldable pub reap_expired : ℕ → (ℕ → Bool) → Tx ℕ
unfolding update_returning
reap_expired now locked = do
  requeued_ids ← update_returning (requeueable now locked) mark_requeued
  failed_ids ← update_returning (exhausted now locked) (mark_dead now)
  record_each now (status_change (some running) queued lease_expired) requeued_ids
  record_each now (status_change (some running) failed lease_expired) failed_ids
  pure (length requeued_ids + length failed_ids)

unfoldable pub record_event : ℕ → ℕ → Text → Json → Tx Unit
record_event now run_id kind payload = insert_event now run_id (other_event kind payload)

-- UPDATE runs SET tags = … WHERE id = …, the last statement of the worker's process_once.
unfoldable pub set_tags : ℕ → Dict Text Json → Tx ℕ
set_tags run_id tags = update_runs (λ i _. i == run_id) (λ r. record r { tags = tags })
