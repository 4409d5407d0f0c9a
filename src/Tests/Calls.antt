-- ===== src/Tests/Calls.antt =====
-- Decisions and calls of the worker on concrete tables.
use agentic_octopus.Prelude.{
  ◌≡◌, ◌-◌, inl, refl, true, false, none, some, List, [], ◌∷◌, ◌==◌, nat_eq, text_beq, text_eq, lit,
  if◌then◌else◌,
}
use agentic_octopus.Prelude.Dict.{lookup}
use agentic_octopus.Prelude.Json.{Json, null}
use agentic_octopus.Status.{status_beq, status_eq, queued, running, awaiting_approval, completed}
use agentic_octopus.Table.{find, update_where, count_where, oldest}
use agentic_octopus.Db.{
  Trigger, Run, Event, Db, ok, err, find_run, insert_event, update_runs, not_in_status,
}
use agentic_octopus.Db.EventBody.{status_change}
use agentic_octopus.Registry.{LoadedAgent}
use agentic_octopus.Queue.{
  new_run, trigger_payload, mark_running, default_lease_minutes, select_oldest, claim,
}
use agentic_octopus.Approvals.{request_payload, new_approval, has_approved}
use agentic_octopus.Executor.{
  ExecStatus, ExecOutcome, failure, returned, AgentExecutor, get_executor,
}
use agentic_octopus.Worker.{Call, gate_action, executor_for, emit, process_once}
use agentic_octopus.Worker.Gate.{with_executors, unapproved_not_executed, unapproved_parked}
use agentic_octopus.Worker.Conclusion.{process_once_lost}

abbrev waiting : Run
waiting = new_run 10 (lit "echo") Trigger.api null none 2 []

abbrev held_run : Run
held_run = mark_running 20 (lit "w") 15 waiting

abbrev events : List Event
events =
    record {
      run_id = 1;
      ts = 20;
      body = status_change (some queued) running ((lit "worker", Json.str (lit "w")) ∷ []);
    }
    ∷ record { run_id = 1; ts = 10; body = status_change none queued (trigger_payload Trigger.api) }
    ∷ []

abbrev enqueued_db : Db
enqueued_db = record {
  runs = (1, waiting) ∷ [];
  events =
      record { run_id = 1; ts = 10; body = status_change none queued (trigger_payload Trigger.api) }
      ∷ [];
  approvals = [];
  schedules = [];
}

abbrev claimed_db : Db
claimed_db = record { runs = (1, held_run) ∷ []; events = events; approvals = []; schedules = [] }

abbrev parked_run : Run
parked_run = record held_run {
  status = awaiting_approval;
  locked_by = none;
  lease_expires_at = none;
  attempts = 0;
}

abbrev parked_db : Db
parked_db = record claimed_db {
  runs = (1, parked_run) ∷ [];
  approvals = (7, new_approval 30 1 (lit "publish") null) ∷ [];
}

-- An agent that needs approval, and a call of a worker that knows it.
abbrev gated : LoadedAgent
gated = record {
  manifest = record {
    name = lit "echo";
    description = [];
    tools = [];
    executor = lit "claude-sdk";
    model = lit "default";
    max_turns = 5;
    requires_approval = true;
    schedule = none;
    params = null;
    output_dir = [];
  };
  prompt = lit "Echo.";
  path = lit "echo";
}

abbrev done : ExecOutcome
done = record {
  status = ExecStatus.completed;
  result = some (lit "fine");
  error = none;
  cost_usd = none;
  session_id = none;
  model = none;
}

abbrev silent : ExecOutcome → AgentExecutor
silent o run agent = record { emitted = []; written = []; ended = returned o }

abbrev call : Call
call = record {
  registry = (lit "echo", gated) ∷ [];
  worker_id = lit "w";
  executors = [];
  builtin = λ b. silent done;
  clock = λ k. if k == 0 then 20 else 30;
  others = λ k db. db;
  locked = λ i. false;
  approval_id = 7;
  py_str = λ j. [];
  error_repr = λ e. [];
}

claimed_once :
    claim 20 (lit "w") default_lease_minutes (λ i. false) enqueued_db
    ≡ ok (some (1, held_run), claimed_db)
unfolding claim select_oldest oldest find_run insert_event update_runs new_run find update_where
    count_where status_beq
claimed_once = refl

known : lookup (lit "echo") call.registry ≡ some gated
unfolding lookup text_beq
known = refl

unapproved : has_approved 1 claimed_db ≡ ok (false, claimed_db)
unfolding has_approved count_where
unapproved = refl

unapproved_not_executed_example :
    process_once call enqueued_db
    ≡ process_once (with_executors call [] (λ b. silent (failure (lit "broken")))) enqueued_db
unfolding new_run
unapproved_not_executed_example =
    unapproved_not_executed call [] (λ b. silent (failure (lit "broken"))) enqueued_db claimed_db 1
      held_run gated claimed_once known refl unapproved

unapproved_parked_example :
    (db' : Db) × (process_once call enqueued_db ≡ (ok true, db'))
    × (find 1 db'.runs
        ≡ some (record held_run {
          status = awaiting_approval;
          locked_by = none;
          lease_expires_at = none;
          attempts = held_run.attempts - 1;
        }))
    × (find 1 db'.approvals ≡ find 1 claimed_db.approvals)
    × (db'.events
        ≡ record {
          run_id = 1;
          ts = 30;
          body =
              status_change
                (some running)
                awaiting_approval
                (request_payload 7 (gate_action gated.manifest));
        }
          ∷ claimed_db.events)
    × (db'.schedules ≡ claimed_db.schedules)
unfolding new_run find
unapproved_parked_example =
    unapproved_parked call enqueued_db claimed_db 1 1 held_run held_run gated claimed_once known
      refl unapproved refl (refl, tt) refl refl

-- The same agent with no gate, and a reaper that requeues the run during the execution.
abbrev ungated : LoadedAgent
ungated = record gated { manifest = record gated.manifest { requires_approval = false } }

abbrev reaped_call : Call
reaped_call = record call {
  registry = (lit "echo", ungated) ∷ [];
  others = λ k db. if k == 1 then enqueued_db else db;
}

ungated_known : lookup (lit "echo") reaped_call.registry ≡ some ungated
unfolding lookup text_beq
ungated_known = refl

ungated_executor : executor_for reaped_call (lit "claude-sdk") ≡ some (silent done)
unfolding executor_for get_executor lookup text_beq
ungated_executor = refl

process_once_lost_example :
    process_once reaped_call enqueued_db ≡ (err (not_in_status 1 running), enqueued_db)
unfolding find new_run status_beq emit
process_once_lost_example =
    process_once_lost reaped_call enqueued_db claimed_db claimed_db claimed_db 1 1 1 held_run
      waiting ungated (silent done) (returned done) claimed_once ungated_known
      (inl (refl, refl, refl)) ungated_executor refl (refl, tt) refl refl
