-- ===== src/Worker.antt =====
-- src/octo/worker/main.py: process_once.
-- A call makes several transactions, the k-th at the time `clock k`; before it other processes (the
-- heartbeat of this one included) commit what `others k` does. mkdir and logging are not modelled.
pub mod Gate
pub mod Conclusion
use agentic_octopus.Prelude.{
  ℕ, suc, Bool, true, false, ◌&&◌, Option, none, some, List, [], ◌∷◌, ◌++◌, ◌==◌, Text, text_eq,
  lit, if◌then◌else◌,
}
use agentic_octopus.Prelude.Dict.{Dict, lookup, insert}
use agentic_octopus.Prelude.Json.{Json, str, obj, field, end}
use agentic_octopus.Status.{RunStatus}
use agentic_octopus.Db.{Trigger, Run, Db, Error, Result, ok, err, value_error}
use agentic_octopus.Db.Actions.{Action, commit, pure, raise, between, ◌>>=◌, ◌>>◌}
use agentic_octopus.Registry.{AgentManifest, LoadedAgent}
use agentic_octopus.Telemetry.{merge_tags}
use agentic_octopus.Queue.{
  trigger_text, default_lease_minutes, claim, Finish, finish, record_event, set_tags,
}
use agentic_octopus.Approvals.{has_approved, request}
use agentic_octopus.Executor.{
  ExecStatus, ExecOutcome, failure, Ended, returned, raised, Execution, AgentExecutor, Builtin,
  get_executor,
}

-- The arguments of a call and what surrounds it.
pub record Call : Type 0 where
  pub registry : Dict Text LoadedAgent
  pub worker_id : Text
  pub executors : Dict Text AgentExecutor
  pub builtin : Builtin → AgentExecutor
  pub clock : ℕ → ℕ
  pub others : ℕ → Db → Db
  pub locked : ℕ → Bool
  pub approval_id : ℕ
  pub py_str : Json → Text
  pub error_repr : Error → Text

-- `dict` of strings as JSON
unfoldable pub as_json : Dict Text Text → Dict Text Json
as_json [] = []
as_json ((k, v) ∷ d) = (k, str v) ∷ as_json d

-- `(executors or {}).get(name) or get_executor(name)`
from_builtin : (Builtin → AgentExecutor) → Option Builtin → Option AgentExecutor
from_builtin f none = none
from_builtin f (some b) = some (f b)

or_builtin : Option AgentExecutor → Option AgentExecutor → Option AgentExecutor
or_builtin none b = b
or_builtin (some e) b = some e

unfoldable pub executor_for : Call → Text → Option AgentExecutor
unfolding from_builtin or_builtin
executor_for c name =
    or_builtin (lookup name c.executors) (from_builtin c.builtin (get_executor name))

-- An exception of the executor becomes a failed outcome.
abbrev pub outcome : Ended → ExecOutcome
outcome (returned o) = o
outcome (raised r) = failure r

abbrev pub final_status : ExecStatus → RunStatus
final_status ExecStatus.completed = RunStatus.completed
final_status ExecStatus.failed = RunStatus.failed

abbrev pub finish_of : ExecOutcome → Finish
finish_of o = record {
  result = o.result;
  error = o.error;
  cost_usd = o.cost_usd;
  session_id = o.session_id;
}

abbrev pub no_agent : Text → Finish
no_agent agent = record {
  result = none;
  error = some (lit "unknown agent '" ++ agent ++ lit "'");
  cost_usd = none;
  session_id = none;
}

-- `if outcome.model: tags["model"] = outcome.model`
abbrev pub with_model : Option Text → Dict Text Text → Dict Text Text
with_model none tags = tags
with_model (some []) tags = tags
with_model (some (ch ∷ m)) tags = insert (lit "model") (ch ∷ m) tags

abbrev pub gate_action : AgentManifest → Text
gate_action m = lit "execute agent '" ++ m.name ++ lit "'"

abbrev pub gate_payload : Run → Json
gate_payload run = obj (field (lit "params") run.params end)

module _ (c : Call) where
  unfoldable pub auto_tags : Run → AgentManifest → Dict Text Json
  auto_tags run m =
      (lit "surface", str (lit "worker"))
      ∷ (lit "agent", str m.name)
      ∷ (lit "executor", str m.executor)
      ∷ (lit "trigger", str (trigger_text run.trigger))
      ∷ []

  -- `on_event` for each event, from the n-th transaction on; one that raises ends the execution.
  emit_result : ℕ → Ended → Result Unit → Action (ℕ × Ended) → Action (ℕ × Ended)
  emit_result n ended (ok _) rest = rest
  emit_result n ended (err e) rest = pure (suc n, raised (c.error_repr e))

  unfoldable pub emit : ℕ → ℕ → List (Text × Json) → Ended → Action (ℕ × Ended)
  unfolding emit_result
  emit n run_id [] ended db = pure (n, ended) db
  emit n run_id ((kind, payload) ∷ l) ended db =
      let (r, db') = commit (record_event (c.clock n) run_id kind payload) (c.others n db) in
      emit_result n ended r (emit (suc n) run_id l ended) db'

  -- Both writes that follow the execution.
  unfoldable pub conclude : ℕ → ℕ → Dict Text Text → ExecOutcome → Action Bool
  conclude n run_id tags o = do
    between (c.others n)
    commit (finish (c.clock n) run_id (final_status o.status) (finish_of o))
    between (c.others (suc n))
    commit (set_tags run_id (as_json (with_model o.model tags)))
    pure true

  unfoldable pub execute_run : ℕ → ℕ → Run → LoadedAgent → Option AgentExecutor → Action Bool
  execute_run n run_id run agent none = raise (value_error agent.manifest.executor)
  execute_run n run_id run agent (some executor) = do
    let x = executor run agent
    (n', ended) ← emit n run_id x.emitted x.ended
    conclude n' run_id (merge_tags c.py_str (auto_tags run agent.manifest) (some run.tags))
        (outcome ended)

  unfoldable pub start_execution : ℕ → ℕ → Run → LoadedAgent → Action Bool
  unfolding execute_run
  start_execution n run_id run agent =
      execute_run n run_id run agent (executor_for c agent.manifest.executor)

  unfoldable pub ask_approval : ℕ → Run → AgentManifest → Action Bool
  ask_approval run_id run m = do
    between (c.others 2)
    commit (request (c.clock 2) c.approval_id run_id (gate_action m) (gate_payload run))
    pure true

  -- The consent gate: an agent that needs approval runs only once a decision has approved it.
  unfoldable pub pass_gate : ℕ → Run → LoadedAgent → Action Bool
  pass_gate run_id run agent = do
    between (c.others 1)
    approved ← commit (has_approved run_id)
    if approved then start_execution 2 run_id run agent else ask_approval run_id run agent.manifest

  unfoldable pub gate : ℕ → Run → LoadedAgent → Bool → Action Bool
  gate run_id run agent required =
      if required then pass_gate run_id run agent else start_execution 1 run_id run agent

  unfoldable pub with_agent : ℕ → Run → Option LoadedAgent → Action Bool
  unfolding gate
  with_agent run_id run none = do
    between (c.others 1)
    commit (finish (c.clock 1) run_id RunStatus.failed (no_agent run.agent))
    pure true
  with_agent run_id run (some agent) = gate run_id run agent agent.manifest.requires_approval

  unfoldable pub handle : Option (ℕ × Run) → Action Bool
  unfolding with_agent
  handle none = pure false
  handle (some (run_id, run)) = with_agent run_id run (lookup run.agent c.registry)

  -- Returns false if the queue was empty.
  unfoldable pub process_once : Action Bool
  process_once = do
    run ← commit (claim (c.clock 0) c.worker_id default_lease_minutes c.locked)
    handle run
