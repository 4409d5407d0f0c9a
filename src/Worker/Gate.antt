-- ===== src/Worker/Gate.antt =====
-- The consent gate of the worker.
use agentic_octopus.Prelude.{
  ℕ, [], ◌∷◌, ◌-◌, ◌≡◌, true, false, Option, none, some, ◌++◌, Text, text_eq, nat_eq, ◌==◌, lit,
  if◌then◌else◌, ap, sym, ◌∙◌, refl,
}
use agentic_octopus.Prelude.Dict.{Dict, lookup}
use agentic_octopus.Prelude.Json.{num, str, obj, field, end}
use agentic_octopus.Status.{running, awaiting_approval}
use agentic_octopus.Table.{find, IsKeyed}
use agentic_octopus.Table.Laws.{find-append}
use agentic_octopus.Db.{Run, ApprovalStatus, Db, ok}
use agentic_octopus.Db.EventBody.{status_change}
use agentic_octopus.Db.Actions.{commit, pure, commit-eq-ok, >>=-step}
use agentic_octopus.Transition.Outcome.{moved, find-moved}
use agentic_octopus.Registry.{LoadedAgent}
use agentic_octopus.Queue.{default_lease_minutes, claim, mark_parked}
use agentic_octopus.Approvals.{has_approved, request, request_payload, new_approval}
use agentic_octopus.Approvals.Outcome.{request-parked}
use agentic_octopus.Executor.{AgentExecutor, Builtin}
use agentic_octopus.Worker.{
  gate_action, gate_payload, Call, start_execution, ask_approval, gate, pass_gate, with_agent,
  handle, process_once,
}

-- Two calls that differ in their executors alone.
abbrev pub with_executors : Call → Dict Text AgentExecutor → (Builtin → AgentExecutor) → Call
with_executors c e b = record c { executors = e; builtin = b }

-- What the call does once the run is claimed.
pub process_once-claimed :
    (c : Call) (db : Db) {db₁ : Db} {o : Option (ℕ × Run)}
    → claim (c.clock 0) c.worker_id default_lease_minutes c.locked db ≡ ok (o, db₁)
    → process_once c db ≡ handle c o db₁
unfolding process_once
process_once-claimed c db e =
    >>=-step (commit (claim (c.clock 0) c.worker_id default_lease_minutes c.locked)) (handle c) db
      (commit-eq-ok (claim (c.clock 0) c.worker_id default_lease_minutes c.locked) db e)

-- An unapproved run of a gated agent goes to the approval request.
pub handle-unapproved :
    (c : Call) (db₁ : Db) (id : ℕ) (run : Run) (agent : LoadedAgent)
    → lookup run.agent c.registry ≡ some agent
    → agent.manifest.requires_approval ≡ true
    → has_approved id (c.others 1 db₁) ≡ ok (false, c.others 1 db₁)
    → handle c (some (id, run)) db₁ ≡ ask_approval c id run agent.manifest (c.others 1 db₁)
unfolding handle pass_gate
handle-unapproved c db₁ id run agent known gated unapproved =
    ap (λ o. with_agent c id run o db₁) known
    ∙ ap (λ b. gate c id run agent b db₁) gated
    ∙ >>=-step (commit (has_approved id))
        (λ approved.
          if approved
          then start_execution c 2 id run agent
          else ask_approval c id run agent.manifest)
        (c.others 1 db₁) (commit-eq-ok (has_approved id) (c.others 1 db₁) unapproved)

-- If the claimed run's agent needs approval and the run has no approved row when the gate looks, the
-- executors have no part in what the call does: it ends as with any others.
pub unapproved_not_executed :
    (c : Call) (e : Dict Text AgentExecutor) (b : Builtin → AgentExecutor) (db db₁ : Db) (id : ℕ)
    (run : Run) (agent : LoadedAgent)
    → claim (c.clock 0) c.worker_id default_lease_minutes c.locked db ≡ ok (some (id, run), db₁)
    → lookup run.agent c.registry ≡ some agent
    → agent.manifest.requires_approval ≡ true
    → has_approved id (c.others 1 db₁) ≡ ok (false, c.others 1 db₁)
    → process_once c db ≡ process_once (with_executors c e b) db
unfolding ask_approval process_once
unapproved_not_executed c e b db db₁ id run agent claimed known gated unapproved =
    process_once-claimed c db claimed
    ∙ handle-unapproved c db₁ id run agent known gated unapproved
    ∙ sym (
        process_once-claimed (with_executors c e b) db claimed
        ∙ handle-unapproved (with_executors c e b) db₁ id run agent known gated unapproved)

-- A gated run that nobody has approved when the gate looks, and that is still running when the
-- approval is asked for, is parked, whatever the executors: the call returns; the run awaits approval
-- with no holder, no lease and the attempt given back; a pending approval of it stands under the new
-- id; one status change is recorded; and all else is as the other processes left it.
pub unapproved_parked :
    (c : Call) (db db₁ : Db) (id j : ℕ) (run r : Run) (agent : LoadedAgent)
    → claim (c.clock 0) c.worker_id default_lease_minutes c.locked db ≡ ok (some (id, run), db₁)
    → lookup run.agent c.registry ≡ some agent
    → agent.manifest.requires_approval ≡ true
    → has_approved id (c.others 1 db₁) ≡ ok (false, c.others 1 db₁)
    → find c.approval_id (c.others 2 (c.others 1 db₁)).approvals ≡ none
    → IsKeyed (c.others 2 (c.others 1 db₁)).runs
    → find id (c.others 2 (c.others 1 db₁)).runs ≡ some r
    → r.status ≡ running
    → (db' : Db) × (process_once c db ≡ (ok true, db'))
      × (find j db'.runs ≡ (
          if j == id
          then some (record r {
            status = awaiting_approval;
            locked_by = none;
            lease_expires_at = none;
            attempts = r.attempts - 1;
          })
          else find j (c.others 2 (c.others 1 db₁)).runs))
      × (find j db'.approvals ≡ (
          if j == c.approval_id
          then some (record {
            run_id = id;
            action = lit "execute agent '" ++ agent.manifest.name ++ lit "'";
            payload = obj (field (lit "params") run.params end);
            status = ApprovalStatus.pending;
            requested_at = c.clock 2;
            decided_at = none;
            decided_via = none;
            note = none;
          })
          else find j (c.others 2 (c.others 1 db₁)).approvals))
      × (db'.events
          ≡ record {
            run_id = id;
            ts = c.clock 2;
            body = status_change (some running) awaiting_approval (
                (lit "approval_id", num c.approval_id)
                ∷ (lit "action", str (lit "execute agent '" ++ agent.manifest.name ++ lit "'"))
                ∷ []);
          }
            ∷ (c.others 2 (c.others 1 db₁)).events)
      × (db'.schedules ≡ (c.others 2 (c.others 1 db₁)).schedules)
unfolding ask_approval moved
unapproved_parked c db db₁ id j run r agent claimed known gated unapproved fresh keyed here was =
    let db₂ = c.others 2 (c.others 1 db₁) in
    let action = gate_action agent.manifest in
    let asked =
      request-parked (c.clock 2) c.approval_id id action (gate_payload run) db₂ r fresh keyed here
        was in
    (
      _,
      process_once-claimed c db claimed
          ∙ handle-unapproved c db₁ id run agent known gated unapproved
          ∙ >>=-step (commit (request (c.clock 2) c.approval_id id action (gate_payload run)))
              (λ _. pure true) db₂
              (commit-eq-ok (request (c.clock 2) c.approval_id id action (gate_payload run)) db₂
                asked),
      find-moved (c.clock 2) id running awaiting_approval mark_parked
          (request_payload c.approval_id action) j db₂ r here was,
      find-append c.approval_id j (new_approval (c.clock 2) id action (gate_payload run))
          db₂.approvals fresh,
      refl,
      refl,
    )
