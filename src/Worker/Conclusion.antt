-- ===== src/Worker/Conclusion.antt =====
-- How a call of the worker ends once the executor has.
use agentic_octopus.Prelude.{
  ℕ, suc, ◌≡◌, refl, Bool, true, false, some, ◌⊎◌, inl, inr, if◌then◌else◌, text_eq, ◌==◌, nat_eq,
  Text, ap, ◌∙◌,
}
use agentic_octopus.Prelude.Dict.{Dict, lookup}
use agentic_octopus.Prelude.Json.{Json}
use agentic_octopus.Status.{RunStatus, status_eq, status_beq, allowed, running}
use agentic_octopus.Table.{find, update_where, IsKeyed}
use agentic_octopus.Db.{Run, Db, ok, err, not_in_status}
use agentic_octopus.Db.Actions.{
  Action, commit, pure, between, continue, ◌>>◌, >>=-step, commit-eq-ok, commit-eq-err,
}
use agentic_octopus.Transition.Outcome.{moved, outcome, transition-eq-outcome}
use agentic_octopus.Queue.{
  default_lease_minutes, claim, Finish, finish, mark_finished, error_payload, set_tags,
}
use agentic_octopus.Executor.{ExecStatus, ExecOutcome, Ended, AgentExecutor}
use agentic_octopus.Telemetry.{merge_tags}
use agentic_octopus.Registry.{LoadedAgent}
use agentic_octopus.Approvals.{has_approved}
use agentic_octopus.Worker
use agentic_octopus.Worker.{
  Call, final_status, finish_of, with_model, as_json, conclude, auto_tags, executor_for, emit,
  execute_run, start_execution, ask_approval, pass_gate, gate, with_agent, handle, process_once,
}
use agentic_octopus.Worker.Gate.{process_once-claimed}

-- The tables after `finish` with a legal final status went through.
abbrev pub finished_db : ℕ → ℕ → RunStatus → Finish → Db → Db
finished_db now run_id status f =
    moved now run_id running status (mark_finished now f) (error_payload f.error)

-- The tables after the tags are set.
abbrev pub tagged : ℕ → Dict Text Json → Db → Db
tagged run_id tags db = record db {
  runs = update_where (λ i _. i == run_id) (λ r. record r { tags = tags }) db.runs;
}

finish-final :
    (now run_id : ℕ) (s : ExecStatus) (f : Finish) (db : Db)
    → IsKeyed db.runs
    → finish now run_id (final_status s) f db
      ≡ outcome now run_id running
          (final_status s)
          (mark_finished now f)
          (error_payload f.error)
          (find run_id db.runs)
          db
unfolding finish status_beq allowed
finish-final now run_id ExecStatus.completed f db keyed =
    transition-eq-outcome now run_id running RunStatus.completed (mark_finished now f)
      (error_payload f.error) db keyed
finish-final now run_id ExecStatus.failed f db keyed =
    transition-eq-outcome now run_id running RunStatus.failed (mark_finished now f)
      (error_payload f.error) db keyed

module _ (c : Call) (n run_id : ℕ) (tags : Dict Text Text) (o : ExecOutcome) (db : Db) where
  -- The steps after finish.
  abbrev rest : Unit {0} → Action Bool
  rest _ = do
    between (c.others (suc n))
    commit (set_tags run_id (as_json (with_model o.model tags)))
    pure true

  -- If the run is no longer running, finish raises, and what the execution gave is recorded nowhere.
  conclude_lost :
      (r : Run)
      → IsKeyed (c.others n db).runs
      → find run_id (c.others n db).runs ≡ some r
      → r.status == running ≡ false
      → conclude c n run_id tags o db ≡ (err (not_in_status run_id running), c.others n db)
  unfolding conclude outcome
  conclude_lost r keyed here was =
      ap (λ q. continue q rest)
        (commit-eq-err (finish (c.clock n) run_id (final_status o.status) (finish_of o))
          (c.others n db)
          (finish-final (c.clock n) run_id o.status (finish_of o) (c.others n db) keyed
            ∙ rw here (rw was refl)))

-- The execution of a claimed run starts at the n-th transaction on these tables: its agent needs no
-- approval, or the run has an approved row when the gate looks.
abbrev pub Starts : Call → ℕ → LoadedAgent → Db → ℕ → Db → Type 0
Starts c id agent db₁ n db₂ =
    ((agent.manifest.requires_approval ≡ false) × (n ≡ 1) × (db₂ ≡ db₁))
    ⊎ ((agent.manifest.requires_approval ≡ true)
        × (has_approved id (c.others 1 db₁) ≡ ok (true, c.others 1 db₁))
        × (n ≡ 2)
        × (db₂ ≡ c.others 1 db₁))

gate-Starts :
    (c : Call) (db₁ db₂ : Db) (id n : ℕ) (run : Run) (agent : LoadedAgent)
    → Starts c id agent db₁ n db₂
    → gate c id run agent agent.manifest.requires_approval db₁
      ≡ start_execution c n id run agent db₂
unfolding gate pass_gate
gate-Starts c db₁ db₂ id n run agent (inl (open_, first, same)) = rw (open_, first, same) refl
gate-Starts c db₁ db₂ id n run agent (inr (gated, approved, second, same)) =
    ap (λ b. gate c id run agent b db₁) gated
    ∙ >>=-step (commit (has_approved id))
        (λ granted.
          if granted
          then start_execution c 2 id run agent
          else ask_approval c id run agent.manifest)
        (c.others 1 db₁) (commit-eq-ok (has_approved id) (c.others 1 db₁) approved)
    ∙ rw (second, same) refl

start_execution-lost :
    (c : Call) (db₂ db₃ : Db) (id n k : ℕ) (run r : Run) (agent : LoadedAgent)
    (executor : AgentExecutor) (end : Ended)
    → executor_for c agent.manifest.executor ≡ some executor
    → emit c n id (executor run agent).emitted (executor run agent).ended db₂ ≡ (ok (k, end), db₃)
    → IsKeyed (c.others k db₃).runs
    → find id (c.others k db₃).runs ≡ some r
    → r.status == running ≡ false
    → start_execution c n id run agent db₂ ≡ (err (not_in_status id running), c.others k db₃)
unfolding start_execution execute_run
start_execution-lost c db₂ db₃ id n k run r agent executor end found executed keyed here lost =
    let tags = merge_tags c.py_str (auto_tags c run agent.manifest) (some run.tags) in
    ap (λ o. execute_run c n id run agent o db₂) found
    ∙ >>=-step (emit c n id (executor run agent).emitted (executor run agent).ended)
        (λ p. conclude c p.0 id tags (Worker.outcome p.1)) db₂ executed
    ∙ conclude_lost c k id tags (Worker.outcome end) db₃ r keyed here lost

-- If the claimed run has been executed and is no longer running when it is to be finished, as when
-- its lease ran out and the reaper took it, then process_once itself raises IllegalTransition, and
-- leaves the tables as the other processes did: the executor's outcome is recorded nowhere.
pub process_once_lost :
    (c : Call) (db db₁ db₂ db₃ : Db) (id n k : ℕ) (run r : Run) (agent : LoadedAgent)
    (executor : AgentExecutor) (end : Ended)
    → claim (c.clock 0) c.worker_id default_lease_minutes c.locked db ≡ ok (some (id, run), db₁)
    → lookup run.agent c.registry ≡ some agent
    → Starts c id agent db₁ n db₂
    → executor_for c agent.manifest.executor ≡ some executor
    → emit c n id (executor run agent).emitted (executor run agent).ended db₂ ≡ (ok (k, end), db₃)
    → IsKeyed (c.others k db₃).runs
    → find id (c.others k db₃).runs ≡ some r
    → r.status == running ≡ false
    → process_once c db ≡ (err (not_in_status id running), c.others k db₃)
unfolding handle with_agent
process_once_lost c db db₁ db₂ db₃ id n k run r agent executor end claimed known starts found
      executed keyed here lost =
    process_once-claimed c db claimed
    ∙ ap (λ o. with_agent c id run o db₁) known
    ∙ gate-Starts c db₁ db₂ id n run agent starts
    ∙ start_execution-lost c db₂ db₃ id n k run r agent executor end found executed keyed here lost
