-- ===== src/Scheduler.antt =====
-- src/octo/worker/scheduler.py: the cron scheduler over the schedules table.
-- croniter and zoneinfo are not the program's: `get_next expr timezone t` is the first fire time
-- after `t`, and `none` is an exception of theirs.
pub mod Outcome
pub mod Firing
pub mod Again
use agentic_octopus.Prelude.{
  ℕ, ◌+◌, Bool, true, false, not, ◌&&◌, ◌||◌, Option, none, some, List, [], ◌∷◌, ◌++◌, ◌==◌, nat_eq,
  Text, text_eq, lit, ltb, leb, is_some, if◌then◌else◌,
}
use agentic_octopus.Prelude.Dict.{Dict}
use agentic_octopus.Prelude.Json.{Json}
use agentic_octopus.Status.{queued}
use agentic_octopus.Table.{Table, find, append, update_where, count_where}
use agentic_octopus.Db.{
  Trigger, Schedule, EventBody, Db, Tx, pure, raise, gets, ok, err, ◌>>=◌, ◌>>◌, value_error,
  unique_violation, insert_run, insert_event,
}
use agentic_octopus.Db.EventBody.{status_change}
use agentic_octopus.Queue.{new_run, trigger_payload}
use agentic_octopus.Registry.{AgentManifest, LoadedAgent}

-- `enabled AND next_run_at <= now()`, and the row is not locked
abbrev pub is_due : ℕ → (ℕ → Bool) → ℕ → Schedule → Bool
is_due now locked i s = s.enabled && (leb s.next_run_at now && not (locked i))

-- SELECT * FROM schedules WHERE …
unfoldable pub rows_where : (ℕ → Schedule → Bool) → Table Schedule → List (ℕ × Schedule)
rows_where p [] = []
rows_where p ((j, s) ∷ t) = let rest = rows_where p t in if p j s then (j, s) ∷ rest else rest

-- UPDATE schedules SET … WHERE …
unfoldable pub update_schedules : (ℕ → Schedule → Bool) → (Schedule → Schedule) → Tx Unit
update_schedules p f db = ok (tt, record db { schedules = update_where p f db.schedules })

abbrev pub mark_fired : ℕ → ℕ → ℕ → Schedule → Schedule
mark_fired now next run_id s = record s {
  next_run_at = next;
  last_run_at = some now;
  last_run_id = some run_id;
}

-- `if not expr: continue`
abbrev pub truthy : Option Text → Option Text
truthy none = none
truthy (some []) = none
truthy (some (c ∷ e)) = some (c ∷ e)

module _ (get_next : Text → Text → ℕ → Option ℕ) where
  -- `wall` is the clock of the process.
  unfoldable pub compute_next : ℕ → Text → Text → Tx ℕ
  compute_next wall cron_expr timezone = elim (get_next cron_expr timezone wall) [
    | none ↦ raise (value_error cron_expr)
    | some t ↦ pure t
  ]

  -- The body of the loop of tick for one schedule; `run_id` is the id that the INSERT draws.
  unfoldable pub fire : ℕ → ℕ → ℕ → ℕ → Schedule → Tx Unit
  fire now wall run_id sid s = do
    insert_run run_id (new_run now s.agent Trigger.schedule s.params (some sid) 1 [])
    insert_event now run_id (status_change none queued (trigger_payload Trigger.schedule))
    next ← compute_next wall s.cron_expr s.timezone
    update_schedules (λ i _. i == sid) (mark_fired now next run_id)

  -- `draw n` is the id of the n-th run that this transaction inserts.
  unfoldable pub fire_each : ℕ → ℕ → (ℕ → ℕ) → ℕ → List (ℕ × Schedule) → Tx ℕ
  fire_each now wall draw fired [] = pure fired
  fire_each now wall draw fired ((sid, s) ∷ due) = do
    fire now wall (draw fired) sid s
    fire_each now wall draw (fired + 1) due

  unfoldable pub tick : ℕ → ℕ → (ℕ → ℕ) → (ℕ → Bool) → Tx ℕ
  tick now wall draw locked = do
    due ← gets (λ db. rows_where (is_due now locked) db.schedules)
    fire_each now wall draw 0 due

  abbrev pub default_schedule : Text → Text → Json → ℕ → Schedule
  default_schedule agent expr params next = record {
    agent = agent;
    cron_expr = expr;
    timezone = lit "UTC";
    params = params;
    enabled = true;
    next_run_at = next;
    last_run_at = none;
    last_run_id = none;
  }

  abbrev pub same_schedule : Text → Text → ℕ → Schedule → Bool
  same_schedule agent expr i s = s.agent == agent && s.cron_expr == expr

  -- INSERT … ON CONFLICT (agent, cron_expr) DO NOTHING, with its row count
  unfoldable pub insert_default : ℕ → Text → Text → Json → ℕ → Tx ℕ
  insert_default new_id agent expr params next db =
      if not (count_where (same_schedule agent expr) db.schedules == 0)
      then ok (0, db)
      else if is_some (find new_id db.schedules)
      then err unique_violation
      else ok (
        1,
        record db {
          schedules = append new_id (default_schedule agent expr params next) db.schedules;
        },
      )

  unfoldable pub sync_entry : ℕ → ℕ → Text → LoadedAgent → Option Text → Tx (List (Text × Text))
  sync_entry wall new_id name agent none = pure []
  sync_entry wall new_id name agent (some expr) = do
    next ← compute_next wall expr (lit "UTC")
    n ← insert_default new_id name expr agent.manifest.params next
    pure (if n == 0 then [] else (name, expr) ∷ [])

  -- The agents and expressions whose schedules were created.
  unfoldable pub sync_each : ℕ → (ℕ → ℕ) → ℕ → Dict Text LoadedAgent → Tx (List (Text × Text))
  unfolding sync_entry
  sync_each wall draw n [] = pure []
  sync_each wall draw n ((name, agent) ∷ rest) = do
    here ← sync_entry wall (draw n) name agent (truthy agent.manifest.schedule)
    more ← sync_each wall draw (n + 1) rest
    pure (here ++ more)

  unfoldable pub sync_from_registry : ℕ → (ℕ → ℕ) → Dict Text LoadedAgent → Tx (List (Text × Text))
  unfolding sync_each
  sync_from_registry wall draw registry = sync_each wall draw 0 registry
