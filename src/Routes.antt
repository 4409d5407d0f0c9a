-- ===== src/Routes.antt =====
-- src/octo/api/routes.py: the administration routes, behind the token check of auth.py.
-- A route answers, and leaves the tables; the pool is `none` where the database could not be reached.
-- `now` and `wall` are the clocks of the database and of the process, `draw` the ids that the database
-- draws, `get_next` and `cron_valid` are croniter's. The details of the errors are left out.
pub mod Writes
pub mod Refines
use agentic_octopus.Prelude.{
  ℕ, min, Bool, true, false, not, ◌&&◌, Option, none, some, List, [], ◌∷◌, ◌==◌, nat_eq, Text,
  text_eq, lit, text_lt, is_some, if◌then◌else◌,
}
use agentic_octopus.Prelude.Dict.{Dict, lookup}
use agentic_octopus.Prelude.Json.{Json}
use agentic_octopus.Config.{Settings}
use agentic_octopus.Registry.{LoadedAgent}
use agentic_octopus.Table.{Table, find, append, update_where}
use agentic_octopus.Db.{
  Trigger, Run, Event, Schedule, Db, Error, illegal_pair, not_in_status, no_pending_approval,
  unique_violation, Tx, pure, raise, gets, ok, err, ◌>>=◌, ◌>>◌,
}
use agentic_octopus.Queue.{enqueue}
use agentic_octopus.Queue.Reads.{list_events}
use agentic_octopus.Queue.Reads
use agentic_octopus.Approvals.{decide}
use agentic_octopus.Scheduler.{compute_next, sync_from_registry, rows_where}
use agentic_octopus.Auth.{granted, unauthorized, Access, require_token}

pub data Request : Type 0 where
  list_agents : Request
  run_agent : Text → Json → Dict Text Json → Request
  list_runs : Option Text → Option Text → ℕ → Request
  get_run : ℕ → Request
  get_run_events : ℕ → Request
  approve_run reject_run : ℕ → Option Text → Request
  list_schedules : Request
  create_schedule : Text → Text → Text → Json → Request
  sync_schedules : Request
  toggle_schedule : ℕ → Request

-- The bodies of the answers, and an error with its status.
pub data Answer : Type 0 where
  agents : List LoadedAgent → Answer
  enqueued : ℕ → Answer
  runs : List (ℕ × Run) → Answer
  run : Run → Answer
  events : List Event → Answer
  decided : ℕ → Bool → Answer
  schedules : List (ℕ × Schedule) → Answer
  schedule_id : ℕ → Answer
  created : List (Text × Text) → Answer
  toggled : ℕ → Bool → Answer
  http_error : ℕ → Answer

unfoldable pub status_code : Answer → ℕ
status_code (enqueued id) = 202
status_code (schedule_id id) = 201
status_code (http_error n) = n
status_code _ = 200

abbrev pub values : Dict Text LoadedAgent → List LoadedAgent
values [] = []
values ((name, agent) ∷ d) = agent ∷ values d

-- The handlers of _decide; any other exception is a 500.
unfoldable pub error_status : Error → ℕ
error_status (no_pending_approval id) = 404
error_status (illegal_pair from to) = 409
error_status (not_in_status id from) = 409
error_status _ = 500

-- The transaction of a route on the pool.
unfoldable pub on_pool : {A : Type 0} → Tx A → (A → Answer) → Option Db → Answer × Option Db
unfolding error_status
on_pool tx answer none = (http_error 503, none)
on_pool tx answer (some db) = elim (tx db) [
  | ok (a, db') ↦ (answer a, some db')
  | err e ↦ (http_error (error_status e), some db)
]

or_not_found : {A : Type 0} → (A → Answer) → Option A → Answer
or_not_found f none = http_error 404
or_not_found f (some a) = f a

-- ORDER BY agent, cron_expr
before : Schedule → Schedule → Bool
before s t = if s.agent == t.agent then text_lt s.cron_expr t.cron_expr else text_lt s.agent t.agent

place : ℕ × Schedule → List (ℕ × Schedule) → List (ℕ × Schedule)
unfolding before
place e [] = e ∷ []
place e (d ∷ l) = let rest = place e l in if before d.1 e.1 then d ∷ rest else e ∷ d ∷ l

unfoldable pub sorted : Table Schedule → List (ℕ × Schedule)
unfolding place
sorted [] = []
sorted (e ∷ t) = place e (sorted t)

abbrev pub same_row : Text → Text → ℕ → Schedule → Bool
same_row agent expr i s = s.agent == agent && s.cron_expr == expr

-- INSERT … ON CONFLICT (agent, cron_expr) DO UPDATE SET enabled = true RETURNING id
unfoldable pub upsert_schedule : ℕ → Schedule → Tx ℕ
upsert_schedule new_id s db = elim (rows_where (same_row s.agent s.cron_expr) db.schedules) [
  | [] ↦
      if is_some (find new_id db.schedules)
      then err unique_violation
      else ok (new_id, record db { schedules = append new_id s db.schedules })
  | (j, t) ∷ rest ↦ ok (
    j,
    record db {
      schedules =
          update_where (same_row s.agent s.cron_expr) (λ r. record r { enabled = true })
            db.schedules;
    },
  )
]

enabled_of : Option Schedule → Option Bool
enabled_of none = none
enabled_of (some s) = some s.enabled

-- UPDATE schedules SET enabled = NOT enabled WHERE id = … RETURNING enabled
unfoldable pub toggle : ℕ → Tx (Option Bool)
unfolding enabled_of
toggle id db =
    let schedules =
      update_where (λ i s. i == id) (λ s. record s { enabled = not s.enabled }) db.schedules in
    ok (enabled_of (find id schedules), record db { schedules = schedules })

module _ (settings : Settings) (registry : Dict Text LoadedAgent)
    (get_next : Text → Text → ℕ → Option ℕ) (cron_valid : Text → Bool) (now wall : ℕ)
    (draw : ℕ → ℕ) where
  unfoldable pub insert_schedule : Text → Text → Text → Json → Tx ℕ
  insert_schedule agent cron_expr timezone params = do
    next ← compute_next get_next wall cron_expr timezone
    upsert_schedule (draw 0) (record {
      agent = agent;
      cron_expr = cron_expr;
      timezone = timezone;
      params = params;
      enabled = true;
      next_run_at = next;
      last_run_at = none;
      last_run_id = none;
    })

  unfoldable pub handle : Request → Option Db → Answer × Option Db
  unfolding or_not_found insert_schedule
  handle list_agents pool = (agents (values registry), pool)
  handle (run_agent name params tags) pool =
      if is_some (lookup name registry)
      then on_pool (enqueue now (draw 0) name Trigger.api params none 1 tags) enqueued pool
      else (http_error 404, pool)
  handle (list_runs status agent limit) pool =
      on_pool (Reads.list_runs status agent (min limit 500)) runs pool
  handle (get_run id) pool = on_pool (Reads.get_run id) (or_not_found run) pool
  handle (get_run_events id) pool = on_pool (list_events id) events pool
  handle (approve_run id memo) pool =
      on_pool (decide now id true (lit "api") memo) (λ u. decided id true) pool
  handle (reject_run id memo) pool =
      on_pool (decide now id false (lit "api") memo) (λ u. decided id false) pool
  handle list_schedules pool = on_pool (gets (λ db. sorted db.schedules)) schedules pool
  handle (create_schedule agent cron_expr timezone params) pool =
      if not (is_some (lookup agent registry))
      then (http_error 404, pool)
      else if not (cron_valid cron_expr)
      then (http_error 422, pool)
      else on_pool (insert_schedule agent cron_expr timezone params) schedule_id pool
  handle sync_schedules pool = on_pool (sync_from_registry get_next wall draw registry) created pool
  handle (toggle_schedule id) pool = on_pool (toggle id) (or_not_found (toggled id)) pool

  -- Every route depends on require_token.
  unfoldable pub serve : Option Text → Request → Option Db → Answer × Option Db
  serve token request pool = elim (require_token settings token) [
    | granted ↦ handle request pool
    | unauthorized ↦ (http_error 401, pool)
  ]
