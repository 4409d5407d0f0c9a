-- ===== src/Routes/Refines.antt =====
-- src/octo/api/routes.py over the spine: what a route may do to the tables.
use agentic_octopus.Prelude.{
  ℕ, ◌≡◌, ◌<◌, ◌⊎◌, inl, inr, refl, ap, Bool, true, false, not, Option, none, some, arith, Text,
  text_eq, lit, is_some, Bool-cases, Option-cases, ◌==◌, nat_eq,
}
use agentic_octopus.Prelude.Dict.{Dict, lookup}
use agentic_octopus.Prelude.Json.{Json}
use agentic_octopus.Config.{Settings}
use agentic_octopus.Registry.{LoadedAgent}
use agentic_octopus.Table.{find}
use agentic_octopus.Table.Laws.{update_where-only_absent, find-update_where}
use agentic_octopus.Db.{Trigger, find_run, Db, Tx, Result, ok, err}
use agentic_octopus.Queue.{enqueue}
use agentic_octopus.Queue.Reads
use agentic_octopus.Approvals.{decide}
use agentic_octopus.Scheduler.{sync_from_registry}
use agentic_octopus.Auth.{granted, unauthorized, Access, require_token}
use agentic_octopus.Audit.Reach.{Step, enqueues, decides, schedules_written}
use agentic_octopus.Audit.Written.{toggled}
use agentic_octopus.Routes.Writes.{
  WritesSchedules, sync-WritesSchedules, insert_schedule-WritesSchedules,
}
use agentic_octopus.Routes
use agentic_octopus.Routes.{
  Request, Answer, status_code, error_status, on_pool, or_not_found, sorted, upsert_schedule,
  toggle, insert_schedule, handle, serve,
}

module _ (get_next : Text → Text → ℕ → Option ℕ) where
  -- The answer leaves the tables as they were, or it is no error and they are a step of the spine on.
  abbrev pub Outcome : Db → Answer × Option Db → Type 0
  Outcome db out =
      (db' : Db) × (out.1 ≡ some db')
      × ((db' ≡ db) ⊎ (Step get_next db db' × (status_code out.0 < 400)))

  unchanged : (a : Answer) (db : Db) → Outcome db (a, some db)
  unchanged a db = (db, refl, inl refl)

  on_pool-Outcome :
      {A : Type 0} (tx : Tx A) (f : A → Answer) (db : Db)
      → ((a : A) (db' : Db)
          → tx db ≡ ok (a, db')
          → (db' ≡ db) ⊎ (Step get_next db db' × (status_code (f a) < 400)))
      → Outcome db (on_pool tx f (some db))
  unfolding on_pool
  on_pool-Outcome tx f db h = from (tx db) refl
    where
      from :
          (r : Result (_ × Db))
          → tx db ≡ r
          → Outcome db (elim r [
            | ok (a, db') ↦ (f a, some db')
            | err e ↦ (Routes.http_error (error_status e), some db)
          ])
      from (ok (a, db')) e = (db', refl, h a db' e)
      from (err x) e = (db, refl, inl refl)

  enqueued-id :
      (now id : ℕ) (agent : Text) (trigger : Trigger) (params : Json) (sid : Option ℕ) (max : ℕ)
      (tags : Dict Text Json) (db db' : Db) (a : ℕ)
      → enqueue now id agent trigger params sid max tags db ≡ ok (a, db')
      → a ≡ id
  unfolding enqueue
  enqueued-id now id agent trigger params sid max tags db db' a e = ground arith

  writes : (db db' : Db) → WritesSchedules get_next db db' → Step get_next db db'
  writes db db' (same, w) = schedules_written db'.schedules w same

  toggle-Outcome :
      (id : ℕ) (db : Db)
      → Outcome db (on_pool (toggle id) (or_not_found (Routes.toggled id)) (some db))
  unfolding on_pool toggle or_not_found status_code
  toggle-Outcome id db = elim (Option-cases (find id db.schedules)) [
    | inl absent ↦ (
      db,
      ap (λ t. some (record db { schedules = t }))
          (update_where-only_absent _ id db.schedules absent),
      inl refl,
    )
    | inr (s, there) ↦ (
      _,
      refl,
      inr (
        schedules_written _ (toggled id) refl,
        rw
            (
              find-update_where (λ i r. i == id) (λ r. record r { enabled = not r.enabled }) id
                  db.schedules,
              there,
            )
            (ground arith),
      ),
    )
  ]

  module _ (settings : Settings) (registry : Dict Text LoadedAgent) (cron_valid : Text → Bool)
      (now wall : ℕ) (draw : ℕ → ℕ) (db : Db) where
    run_agent-Outcome :
        (name : Text) (params : Json) (tags : Dict Text Json)
        → Outcome db (
            on_pool
              (enqueue now (draw 0) name Trigger.api params none 1 tags)
              Routes.enqueued
              (some db))
    unfolding status_code
    run_agent-Outcome name params tags =
        on_pool-Outcome (enqueue now (draw 0) name Trigger.api params none 1 tags) Routes.enqueued
          db
          (λ a db' e.
            let same = enqueued-id now (draw 0) name Trigger.api params none 1 tags db db' a e in
            inr (
              enqueues now (draw 0) name Trigger.api params none 1 tags (omega arith)
                  (ground (arith, same, e)),
              omega arith,
            ))

    decide-Outcome :
        (id : ℕ) (approved : Bool) (memo : Option Text)
        → Outcome db (
            on_pool
              (decide now id approved (lit "api") memo)
              (λ u. Routes.decided id approved)
              (some db))
    unfolding status_code
    decide-Outcome id approved memo =
        on_pool-Outcome (decide now id approved (lit "api") memo) (λ u. Routes.decided id approved)
          db (λ a db' e. inr (decides now id approved (lit "api") memo e, omega arith))

    handle-Outcome :
        (request : Request)
        → Outcome db (handle settings registry get_next cron_valid now wall draw request (some db))
    unfolding handle status_code Reads.list_runs Reads.get_run Reads.list_events find_run
    handle-Outcome Routes.list_agents = unchanged (Routes.agents (Routes.values registry)) db
    handle-Outcome (Routes.run_agent name params tags) =
        elim (Bool-cases (is_some (lookup name registry))) [
          | inl known ↦ rw known (run_agent-Outcome name params tags)
          | inr unknown ↦ rw unknown (unchanged (Routes.http_error 404) db)
        ]
    handle-Outcome (Routes.list_runs status agent limit) =
        on_pool-Outcome _ _ db (λ a db' e. inl (ground arith))
    handle-Outcome (Routes.get_run id) =
        on_pool-Outcome (Reads.get_run id) (or_not_found Routes.run) db
          (λ a db' e. inl (ground arith))
    handle-Outcome (Routes.get_run_events id) =
        on_pool-Outcome _ _ db (λ a db' e. inl (ground arith))
    handle-Outcome (Routes.approve_run id memo) = decide-Outcome id true memo
    handle-Outcome (Routes.reject_run id memo) = decide-Outcome id false memo
    handle-Outcome Routes.list_schedules = on_pool-Outcome _ _ db (λ a db' e. inl (ground arith))
    handle-Outcome (Routes.create_schedule agent cron_expr timezone params) =
        elim (Bool-cases (is_some (lookup agent registry))) [
          | inr unknown ↦ rw unknown (unchanged (Routes.http_error 404) db)
          | inl known ↦ elim (Bool-cases (cron_valid cron_expr)) [
            | inr invalid ↦ rw (known, invalid) (unchanged (Routes.http_error 422) db)
            | inl valid ↦
                rw (known, valid)
                  (on_pool-Outcome
                    (insert_schedule settings registry get_next cron_valid now wall draw agent
                      cron_expr timezone params)
                    Routes.schedule_id db
                    (λ a db' e. inr (
                      writes db db' (
                          insert_schedule-WritesSchedules get_next settings registry cron_valid now
                            wall draw agent cron_expr timezone params db db' a e),
                      omega arith,
                    )))
          ]
        ]
    handle-Outcome Routes.sync_schedules =
        on_pool-Outcome (sync_from_registry get_next wall draw registry) Routes.created db
          (λ a db' e. inr (
            writes db db' (sync-WritesSchedules get_next wall draw registry db db' a e),
            omega arith,
          ))
    handle-Outcome (Routes.toggle_schedule id) = toggle-Outcome id db

-- Whatever is asked of the administration API, with whatever token: the tables stay as they were, or
-- the answer is no error and what was done to them is one step of the spine. Without the API token
-- they stay as they were.
pub serve-refines :
    (get_next : Text → Text → ℕ → Option ℕ) (settings : Settings) (registry : Dict Text LoadedAgent)
    (cron_valid : Text → Bool) (now wall : ℕ) (draw : ℕ → ℕ) (token : Option Text)
    (request : Request) (db : Db)
    → Outcome get_next db
        (serve settings registry get_next cron_valid now wall draw token request (some db))
      × ((require_token settings token ≡ granted)
          ⊎ (serve settings registry get_next cron_valid now wall draw token request (some db)
              ≡ (Routes.http_error 401, some db)))
unfolding serve
serve-refines get_next settings registry cron_valid now wall draw token request db =
    by (require_token settings token) refl
  where
    by :
        (access : Access)
        → require_token settings token ≡ access
        → Outcome get_next db (elim access [
          | granted ↦ handle settings registry get_next cron_valid now wall draw request (some db)
          | unauthorized ↦ (Routes.http_error 401, some db)
        ])
          × ((require_token settings token ≡ granted)
              ⊎ (elim access as (λ a. Answer × Option Db) [
                | granted ↦
                    handle settings registry get_next cron_valid now wall draw request (some db)
                | unauthorized ↦ (Routes.http_error 401, some db)
              ]
                  ≡ (Routes.http_error 401, some db)))
    by granted e =
        (handle-Outcome get_next settings registry cron_valid now wall draw db request, inl e)
    by unauthorized e = (unchanged get_next (Routes.http_error 401) db, inr refl)
