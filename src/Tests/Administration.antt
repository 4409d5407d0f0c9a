-- ===== src/Tests/Administration.antt =====
-- Requests of the administration API, and claims until the queue is empty.
use agentic_octopus.Prelude.{
  ℕ, ◌+◌, ◌≡◌, ◌⊎◌, refl, Bool, true, false, Option, none, some, [], ◌∷◌, Text, text_beq, lit,
}
use agentic_octopus.Prelude.Json.{null}
use agentic_octopus.Config.{default_settings}
use agentic_octopus.Table.{find, update_where}
use agentic_octopus.Db.{Trigger, Run, Schedule, Db, empty_db}
use agentic_octopus.Queue.{new_run}
use agentic_octopus.Queue.Drain.{Drains, claim_each-Drains}
use agentic_octopus.Auth.{granted, require_token}
use agentic_octopus.Routes
use agentic_octopus.Routes.{Request, serve, handle, on_pool, toggle}
use agentic_octopus.Routes.Refines.{Outcome, serve-refines}

abbrev hourly : Text → Text → ℕ → Option ℕ
hourly expr timezone t = some (t + 3600000000)

abbrev nightly : Schedule
nightly = record {
  agent = lit "echo";
  cron_expr = lit "0 6 * * *";
  timezone = lit "UTC";
  params = null;
  enabled = true;
  next_run_at = 100;
  last_run_at = none;
  last_run_id = none;
}

abbrev scheduled_db : Db
scheduled_db = record empty_db { schedules = (4, nightly) ∷ [] }

abbrev served : Option Text → Request → Option Db → Routes.Answer × Option Db
served = serve default_settings [] hourly (λ expr. true) 20 20 (λ n. n)

serve-refines_example :
    Outcome hourly scheduled_db
      (served (some (lit "change-me")) (Routes.toggle_schedule 4) (some scheduled_db))
    × ((require_token default_settings (some (lit "change-me")) ≡ granted)
        ⊎ (served (some (lit "change-me")) (Routes.toggle_schedule 4) (some scheduled_db)
            ≡ (Routes.http_error 401, some scheduled_db)))
serve-refines_example =
    serve-refines hourly default_settings [] (λ expr. true) 20 20 (λ n. n) (some (lit "change-me"))
      (Routes.toggle_schedule 4) scheduled_db

-- The schedule is disabled.
toggled_off : served (some (lit "change-me")) (Routes.toggle_schedule 4) (some scheduled_db) ≡ (
  Routes.toggled 4 false,
  some (record empty_db { schedules = (4, record nightly { enabled = false }) ∷ [] }),
)
unfolding serve require_token text_beq handle on_pool toggle find update_where
toggled_off = refl

abbrev unlocked : ℕ → Bool
unlocked i = false

abbrev run_waiting : Run
run_waiting = new_run 10 (lit "echo") Trigger.api null none 2 []

abbrev queue_db : Db
queue_db = record empty_db { runs = (1, run_waiting) ∷ (2, run_waiting) ∷ [] }

claim_each-Drains_example : Drains 20 15 unlocked (lit "w" ∷ lit "v" ∷ lit "w" ∷ []) queue_db
unfolding find
claim_each-Drains_example =
    claim_each-Drains 20 15 unlocked (lit "w" ∷ lit "v" ∷ lit "w" ∷ []) queue_db (refl, (refl, tt))
