-- ===== src/Queue/Reads.antt =====
-- src/octo/queue.py: the reads of runs and of their events.
use agentic_octopus.Prelude.{
  ℕ, Bool, true, ◌&&◌, Option, none, some, List, [], ◌∷◌, ◌==◌, nat_eq, Text, text_eq, ltb,
  if◌then◌else◌, take, reverse,
}
use agentic_octopus.Status.{value}
use agentic_octopus.Table.{Table}
use agentic_octopus.Db.{Run, Event, Tx, gets, find_run}

unfoldable pub get_run : ℕ → Tx (Option Run)
get_run run_id = find_run run_id

-- The newest event is the first of the table, so ORDER BY id reverses it.
of_run : ℕ → List Event → List Event
of_run run_id [] = []
of_run run_id (e ∷ es) =
    let rest = of_run run_id es in if e.run_id == run_id then e ∷ rest else rest

unfoldable pub list_events : ℕ → Tx (List Event)
unfolding of_run
list_events run_id = gets (λ db. reverse (of_run run_id db.events))

-- `%(x)s::text IS NULL OR column = %(x)s`
abbrev pub matches : Option Text → Text → Bool
matches none column = true
matches (some t) column = column == t

-- A row among rows in the order of created_at, newest first.
place : ℕ × Run → List (ℕ × Run) → List (ℕ × Run)
place e [] = e ∷ []
place e (d ∷ l) = if ltb d.1.created_at e.1.created_at then e ∷ d ∷ l else d ∷ place e l

-- The rows that meet both tests.
newest : Option Text → Option Text → Table Run → List (ℕ × Run)
unfolding place
newest status agent [] = []
newest status agent ((i, r) ∷ t) =
    let rest = newest status agent t in
    if matches status (value r.status) && matches agent r.agent then place (i, r) rest else rest

unfoldable pub list_runs : Option Text → Option Text → ℕ → Tx (List (ℕ × Run))
unfolding newest
list_runs status agent limit = gets (λ db. take limit (newest status agent db.runs))
