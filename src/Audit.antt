-- ===== src/Audit.antt =====
-- The invariant of the tables of the spine between the transactions of src/octo: rows consistent
-- with their states, and the trail of run_events against the rows.
pub mod Moves
pub mod Queue
pub mod Reaper
pub mod Gates
pub mod History
pub mod Appending
pub mod Written
pub mod Reach
pub mod Terminal
pub mod Schedules
use mathlib.Core.Option
use agentic_octopus.Prelude.{
  ℕ, ◌≡◌, ◌<◌, ◌≤◌, Bool, true, Option, none, some, List, [], ◌∷◌, ◌==◌, nat_eq, is_some,
  if◌then◌else◌,
}
use agentic_octopus.Status.{
  RunStatus, status_eq, allowed, queued, running, awaiting_approval, completed, failed, rejected,
}
use agentic_octopus.Table.{find, IsKeyed}
use agentic_octopus.Table.Laws.{AllRows}
use agentic_octopus.Db.{Run, EventBody, Event, Db}
use agentic_octopus.Db.EventBody.{status_change, other_event}

after : EventBody → Option RunStatus → Option RunStatus
after (status_change _ to _) before = some to
after (other_event _ _) before = before

-- The state that a run's last status change gives; `none` before its first.
unfoldable pub trail_status : ℕ → List Event → Option RunStatus
unfolding after
trail_status id [] = none
trail_status id (e ∷ es) =
    let before = trail_status id es in if e.run_id == id then after e.body before else before

-- A run begins as queued and then follows the legal transitions.
abbrev pub legal : Option RunStatus → RunStatus → Bool
legal none to = to == queued
legal (some from) to = allowed from to

abbrev pub Follows : EventBody → ℕ → List Event → Type 0
Follows (status_change from to _) id es = (trail_status id es ≡ from) × (legal from to ≡ true)
Follows (other_event _ _) id es = Unit

-- Each status change starts from the state that the trail before it gives.
abbrev pub IsTrail : List Event → Type 0
IsTrail [] = Unit
IsTrail (e ∷ es) = Follows e.body e.run_id es × IsTrail es

-- A row is consistent with its state.
pub record IsRow (r : Run) : Type 0 where
  pub room_queued : r.status ≡ queued → r.attempts < r.max_attempts
  pub room_parked : r.status ≡ awaiting_approval → r.attempts < r.max_attempts
  pub bounded : r.attempts ≤ r.max_attempts
  pub tried : r.status ≡ running → 0 < r.attempts
  pub held : r.status ≡ running → is_some r.locked_by ≡ true
  pub leased : r.status ≡ running → is_some r.lease_expires_at ≡ true
  pub unheld : (r.status ≡ running → ⊥) → (r.locked_by ≡ none) × (r.lease_expires_at ≡ none)
  pub ended :
      (r.status == completed ≡ true → is_some r.finished_at ≡ true)
      × (r.status == failed ≡ true → is_some r.finished_at ≡ true)
      × (r.status == rejected ≡ true → is_some r.finished_at ≡ true)

pub record IsSound (db : Db) : Type 0 where
  pub keyed : IsKeyed db.runs
  pub rows : AllRows IsRow db.runs
  pub audited : (id : ℕ) → trail_status id db.events ≡ Option.map (λ r. r.status) (find id db.runs)
  pub legal_trail : IsTrail db.events
