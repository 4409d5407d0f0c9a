-- ===== src/Db/Rows.antt =====
-- The rows of runs, run_events, approvals and schedules.
use agentic_octopus.Prelude.{ℕ, Bool, true, false, Option, List, [], ◌↔◌, ◌≡◌, arith, Eq, Text}
use agentic_octopus.Prelude.Dict.{Dict}
use agentic_octopus.Prelude.Json.{Json}
use agentic_octopus.Status.{RunStatus}
use agentic_octopus.Table.{Table}

-- The CHECK of runs.trigger.
pub data Trigger : Type 0 where
  api schedule cli webhook chat : Trigger

pub record Run : Type 0 where
  pub agent : Text
  pub status : RunStatus
  pub trigger : Trigger
  pub params : Json
  pub schedule_id : Option ℕ
  pub attempts : ℕ
  pub max_attempts : ℕ
  pub available_at : ℕ
  pub locked_by : Option Text
  pub lease_expires_at : Option ℕ
  pub session_id : Option Text
  pub result : Option Text
  pub error : Option Text
  pub cost_usd : Option ℕ
  pub created_at : ℕ
  pub started_at : Option ℕ
  pub finished_at : Option ℕ
  pub tags : Dict Text Json

-- The `type` and `payload` of an event: a status change with its keys "from" and "to" and the
-- other entries of its payload, or any other event.
pub data EventBody : Type 0 where
  status_change : Option RunStatus → RunStatus → Dict Text Json → EventBody
  other_event : Text → Json → EventBody

pub record Event : Type 0 where
  pub run_id : ℕ
  pub ts : ℕ
  pub body : EventBody

-- The CHECK of approvals.status.
pub data ApprovalStatus : Type 0 where
  pending approved rejected expired : ApprovalStatus

abbrev approval_beq : ApprovalStatus → ApprovalStatus → Bool
approval_beq pending pending = true
approval_beq approved approved = true
approval_beq rejected rejected = true
approval_beq expired expired = true
approval_beq _ _ = false

pub approval_beq_iff : (s t : ApprovalStatus) → (approval_beq s t ≡ true) ↔ (s ≡ t)
approval_beq_iff s t = ground arith

instance abbrev pub approval_status_eq : Eq ApprovalStatus
approval_status_eq = record { beq = approval_beq; beq_iff = approval_beq_iff }

pub record Approval : Type 0 where
  pub run_id : ℕ
  pub action : Text
  pub payload : Json
  pub status : ApprovalStatus
  pub requested_at : ℕ
  pub decided_at : Option ℕ
  pub decided_via : Option Text
  pub note : Option Text

pub record Schedule : Type 0 where
  pub agent : Text
  pub cron_expr : Text
  pub timezone : Text
  pub params : Json
  pub enabled : Bool
  pub next_run_at : ℕ
  pub last_run_at : Option ℕ
  pub last_run_id : Option ℕ

-- `events` is newest first: an event's id is its place from the end.
pub record Db : Type 0 where
  pub runs : Table Run
  pub events : List Event
  pub approvals : Table Approval
  pub schedules : Table Schedule

abbrev pub empty_db : Db
empty_db = record { runs = []; events = []; approvals = []; schedules = [] }
