-- ===== src/Audit/Gates.antt =====
-- The invariant under src/octo/approvals.py.
use agentic_octopus.Prelude.{ℕ, ◌≡◌, Bool, true, false, Option, arith, Text, if◌then◌else◌}
use agentic_octopus.Prelude.Json.{Json}
use agentic_octopus.Status.{status_beq, queued, running, awaiting_approval, rejected}
use agentic_octopus.Table.{Table, append, update_where}
use agentic_octopus.Db.{Run, Approval, ApprovalStatus, Db, ok}
use agentic_octopus.Queue.{mark_parked}
use agentic_octopus.Approvals.{
  new_approval, request, request_payload, with_status, mark_decided, after_decision,
  decision_payload, decide,
}
use agentic_octopus.Approvals.Outcome.{request-eq-ok, decide-eq-ok}
use agentic_octopus.Audit.{IsRow, IsSound}
use agentic_octopus.Audit.Moves.{transition-IsSound}
use agentic_octopus.Audit.Queue.{mark_parked-IsRow}

-- Soundness speaks of runs and events alone.
pub with_approvals-IsSound :
    (a : Table Approval) (db : Db) → IsSound db → IsSound (record db { approvals = a })
with_approvals-IsSound a db s = record {
  keyed = s.keyed;
  rows = s.rows;
  audited = s.audited;
  legal_trail = s.legal_trail;
}

pub after_decision-IsRow :
    (now : ℕ) (approved : Bool) (r : Run)
    → r.status ≡ awaiting_approval
    → IsRow r
    → IsRow
        (record (after_decision now approved r) { status = if approved then queued else rejected })
unfolding status_beq
after_decision-IsRow now true r was h = ground arith
after_decision-IsRow now false r was h = ground arith

pub request-IsSound :
    (now new_id run_id : ℕ) (action : Text) (payload : Json) (db db' : Db) (id : ℕ)
    → IsSound db
    → request now new_id run_id action payload db ≡ ok (id, db')
    → IsSound db'
request-IsSound now new_id run_id action payload db db' id s e =
    let parked : Table Approval =
      append new_id (new_approval now run_id action payload) db.approvals in
    transition-IsSound now run_id running awaiting_approval mark_parked
      (request_payload new_id action) (record db { approvals = parked }) mark_parked-IsRow
      (with_approvals-IsSound parked db s) (request-eq-ok now new_id run_id action payload db e).1

pub decide-IsSound :
    (now run_id : ℕ) (approved : Bool) (via : Text) (memo : Option Text) (db db' : Db)
    → IsSound db
    → decide now run_id approved via memo db ≡ ok (tt, db')
    → IsSound db'
decide-IsSound now run_id approved via memo db db' s e =
    let decided : Table Approval =
      update_where (with_status run_id ApprovalStatus.pending) (mark_decided now approved via memo)
        db.approvals in
    transition-IsSound now run_id awaiting_approval (if approved then queued else rejected)
      (after_decision now approved) (decision_payload via memo) (record db { approvals = decided })
      (after_decision-IsRow now approved) (with_approvals-IsSound decided db s)
      (decide-eq-ok now run_id approved via memo db e).1
