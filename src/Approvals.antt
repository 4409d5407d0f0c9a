-- ===== src/Approvals.antt =====
-- src/octo/approvals.py: consent gates.
pub mod Outcome
use agentic_octopus.Prelude.{
  ℕ, Bool, true, false, ◌&&◌, Option, none, some, List, [], ◌∷◌, ◌==◌, nat_eq, Text, lit, ltb,
  if◌then◌else◌,
}
use agentic_octopus.Prelude.Dict.{Dict}
use agentic_octopus.Prelude.Json.{Json, str, null}
use agentic_octopus.Status.{RunStatus, queued, running, awaiting_approval, rejected}
use agentic_octopus.Table.{Table, count_where}
use agentic_octopus.Db.{
  Run, Approval, ApprovalStatus, approval_status_eq, Db, Tx, pure, raise, gets, ok, err, ◌>>=◌,
  ◌>>◌, no_pending_approval, insert_approval, update_approvals,
}
use agentic_octopus.Transition.{transition}
use agentic_octopus.Queue.{mark_parked}

-- The row of the INSERT, with the defaults of the schema.
abbrev pub new_approval : ℕ → ℕ → Text → Json → Approval
new_approval now run_id action payload = record {
  run_id = run_id;
  action = action;
  payload = payload;
  status = ApprovalStatus.pending;
  requested_at = now;
  decided_at = none;
  decided_via = none;
  note = none;
}

abbrev pub request_payload : ℕ → Text → Dict Text Json
request_payload approval_id action =
    (lit "approval_id", Json.num approval_id) ∷ (lit "action", str action) ∷ []

unfoldable pub request : ℕ → ℕ → ℕ → Text → Json → Tx ℕ
request now new_id run_id action payload = do
  insert_approval new_id (new_approval now run_id action payload)
  transition now run_id running awaiting_approval mark_parked (request_payload new_id action)
  pure new_id

abbrev pub with_status : ℕ → ApprovalStatus → ℕ → Approval → Bool
with_status run_id s i a = a.run_id == run_id && a.status == s

-- SELECT 1 … LIMIT 1
unfoldable pub has_approved : ℕ → Tx Bool
has_approved run_id =
    gets (λ db. ltb 0 (count_where (with_status run_id ApprovalStatus.approved) db.approvals))

abbrev pub mark_decided : ℕ → Bool → Text → Option Text → Approval → Approval
mark_decided now approved via note a = record a {
  status = if approved then ApprovalStatus.approved else ApprovalStatus.rejected;
  decided_at = some now;
  decided_via = some via;
  note = note;
}

abbrev opt_str : Option Text → Json
opt_str none = null
opt_str (some t) = str t

abbrev pub decision_payload : Text → Option Text → Dict Text Json
decision_payload via note = (lit "decided_via", str via) ∷ (lit "note", opt_str note) ∷ []

abbrev pub after_decision : ℕ → Bool → Run → Run
after_decision now approved r = if approved then r else record r { finished_at = some now }

unfoldable pub expect_pending : ℕ → ℕ → Tx Unit
expect_pending run_id n = if n == 0 then raise (no_pending_approval run_id) else pure tt

unfoldable pub decide : ℕ → ℕ → Bool → Text → Option Text → Tx Unit
unfolding expect_pending
decide now run_id approved via note = do
  n ←
      update_approvals (with_status run_id ApprovalStatus.pending)
        (mark_decided now approved via note)
  expect_pending run_id n
  transition now run_id awaiting_approval (if approved then queued else rejected)
      (after_decision now approved) (decision_payload via note)

-- A row among rows in the order of requested_at, oldest first.
place : ℕ × Approval → List (ℕ × Approval) → List (ℕ × Approval)
place e [] = e ∷ []
place e (d ∷ l) = if ltb d.1.requested_at e.1.requested_at then d ∷ place e l else e ∷ d ∷ l

by_request : ℕ → Table Approval → List (ℕ × Approval)
unfolding place
by_request run_id [] = []
by_request run_id ((i, a) ∷ t) =
    let rest = by_request run_id t in if a.run_id == run_id then place (i, a) rest else rest

unfoldable pub list_for_run : ℕ → Tx (List (ℕ × Approval))
unfolding by_request
list_for_run run_id = gets (λ db. by_request run_id db.approvals)
