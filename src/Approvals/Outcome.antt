-- ===== src/Approvals/Outcome.antt =====
-- What a request and a decision that return have done.
use agentic_octopus.Prelude.{
  ℕ, ◌≡◌, ◌≢◌, ◌∙◌, refl, Bool, Option, none, some, arith, ◌==◌, nat_eq, Text, if◌then◌else◌,
  Bool-cases, inl, inr,
}
use agentic_octopus.Prelude.Json.{Json}
use agentic_octopus.Status.{status_beq, allowed, queued, running, awaiting_approval, rejected}
use agentic_octopus.Table.{find, IsKeyed, append, update_where, count_where}
use agentic_octopus.Db.{
  ApprovalStatus, Db, ok, pure, ◌>>=◌, >>=-ok, >>=-eq-ok, Run, insert_approval,
  insert_approval-eq-ok, update_approvals,
}
use agentic_octopus.Transition.{transition}
use agentic_octopus.Transition.Outcome.{moved, outcome, transition-eq-outcome}
use agentic_octopus.Queue.{mark_parked}
use agentic_octopus.Approvals.{
  new_approval, request, request_payload, with_status, mark_decided, after_decision, expect_pending,
  decision_payload, decide,
}

pub request-eq-ok :
    (now new_id run_id : ℕ) (action : Text) (payload : Json) (db : Db) {id : ℕ} {db' : Db}
    → request now new_id run_id action payload db ≡ ok (id, db')
    → (id ≡ new_id)
      × (transition now run_id running awaiting_approval mark_parked
            (request_payload new_id action)
            (record db {
              approvals = append new_id (new_approval now run_id action payload) db.approvals;
            })
          ≡ ok (tt, db'))
unfolding request
request-eq-ok now new_id run_id action payload db {id} {db'} e =
    let move =
      transition now run_id running awaiting_approval mark_parked (request_payload new_id action) in
    let (_, mid, inserted, rest) =
      >>=-eq-ok (insert_approval new_id (new_approval now run_id action payload))
        (λ _. move >>= λ _. pure new_id) db e in
    let (_, last, parked, done) = >>=-eq-ok move (λ _. pure new_id) mid rest in
    (
      ground arith,
      ground (
        arith,
        insert_approval-eq-ok new_id (new_approval now run_id action payload) db inserted,
      ),
    )

-- A request under a fresh id for a run that is running goes through.
pub request-parked :
    (now new_id run_id : ℕ) (action : Text) (payload : Json) (db : Db) (r : Run)
    → find new_id db.approvals ≡ none
    → IsKeyed db.runs
    → find run_id db.runs ≡ some r
    → r.status ≡ running
    → request now new_id run_id action payload db
      ≡ ok (
        new_id,
        moved now run_id running awaiting_approval mark_parked
            (request_payload new_id action)
            (record db {
              approvals = append new_id (new_approval now run_id action payload) db.approvals;
            }),
      )
unfolding request insert_approval allowed outcome status_beq
request-parked now new_id run_id action payload db r fresh keyed here was =
    let mid : Db = record db {
      approvals = append new_id (new_approval now run_id action payload) db.approvals;
    } in
    let move =
      transition now run_id running awaiting_approval mark_parked (request_payload new_id action) in
    >>=-ok (insert_approval new_id (new_approval now run_id action payload))
      (λ _. move >>= λ _. pure new_id) db (rw (fresh, here) refl)
    ∙ >>=-ok move (λ _. pure new_id) mid
        (transition-eq-outcome now run_id running awaiting_approval mark_parked
            (request_payload new_id action) mid keyed
          ∙ rw here (rw was refl))

pub decide-eq-ok :
    (now run_id : ℕ) (approved : Bool) (via : Text) (note : Option Text) (db : Db) {db' : Db}
    → decide now run_id approved via note db ≡ ok (tt, db')
    → (count_where (with_status run_id ApprovalStatus.pending) db.approvals ≢ 0)
      × (transition now run_id awaiting_approval
            (if approved then queued else rejected)
            (after_decision now approved)
            (decision_payload via note)
            (record db {
              approvals =
                  update_where
                    (with_status run_id ApprovalStatus.pending)
                    (mark_decided now approved via note)
                    db.approvals;
            })
          ≡ ok (tt, db'))
unfolding decide update_approvals expect_pending
decide-eq-ok now run_id approved via memo db e =
    elim (Bool-cases (count_where (with_status run_id ApprovalStatus.pending) db.approvals == 0)) [
      | inl nothing ↦ absurd (cc (rw nothing at e))
      | inr some_row ↦ (λ z. ground (arith, z), rw some_row at e)
    ]

-- The tables with the pending approvals of a run decided.
abbrev pub decided_db : ℕ → ℕ → Bool → Text → Option Text → Db → Db
decided_db now run_id approved via note db = record db {
  approvals =
      update_where (with_status run_id ApprovalStatus.pending) (mark_decided now approved via note)
        db.approvals;
}
