-- ===== src/Transition.antt =====
-- src/octo/models.py: assert_transition and transition.
pub mod Outcome
use agentic_octopus.Prelude.{
  ℕ, Bool, true, false, ◌&&◌, some, List, [], ◌∷◌, ◌==◌, nat_eq, Text, if◌then◌else◌,
}
use agentic_octopus.Prelude.Dict.{Dict}
use agentic_octopus.Prelude.Json.{Json}
use agentic_octopus.Status.{RunStatus, status_eq, allowed}
use agentic_octopus.Db.{
  Run, EventBody, Db, Tx, pure, raise, ok, err, ◌>>=◌, ◌>>◌, illegal_pair, not_in_status,
  update_runs, insert_event,
}
use agentic_octopus.Db.EventBody.{status_change}

unfoldable pub assert_transition : RunStatus → RunStatus → Tx Unit
assert_transition from to = if allowed from to then pure tt else raise (illegal_pair from to)

-- `WHERE id = … AND status = …`
abbrev pub in_status : ℕ → RunStatus → ℕ → Run → Bool
in_status run_id from i r = i == run_id && r.status == from

-- The row count of the UPDATE must be 1.
unfoldable pub expect_one : ℕ → RunStatus → ℕ → Tx Unit
expect_one run_id from n = if n == 1 then pure tt else raise (not_in_status run_id from)

-- `extra_set` gives the other columns of the UPDATE from the old row, `payload` the entries of the
-- event beside "from" and "to".
unfoldable pub transition : ℕ → ℕ → RunStatus → RunStatus → (Run → Run) → Dict Text Json → Tx Unit
unfolding assert_transition expect_one
transition now run_id from to extra_set payload = do
  assert_transition from to
  n ← update_runs (in_status run_id from) (λ r. record (extra_set r) { status = to })
  expect_one run_id from n
  insert_event now run_id (status_change (some from) to payload)
