-- ===== src/Audit/Appending.antt =====
-- The operations of the spine and the list of the events.
use mathlib.Core.Option
use agentic_octopus.Prelude.{
  ℕ, ◌+◌, arith, Bool, ◌||◌, Option, none, some, List, [], ◌∷◌, Text, lit, ◌==◌, nat_eq, length,
  if◌then◌else◌,
}
use agentic_octopus.Prelude.Json.{Json, str}
use agentic_octopus.Status.{
  RunStatus, status_eq, queued, running, awaiting_approval, rejected, completed, failed,
}
use agentic_octopus.Table.{ids_where}
use agentic_octopus.Db.{
  Trigger, Run, EventBody, ApprovalStatus, Schedule, assertion_error, no_pending_approval,
  value_error, pure, raise, gets, ◌>>=◌, insert_run, insert_event, insert_approval, update_runs,
  update_approvals, find_run,
}
use agentic_octopus.Db.EventBody.{status_change}
use agentic_octopus.Transition.{transition}
use agentic_octopus.Queue.{
  new_run, trigger_payload, select_oldest, mark_running, take_up, claim, owned, lease_end,
  heartbeat, Finish, finish, mark_finished, error_payload, record_each, update_returning,
  reap_expired, requeueable, exhausted, mark_requeued, mark_dead, lease_expired, mark_parked,
}
use agentic_octopus.Approvals.{
  new_approval, request, request_payload, with_status, mark_decided, expect_pending, after_decision,
  decision_payload, decide,
}
use agentic_octopus.Scheduler.{
  compute_next, update_schedules, mark_fired, fire, fire_each, rows_where, is_due, tick,
}
use agentic_octopus.Audit.History.{
  Appends, Appends-pure, Appends-raise, Appends-gets, Appends->>=, Appends-insert_run,
  Appends-insert_event, Appends-insert_approval, Appends-update_runs, Appends-update_approvals,
  Appends-find_run, Appends-if, Appends-transition,
}

pub Appends-claim :
    (now : ℕ) (w : Text) (lease : ℕ) (locked : ℕ → Bool) → Appends (claim now w lease locked)
unfolding claim take_up select_oldest
Appends-claim now w lease locked =
    Appends->>= (select_oldest now locked) (take_up now w lease) (λ db o db' e. ([], ground arith))
      taken
  where
    taken : (o : Option (ℕ × Run)) → Appends (take_up now w lease o)
    taken none = Appends-pure none
    taken (some (id, r)) =
        let body = status_change (some queued) running ((lit "worker", str w) ∷ []) in
        let back = λ (run : Option Run).
          insert_event now id body >>= λ _. pure (Option.map (λ q. (id, q)) run) in
        Appends->>= (update_runs (λ i _. i == id) (mark_running now w lease))
          (λ _. find_run id >>= back)
          (Appends-update_runs (λ i _. i == id) (mark_running now w lease))
          (λ _. Appends->>= (find_run id) back (Appends-find_run id) (λ run.
            Appends->>= (insert_event now id body) (λ _. pure (Option.map (λ q. (id, q)) run))
              (Appends-insert_event now id body)
              (λ _. Appends-pure (Option.map (λ q. (id, q)) run))))

pub Appends-heartbeat : (now id : ℕ) (w : Text) (lease : ℕ) → Appends (heartbeat now id w lease)
unfolding heartbeat
Appends-heartbeat now id w lease =
    let renew = λ (r : Run). record r { lease_expires_at = some (lease_end now lease) } in
    Appends->>= (update_runs (owned id w) renew) (λ n. pure (n == 1))
      (Appends-update_runs (owned id w) renew) (λ n. Appends-pure (n == 1))

pub Appends-finish :
    (now id : ℕ) (status : RunStatus) (f : Finish) → Appends (finish now id status f)
unfolding finish
Appends-finish now id status f =
    Appends-if (status == completed || status == failed)
      (transition now id running status (mark_finished now f) (error_payload f.error))
      (raise assertion_error)
      (Appends-transition now id running status (mark_finished now f) (error_payload f.error))
      (Appends-raise assertion_error)

pub Appends-request :
    (now new_id id : ℕ) (action : Text) (payload : Json)
    → Appends (request now new_id id action payload)
unfolding request
Appends-request now new_id id action payload =
    let park =
      transition now id running awaiting_approval mark_parked (request_payload new_id action) in
    Appends->>= (insert_approval new_id (new_approval now id action payload))
      (λ _. park >>= λ _. pure new_id)
      (Appends-insert_approval new_id (new_approval now id action payload))
      (λ _.
        Appends->>= park (λ _. pure new_id)
          (Appends-transition now id running awaiting_approval mark_parked
            (request_payload new_id action))
          (λ _. Appends-pure new_id))

pub Appends-decide :
    (now id : ℕ) (approved : Bool) (via : Text) (memo : Option Text)
    → Appends (decide now id approved via memo)
unfolding decide expect_pending
Appends-decide now id approved via memo =
    let to = if approved then queued else rejected in
    let move =
      transition now id awaiting_approval to (after_decision now approved)
        (decision_payload via memo) in
    Appends->>=
      (update_approvals (with_status id ApprovalStatus.pending)
        (mark_decided now approved via memo))
      (λ n. expect_pending id n >>= λ _. move)
      (Appends-update_approvals (with_status id ApprovalStatus.pending)
        (mark_decided now approved via memo))
      (λ n.
        Appends->>= (expect_pending id n) (λ _. move)
          (Appends-if (n == 0) (raise (no_pending_approval id)) (pure tt)
            (Appends-raise (no_pending_approval id)) (Appends-pure tt))
          (λ _.
            Appends-transition now id awaiting_approval to (after_decision now approved)
              (decision_payload via memo)))

Appends-record_each :
    (now : ℕ) (body : EventBody) (ids : List ℕ) → Appends (record_each now body ids)
unfolding record_each
Appends-record_each now body [] = Appends-pure tt
Appends-record_each now body (i ∷ ids) =
    Appends->>= (insert_event now i body) (λ _. record_each now body ids)
      (Appends-insert_event now i body) (λ _. Appends-record_each now body ids)

Appends-update_returning : (p : ℕ → Run → Bool) (f : Run → Run) → Appends (update_returning p f)
unfolding update_returning
Appends-update_returning p f =
    Appends->>= (gets (λ db. ids_where p db.runs)) (λ ids. update_runs p f >>= λ _. pure ids)
      (Appends-gets (λ db. ids_where p db.runs))
      (λ ids.
        Appends->>= (update_runs p f) (λ _. pure ids) (Appends-update_runs p f)
          (λ _. Appends-pure ids))

pub Appends-reap_expired : (now : ℕ) (locked : ℕ → Bool) → Appends (reap_expired now locked)
unfolding reap_expired
Appends-reap_expired now locked =
    let requeues = record_each now (status_change (some running) queued lease_expired) in
    let fails = record_each now (status_change (some running) failed lease_expired) in
    Appends->>= (update_returning (requeueable now locked) mark_requeued)
      (λ a. update_returning (exhausted now locked) (mark_dead now) >>= λ b.
        requeues a >>= λ _. fails b >>= λ _. pure (length a + length b))
      (Appends-update_returning (requeueable now locked) mark_requeued)
      (λ a.
        Appends->>= (update_returning (exhausted now locked) (mark_dead now))
          (λ b. requeues a >>= λ _. fails b >>= λ _. pure (length a + length b))
          (Appends-update_returning (exhausted now locked) (mark_dead now))
          (λ b.
            Appends->>= (requeues a) (λ _. fails b >>= λ _. pure (length a + length b))
              (Appends-record_each now (status_change (some running) queued lease_expired) a)
              (λ _.
                Appends->>= (fails b) (λ _. pure (length a + length b))
                  (Appends-record_each now (status_change (some running) failed lease_expired) b)
                  (λ _. Appends-pure (length a + length b)))))

module _ (get_next : Text → Text → ℕ → Option ℕ) where
  Appends-compute_next :
      (wall : ℕ) (expr timezone : Text) → Appends (compute_next get_next wall expr timezone)
  unfolding compute_next
  Appends-compute_next wall expr timezone = go (get_next expr timezone wall)
    where
      go :
          (o : Option ℕ)
          → Appends {A = ℕ} (elim o [ none ↦ raise (value_error expr) | some t ↦ pure t ])
      go none = Appends-raise (value_error expr)
      go (some t) = Appends-pure t

  Appends-fire :
      (now wall run_id sid : ℕ) (s : Schedule) → Appends (fire get_next now wall run_id sid s)
  unfolding fire update_schedules
  Appends-fire now wall run_id sid s =
      let run = new_run now s.agent Trigger.schedule s.params (some sid) 1 [] in
      let body = status_change none queued (trigger_payload Trigger.schedule) in
      let write = λ (next : ℕ). update_schedules (λ i _. i == sid) (mark_fired now next run_id) in
      Appends->>= (insert_run run_id run)
        (λ _. insert_event now run_id body >>= λ _.
          compute_next get_next wall s.cron_expr s.timezone >>= write)
        (Appends-insert_run run_id run)
        (λ _.
          Appends->>= (insert_event now run_id body)
            (λ _. compute_next get_next wall s.cron_expr s.timezone >>= write)
            (Appends-insert_event now run_id body)
            (λ _.
              Appends->>= (compute_next get_next wall s.cron_expr s.timezone) write
                (Appends-compute_next wall s.cron_expr s.timezone)
                (λ next db a db' e. ([], ground arith))))

  Appends-fire_each :
      (now wall : ℕ) (draw : ℕ → ℕ) (fired : ℕ) (due : List (ℕ × Schedule))
      → Appends (fire_each get_next now wall draw fired due)
  unfolding fire_each
  Appends-fire_each now wall draw fired [] = Appends-pure fired
  Appends-fire_each now wall draw fired ((sid, s) ∷ due) =
      Appends->>= (fire get_next now wall (draw fired) sid s)
        (λ _. fire_each get_next now wall draw (fired + 1) due)
        (Appends-fire now wall (draw fired) sid s)
        (λ _. Appends-fire_each now wall draw (fired + 1) due)

  pub Appends-tick :
      (now wall : ℕ) (draw : ℕ → ℕ) (locked : ℕ → Bool)
      → Appends (tick get_next now wall draw locked)
  unfolding tick
  Appends-tick now wall draw locked =
      Appends->>= (gets (λ db. rows_where (is_due now locked) db.schedules))
        (fire_each get_next now wall draw 0)
        (Appends-gets (λ db. rows_where (is_due now locked) db.schedules))
        (Appends-fire_each now wall draw 0)
