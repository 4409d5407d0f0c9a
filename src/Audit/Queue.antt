-- ===== src/Audit/Queue.antt =====
-- The invariant under the operations of src/octo/queue.py but the reaper.
use mathlib.Core.Option
use mathlib.Core.Path.{subst}
use agentic_octopus.Prelude.{
  ℕ, ◌≡◌, ◌<◌, ◌⊎◌, refl, Bool, true, ◌||◌, Option, none, some, [], ◌∷◌, arith, ◌==◌, nat_eq, Text,
  if◌then◌else◌, Option-cases, Bool-cases, inl, inr,
}
use agentic_octopus.Prelude.Dict.{Dict}
use agentic_octopus.Prelude.Json.{Json}
use agentic_octopus.Status.{
  RunStatus, status_eq, status_beq, status_beq_iff, allowed, queued, running, awaiting_approval,
  completed, failed,
}
use agentic_octopus.Table.{find, append, update_where, oldest}
use agentic_octopus.Table.Laws.{
  find-update_where, find-append, IsKeyed-update_where, IsKeyed-append, AllRows-append,
  AllRows-update_where,
}
use agentic_octopus.Table.Oldest.{oldest-find}
use agentic_octopus.Db.{
  Trigger, Run, Db, ok, pure, ◌>>=◌, >>=-eq-ok, insert_run-eq-ok, insert_event-eq-ok, insert_run,
  insert_event, update_runs,
}
use agentic_octopus.Db.EventBody.{status_change, other_event}
use agentic_octopus.Queue.{
  new_run, enqueue, available, mark_running, claim, owned, lease_end, heartbeat, Finish,
  mark_finished, finish, mark_parked, park_awaiting_approval, record_event, trigger_payload,
  error_payload, set_tags,
}
use agentic_octopus.Queue.Claim.{claimed, claim-eq-claimed, worker_payload}
use agentic_octopus.Audit.{trail_status, IsRow, IsSound}
use agentic_octopus.Audit.Moves.{moved-IsSound, transition-IsSound}

-- The SET lists keep a row consistent.
pub mark_running-IsRow :
    (now : ℕ) (w : Text) (lease : ℕ)
    → (r : Run) → r.status ≡ queued
    → IsRow r
    → IsRow (mark_running now w lease r)
unfolding status_beq
mark_running-IsRow now w lease r was h = ground arith

pub mark_finished-IsRow :
    (now : ℕ) (f : Finish) (status : RunStatus) (r : Run)
    → (status == completed ≡ true) ⊎ (status == failed ≡ true)
    → r.status ≡ running
    → IsRow r
    → IsRow (record (mark_finished now f r) { status = status })
unfolding status_beq
mark_finished-IsRow now f status r ends was h = ground arith

pub mark_parked-IsRow :
    (r : Run)
    → r.status ≡ running
    → IsRow r
    → IsRow (record (mark_parked r) { status = awaiting_approval })
unfolding status_beq
mark_parked-IsRow r was h = ground arith

pub new_run-IsRow :
    (now : ℕ) (agent : Text) (trigger : Trigger) (params : Json) (sid : Option ℕ) (max : ℕ)
    (tags : Dict Text Json)
    → 0 < max
    → IsRow (new_run now agent trigger params sid max tags)
unfolding new_run status_beq
new_run-IsRow now agent trigger params sid max tags h = ground arith

-- A new run and its first event.
module _ (now id : ℕ) (run : Run) (payload : Dict Text Json) where
  abbrev pub created : Db → Db
  created db = record db {
    runs = append id run db.runs;
    events =
        record { run_id = id; ts = now; body = status_change none run.status payload } ∷ db.events;
  }

  pub created-IsSound :
      (db : Db)
      → find id db.runs ≡ none
      → run.status ≡ queued
      → IsRow run
      → IsSound db
      → IsSound (created db)
  unfolding trail_status status_beq
  created-IsSound db fresh was row s = record {
    keyed = IsKeyed-append id run db.runs fresh s.keyed;
    rows = AllRows-append IsRow id run db.runs row s.rows;
    audited = λ j. ground (arith, s.audited j, find-append id j run db.runs);
    legal_trail = ((rw (s.audited id, fresh) refl, rw was refl), s.legal_trail);
  }

-- A new run may be tried at least once.
pub enqueue-IsSound :
    (now new_id : ℕ) (agent : Text) (trigger : Trigger) (params : Json) (sid : Option ℕ) (max : ℕ)
    (tags : Dict Text Json) (db db' : Db) (id : ℕ)
    → 0 < max
    → IsSound db
    → enqueue now new_id agent trigger params sid max tags db ≡ ok (id, db')
    → IsSound db'
unfolding enqueue
enqueue-IsSound now new_id agent trigger params sid max tags db db' id h s e =
    let run = new_run now agent trigger params sid max tags in
    let body = status_change none queued (trigger_payload trigger) in
    let (_, mid, inserted, rest) =
      >>=-eq-ok (insert_run new_id run) (λ _. insert_event now new_id body >>= λ _. pure new_id) db
        e in
    let (_, last, logged, done) =
      >>=-eq-ok (insert_event now new_id body) (λ _. pure new_id) mid rest in
    let (fresh, written) = insert_run-eq-ok new_id run db inserted in
    subst IsSound (ground (arith, insert_event-eq-ok now new_id body mid logged)) (
      created-IsSound now new_id run (trigger_payload trigger) db fresh (unfold new_run in refl)
        (new_run-IsRow now agent trigger params sid max tags h) s)

-- An UPDATE that leaves every status as it is.
pub quiet_update-IsSound :
    (p : ℕ → Run → Bool) (f : Run → Run) (db : Db)
    → ((r : Run) → (f r).status ≡ r.status)
    → ((i : ℕ) (r : Run) → p i r ≡ true → IsRow r → IsRow (f r))
    → IsSound db
    → IsSound (record db { runs = update_where p f db.runs })
quiet_update-IsSound p f db quiet keep s = record {
  keyed = IsKeyed-update_where p f db.runs s.keyed;
  rows = AllRows-update_where IsRow p f db.runs keep s.rows;
  audited = λ j. rw (s.audited j, find-update_where p f j db.runs) (quiet_map j (find j db.runs));
  legal_trail = s.legal_trail;
}
  where
    quiet_map :
        (j : ℕ) (o : Option Run)
        → Option.map (λ r. r.status) o
          ≡ Option.map (λ r. r.status) (Option.map (λ r. if p j r then f r else r) o)
    quiet_map j none = refl
    quiet_map j (some r) = ground (arith, quiet r)

pub heartbeat-IsSound :
    (now run_id : ℕ) (w : Text) (lease : ℕ) (db db' : Db) (b : Bool)
    → IsSound db
    → heartbeat now run_id w lease db ≡ ok (b, db')
    → IsSound db'
unfolding heartbeat update_runs
heartbeat-IsSound now run_id w lease db db' b s e = subst IsSound (ground arith) (
    quiet_update-IsSound (owned run_id w)
      (λ r. record r { lease_expires_at = some (lease_end now lease) }) db (λ r. refl)
      (λ i r p row. ground arith) s)

pub claim-IsSound :
    (now : ℕ) (w : Text) (lease : ℕ) (locked : ℕ → Bool) (db db' : Db) (o : Option (ℕ × Run))
    → IsSound db
    → claim now w lease locked db ≡ ok (o, db')
    → IsSound db'
unfolding claimed allowed
claim-IsSound now w lease locked db db' o s e =
    elim (Option-cases (oldest (λ q. q.created_at) (available now locked) db.runs)) [
      | inl nothing ↦
          subst IsSound (ground (arith, claim-eq-claimed now w lease locked db s.keyed)) s
      | inr ((id, r), picked) ↦
          let (here, met) =
            oldest-find (λ q. q.created_at) (available now locked) db.runs s.keyed picked in
          subst IsSound (ground (arith, claim-eq-claimed now w lease locked db s.keyed)) (
            moved-IsSound now id queued running (mark_running now w lease)
              (worker_payload now w lease locked) db refl here
              (ground (arith, met, status_beq_iff r.status queued)) (mark_running-IsRow now w lease)
              s)
    ]

pub finish-IsSound :
    (now run_id : ℕ) (status : RunStatus) (f : Finish) (db db' : Db) (u : Unit)
    → IsSound db
    → finish now run_id status f db ≡ ok (u, db')
    → IsSound db'
unfolding finish
finish-IsSound now run_id status f db db' u s e =
    elim (Bool-cases (status == completed || status == failed)) [
      | inl ends ↦
          transition-IsSound now run_id running status (mark_finished now f) (error_payload f.error)
            db (λ r was row. mark_finished-IsRow now f status r (ground (arith, ends)) was row) s
            (rw (ends) at e)
      | inr other ↦ absurd (ground (arith, other))
    ]

pub park-IsSound :
    (now run_id : ℕ) (db db' : Db) (u : Unit)
    → IsSound db
    → park_awaiting_approval now run_id db ≡ ok (u, db')
    → IsSound db'
unfolding park_awaiting_approval
park-IsSound now run_id db db' u s e =
    transition-IsSound now run_id running awaiting_approval mark_parked [] db mark_parked-IsRow s e

pub record_event-IsSound :
    (now run_id : ℕ) (kind : Text) (payload : Json) (db db' : Db) (u : Unit)
    → IsSound db
    → record_event now run_id kind payload db ≡ ok (u, db')
    → IsSound db'
unfolding record_event insert_event trail_status
record_event-IsSound now run_id kind payload db db' u s e = subst IsSound (ground arith) (
    let logged : IsSound (record db {
      events = record { run_id = run_id; ts = now; body = other_event kind payload } ∷ db.events;
    }) =
      record {
        keyed = s.keyed;
        rows = s.rows;
        audited = λ j. ground (arith, s.audited j);
        legal_trail = (tt, s.legal_trail);
      } in
    logged)

pub set_tags-IsSound :
    (run_id : ℕ) (tags : Dict Text Json) (db db' : Db) (n : ℕ)
    → IsSound db
    → set_tags run_id tags db ≡ ok (n, db')
    → IsSound db'
unfolding set_tags update_runs
set_tags-IsSound run_id tags db db' n s e = subst IsSound (ground arith) (
    quiet_update-IsSound (λ i _. i == run_id) (λ r. record r { tags = tags }) db (λ r. refl)
      (λ i r p row. ground arith) s)
