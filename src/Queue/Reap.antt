-- ===== src/Queue/Reap.antt =====
-- src/octo/queue.py, reap_expired: what the reaper writes and returns.
use mathlib.Core.Option
use agentic_octopus.Prelude.{
  ℕ, ◌+◌, ◌≡◌, ◌∙◌, refl, Bool, true, false, not, ◌&&◌, none, some, Option, ltb, lit, ◌==◌, List,
  [], ◌∷◌, arith, Text, length, is_some, Option-cases, Bool-cases, inl, inr, nat_beq_iff,
  if◌then◌else◌,
}
use agentic_octopus.Prelude.Dict.{Dict}
use agentic_octopus.Prelude.Json.{Json}
use agentic_octopus.Status.{RunStatus, status_eq, status_beq, queued, running, failed}
use agentic_octopus.Table.{Table, find, update_where, ids_where}
use agentic_octopus.Table.Laws.{find-update_where}
use agentic_octopus.Db.{
  Run, Event, EventBody, Db, ok, pure, ◌>>=◌, >>=-ok, insert_event, update_runs,
}
use agentic_octopus.Db.EventBody.{status_change}
use agentic_octopus.Queue.{
  requeueable, exhausted, mark_requeued, mark_dead, record_each, lease_expired, reap_expired,
}

-- The same event for each id, the last one newest.
unfoldable pub push_each : ℕ → EventBody → List ℕ → List Event → List Event
push_each now body [] es = es
push_each now body (i ∷ ids) es =
    push_each now body ids (record { run_id = i; ts = now; body = body } ∷ es)

-- Each of the ids stands on a row.
abbrev pub Present : {R : Type 0} → Table R → List ℕ → Type 0
Present t [] = Unit
Present t (i ∷ ids) = (is_some (find i t) ≡ true) × Present t ids

Present-map :
    {R : Type 0} (t t' : Table R) (ids : List ℕ)
    → ((i : ℕ) → is_some (find i t) ≡ true → is_some (find i t') ≡ true)
    → Present t ids
    → Present t' ids
Present-map t t' [] f h = tt
Present-map t t' (i ∷ ids) f (here, rest) = (f i here, Present-map t t' ids f rest)

ids_where-Present : {R : Type 0} (p : ℕ → R → Bool) (t : Table R) → Present t (ids_where p t)
unfolding ids_where find
ids_where-Present p [] = tt
ids_where-Present p ((j, r) ∷ t) =
    let behind : Present ((j, r) ∷ t) (ids_where p t) =
      Present-map t ((j, r) ∷ t) (ids_where p t) (λ i h. ground arith) (ids_where-Present p t) in
    elim (Bool-cases (p j r)) [
      | inl met ↦ rw met (ground (arith, nat_beq_iff j j), behind)
      | inr other ↦ rw other behind
    ]

Present-update_where :
    {R : Type 0} (p : ℕ → R → Bool) (f : R → R) (t : Table R) (ids : List ℕ)
    → Present t ids
    → Present (update_where p f t) ids
Present-update_where p f t ids =
    Present-map t (update_where p f t) ids (λ i h. ground (arith, find-update_where p f i t))

record_each-eq :
    (now : ℕ) (body : EventBody) (ids : List ℕ) (db : Db)
    → Present db.runs ids
    → record_each now body ids db ≡ ok (tt, record db { events = push_each now body ids db.events })
unfolding record_each push_each insert_event
record_each-eq now body [] db h = refl
record_each-eq now body (i ∷ ids) db (here, rest) =
    >>=-ok (insert_event now i body) (λ _. record_each now body ids) db (rw here refl)
    ∙ record_each-eq now body ids
        (record db { events = record { run_id = i; ts = now; body = body } ∷ db.events }) rest

module _ (now : ℕ) (p : ℕ → Run → Bool) (f : Run → Run) (from to : RunStatus)
    (payload : Dict Text Json) where
  -- UPDATE … WHERE p, and a status change of each row that it met.
  unfoldable pub batch : Db → Db
  batch db = record db {
    runs = update_where p f db.runs;
    events = push_each now (status_change (some from) to payload) (ids_where p db.runs) db.events;
  }

module _ (now : ℕ) (locked : ℕ → Bool) where
  abbrev pub requeue_batch : Db → Db
  requeue_batch = batch now (requeueable now locked) mark_requeued running queued lease_expired

  abbrev pub fail_batch : Db → Db
  fail_batch = batch now (exhausted now locked) (mark_dead now) running failed lease_expired

  -- The reaper always returns: it has requeued the expired runs with attempts left and failed the
  -- expired runs without, each with one status change, and it returns their number.
  pub reap_expired-eq-batches :
      (db : Db)
      → reap_expired now locked db
        ≡ ok (
          length (ids_where (requeueable now locked) db.runs)
              + length (ids_where (exhausted now locked) (requeue_batch db).runs),
          fail_batch (requeue_batch db),
        )
  unfolding reap_expired update_runs batch
  reap_expired-eq-batches db =
      let first = update_where (requeueable now locked) mark_requeued db.runs in
      let second = update_where (exhausted now locked) (mark_dead now) first in
      let requeued = ids_where (requeueable now locked) db.runs in
      let dead = ids_where (exhausted now locked) first in
      let start : Db = record db { runs = second } in
      let mid : Db = record start {
        events =
            push_each now (status_change (some running) queued lease_expired) requeued db.events;
      } in
      let requeues = record_each now (status_change (some running) queued lease_expired) requeued in
      let fails = record_each now (status_change (some running) failed lease_expired) dead in
      let counts = λ (_ : Unit). pure (length requeued + length dead) in
      >>=-ok requeues (λ _. fails >>= counts) start
        (record_each-eq now (status_change (some running) queued lease_expired) requeued start (
          Present-update_where (exhausted now locked) (mark_dead now) first requeued (
            Present-update_where (requeueable now locked) mark_requeued db.runs requeued
              (ids_where-Present (requeueable now locked) db.runs))))
      ∙ >>=-ok fails counts mid (
          record_each-eq now (status_change (some running) failed lease_expired) dead mid (
            Present-update_where (exhausted now locked) (mark_dead now) first dead
              (ids_where-Present (exhausted now locked) first)))

  pub reap_expired-eq-ok :
      (db : Db) {n : ℕ} {db' : Db}
      → reap_expired now locked db ≡ ok (n, db')
      → db' ≡ fail_batch (requeue_batch db)
  reap_expired-eq-ok db {n} {db'} e = ground (arith, reap_expired-eq-batches db)

  -- Whether a lease has ended; a run without one has none that could.
  abbrev pub ended : Option ℕ → Bool
  ended none = false
  ended (some t) = ltb t now

  -- What becomes of one run, column by column.
  unfoldable pub reaped : ℕ → Run → Run
  reaped i r =
      if r.status == running && ended r.lease_expires_at && not (locked i)
      then (if ltb r.attempts r.max_attempts
          then record r { status = queued; locked_by = none; lease_expires_at = none }
          else record r {
            status = failed;
            error = some (lit "lease expired; attempts exhausted");
            locked_by = none;
            lease_expires_at = none;
            finished_at = some now;
          })
      else r

  -- Whatever run the reaper leaves in a table, it is the run that stood there before: queued again and
  -- released if its lease was over with attempts left, failed and released if it was over without,
  -- and as it was if it is not running, its lease holds, or another transaction has locked it.
  pub find-reap_expired :
      (db db' : Db) (n i : ℕ)
      → reap_expired now locked db ≡ ok (n, db')
      → find i db'.runs ≡ Option.map (reaped i) (find i db.runs)
  unfolding batch reaped status_beq
  find-reap_expired db db' n i e =
      let first = update_where (requeueable now locked) mark_requeued db.runs in
      elim (Option-cases (find i db.runs)) [
        | inl absent ↦ ground (
          arith,
          reap_expired-eq-ok db {n = n} e,
          find-update_where (exhausted now locked) (mark_dead now) i first,
          find-update_where (requeueable now locked) mark_requeued i db.runs,
        )
        | inr (r, here) ↦ ground (
          arith,
          reap_expired-eq-ok db {n = n} e,
          find-update_where (exhausted now locked) (mark_dead now) i first,
          find-update_where (requeueable now locked) mark_requeued i db.runs,
        )
      ]
