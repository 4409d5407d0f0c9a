-- ===== src/Audit/Reach.antt =====
-- The tables that the spine can reach from the empty ones: any sequence of committed transactions,
-- of any workers and clients, with any arguments and any rows locked by others.
use agentic_octopus.Prelude.{
  ℕ, ◌≡◌, ◌≢◌, ◌<◌, ◌≤◌, refl, Bool, true, is_some, Option, some, none, Text, sym,
}
use mathlib.Core.Option
use mathlib.Core.Path.{subst}
use agentic_octopus.Prelude.Dict.{Dict}
use agentic_octopus.Prelude.Json.{Json}
use agentic_octopus.Status.{RunStatus, running, queued}
use agentic_octopus.Table.{Table, find}
use agentic_octopus.Table.Laws.{AllRows-find}
use agentic_octopus.Db.{Trigger, Run, Schedule, Db, empty_db, ok}
use agentic_octopus.Queue.{
  enqueue, claim, heartbeat, Finish, finish, reap_expired, record_event, set_tags,
}
use agentic_octopus.Approvals.{request, decide}
use agentic_octopus.Scheduler.{tick}
use agentic_octopus.Audit.{IsSound, IsRow, IsTrail, trail_status}
use agentic_octopus.Audit.Written.{Written}
use agentic_octopus.Audit.Queue.{
  enqueue-IsSound, claim-IsSound, heartbeat-IsSound, finish-IsSound, record_event-IsSound,
  set_tags-IsSound,
}
use agentic_octopus.Audit.Gates.{request-IsSound, decide-IsSound}
use agentic_octopus.Audit.Reaper.{reap-IsSound}
use agentic_octopus.Audit.Schedules.{tick-IsSound, with_schedules-IsSound}

module _ (get_next : Text → Text → ℕ → Option ℕ) where
  pub data Step (db db' : Db) : Type 0 where
    enqueues :
        (now id : ℕ) (agent : Text) (trigger : Trigger) (params : Json) (sid : Option ℕ) (max : ℕ)
        (tags : Dict Text Json)
        → 0 < max
        → enqueue now id agent trigger params sid max tags db ≡ ok (id, db')
        → Step db db'
    claims :
        (now : ℕ) (w : Text) (lease : ℕ) (locked : ℕ → Bool) (o : Option (ℕ × Run))
        → claim now w lease locked db ≡ ok (o, db')
        → Step db db'
    beats :
        (now id : ℕ) (w : Text) (lease : ℕ) (b : Bool)
        → heartbeat now id w lease db ≡ ok (b, db')
        → Step db db'
    finishes :
        (now id : ℕ) (status : RunStatus) (f : Finish)
        → finish now id status f db ≡ ok (tt, db')
        → Step db db'
    requests :
        (now new_id id : ℕ) (action : Text) (payload : Json) (a : ℕ)
        → request now new_id id action payload db ≡ ok (a, db')
        → Step db db'
    decides :
        (now id : ℕ) (approved : Bool) (via : Text) (memo : Option Text)
        → decide now id approved via memo db ≡ ok (tt, db')
        → Step db db'
    reaps :
        (now : ℕ) (locked : ℕ → Bool) (n : ℕ)
        → reap_expired now locked db ≡ ok (n, db')
        → Step db db'
    records :
        (now id : ℕ) (kind : Text) (payload : Json)
        → record_event now id kind payload db ≡ ok (tt, db')
        → Step db db'
    ticks :
        (now wall : ℕ) (draw : ℕ → ℕ) (locked : ℕ → Bool) (n : ℕ)
        → tick get_next now wall draw locked db ≡ ok (n, db')
        → Step db db'
    tags_set :
        (id : ℕ) (tags : Dict Text Json) (n : ℕ) → set_tags id tags db ≡ ok (n, db') → Step db db'
    -- toggle, sync and create write to the schedules alone
    schedules_written :
        (t : Table Schedule)
        → Written db.schedules t
        → db' ≡ record db { schedules = t }
        → Step db db'

  pub data Reach : Db → Type 0 where
    start : Reach empty_db
    next : {db db' : Db} → Reach db → Step db db' → Reach db'

  Step-IsSound : (db db' : Db) → Step db db' → IsSound db → IsSound db'
  unfolding set_tags
  Step-IsSound db db' (enqueues now id agent trigger params sid max tags h e) s =
      enqueue-IsSound now id agent trigger params sid max tags db db' id h s e
  Step-IsSound db db' (claims now w lease locked o e) s =
      claim-IsSound now w lease locked db db' o s e
  Step-IsSound db db' (beats now id w lease b e) s = heartbeat-IsSound now id w lease db db' b s e
  Step-IsSound db db' (finishes now id status f e) s = finish-IsSound now id status f db db' tt s e
  Step-IsSound db db' (requests now new_id id action payload a e) s =
      request-IsSound now new_id id action payload db db' a s e
  Step-IsSound db db' (decides now id approved via memo e) s =
      decide-IsSound now id approved via memo db db' s e
  Step-IsSound db db' (reaps now locked n e) s = reap-IsSound now locked db db' n s e
  Step-IsSound db db' (records now id kind payload e) s =
      record_event-IsSound now id kind payload db db' tt s e
  Step-IsSound db db' (ticks now wall draw locked n e) s =
      tick-IsSound get_next now wall draw locked db db' n s e
  Step-IsSound db db' (tags_set id tags n e) s = set_tags-IsSound id tags db db' n s e
  Step-IsSound db db' (schedules_written t w e) s =
      subst IsSound (sym e) (with_schedules-IsSound t db s)

  pub Reach-IsSound : {db : Db} → Reach db → IsSound db
  unfolding trail_status find
  Reach-IsSound start = record { keyed = tt; rows = tt; audited = λ id. refl; legal_trail = tt }
  Reach-IsSound (next {db} {db'} r st) = Step-IsSound db db' st (Reach-IsSound r)

  -- In tables that the program can reach, the last status change of a run's events is the state of
  -- its row (and a run with no row has none), and the events of every run begin with queued and
  -- then follow the legal transitions, each from the state that the one before it gave.
  pub Reach-audited :
      {db : Db} (id : ℕ)
      → Reach db
      → (trail_status id db.events ≡ Option.map (λ r. r.status) (find id db.runs))
        × IsTrail db.events
  Reach-audited id r = let s = Reach-IsSound r in (s.audited id, s.legal_trail)

  -- In tables that the program can reach, a running run has a holder and a lease, and at least one
  -- attempt and no more than its maximum.
  pub Reach-held :
      {db : Db} (id : ℕ) (run : Run)
      → Reach db
      → find id db.runs ≡ some run
      → run.status ≡ running
      → (is_some run.locked_by ≡ true)
        × (is_some run.lease_expires_at ≡ true)
        × (0 < run.attempts)
        × (run.attempts ≤ run.max_attempts)
  Reach-held {db} id run r here is =
      let row = AllRows-find IsRow id db.runs (Reach-IsSound r).rows here in
      (row.held is, row.leased is, row.tried is, row.bounded)

  -- In tables that the program can reach, a run that is not running has no holder and no lease.
  pub Reach-released :
      {db : Db} (id : ℕ) (run : Run)
      → Reach db
      → find id db.runs ≡ some run
      → run.status ≢ running
      → (run.locked_by ≡ none) × (run.lease_expires_at ≡ none)
  Reach-released {db} id run r here is_not =
      (AllRows-find IsRow id db.runs (Reach-IsSound r).rows here).unheld is_not

  -- In tables that the program can reach, a queued run has an attempt left.
  pub Reach-room :
      {db : Db} (id : ℕ) (run : Run)
      → Reach db
      → find id db.runs ≡ some run
      → run.status ≡ queued
      → run.attempts < run.max_attempts
  Reach-room {db} id run r here is =
      (AllRows-find IsRow id db.runs (Reach-IsSound r).rows here).room_queued is
