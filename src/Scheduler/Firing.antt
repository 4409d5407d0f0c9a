-- ===== src/Scheduler/Firing.antt =====
-- What a tick of the scheduler does to each schedule.
use agentic_octopus.Prelude.{
  ℕ, ◌+◌, ◌≡◌, ◌≢◌, refl, Bool, true, false, Option, none, some, [], ◌∷◌, arith, ◌==◌, nat_eq,
  nat_beq_iff, Text, length, if◌then◌else◌, Bool-cases, inl, inr, ◌∙◌, ap,
}
use mathlib.Core.Option
use agentic_octopus.Table.{Table, find, IsKeyed}
use agentic_octopus.Table.Laws.{find-update_where, find-append}
use agentic_octopus.Db.{Run, Schedule, Db, ok, >>=-eq-ok}
use agentic_octopus.Scheduler.{fire, fire_each, tick, rows_where, is_due, mark_fired}
use agentic_octopus.Scheduler.Outcome.{scheduled_run, fire-eq-ok}

-- A SELECT keeps the rows that meet its condition.
unfoldable pub kept : (ℕ → Schedule → Bool) → ℕ → Option Schedule → Option Schedule
kept p j none = none
kept p j (some s) = if p j s then some s else none

find-rows_where_absent :
    (p : ℕ → Schedule → Bool) (j : ℕ) (t : Table Schedule)
    → find j t ≡ none
    → find j (rows_where p t) ≡ none
unfolding find rows_where
find-rows_where_absent p j [] h = refl
find-rows_where_absent p j ((i, s) ∷ t) h = ground (arith, find-rows_where_absent p j t)

pub find-rows_where :
    (p : ℕ → Schedule → Bool) (j : ℕ) (t : Table Schedule)
    → IsKeyed t
    → find j (rows_where p t) ≡ kept p j (find j t)
unfolding find rows_where kept
find-rows_where p j [] h = refl
find-rows_where p j ((i, s) ∷ t) h =
    ground (arith, find-rows_where p j t h.1, find-rows_where_absent p j t, nat_beq_iff j i)

pub IsKeyed-rows_where :
    (p : ℕ → Schedule → Bool) (t : Table Schedule) → IsKeyed t → IsKeyed (rows_where p t)
unfolding rows_where
IsKeyed-rows_where p [] h = tt
IsKeyed-rows_where p ((i, s) ∷ t) h = elim (Bool-cases (p i s)) [
  | inl met ↦ rw met (find-rows_where_absent p i t h.0, IsKeyed-rows_where p t h.1)
  | inr not_met ↦ rw not_met (IsKeyed-rows_where p t h.1)
]

module _ (get_next : Text → Text → ℕ → Option ℕ) (now wall : ℕ) where
  -- One firing, on the schedule and the run with a given key.
  fire_other :
      (run_id sid j : ℕ) (s : Schedule) (db : Db) {db' : Db} {u : Unit}
      → fire get_next now wall run_id sid s db ≡ ok (u, db')
      → j ≢ sid
      → find j db'.schedules ≡ find j db.schedules
  fire_other run_id sid j s db {db'} e ne =
      let (next, at, fresh, written) = fire-eq-ok get_next now wall run_id sid s db e in
      ap (λ (d : Db). find j d.schedules) written
      ∙ find-update_where (λ i _. i == sid) (mark_fired now next run_id) j db.schedules
      ∙ other_key (find j db.schedules) (mark_fired now next run_id)
    where
      other_key :
          (o : Option Schedule) (f : Schedule → Schedule)
          → Option.map (λ r. if j == sid then f r else r) o ≡ o
      other_key none f = refl
      other_key (some r) f = ground arith

  fire-keeps_run :
      (run_id sid r : ℕ) (s : Schedule) (db : Db) {db' : Db} {u : Unit} {run : Run}
      → fire get_next now wall run_id sid s db ≡ ok (u, db')
      → find r db.runs ≡ some run
      → find r db'.runs ≡ some run
  fire-keeps_run run_id sid r s db {run = run} e here =
      let (next, at, fresh, written) = fire-eq-ok get_next now wall run_id sid s db e in
      ap (λ (d : Db). find r d.runs) written
      ∙ ground (arith, find-append run_id r (scheduled_run now sid s) db.runs fresh)

  -- A schedule has fired: a run of it stands in the queue, and the row names the run, the time and
  -- the next time.
  abbrev pub Fired : ℕ → Schedule → Db → Type 0
  Fired j s db' =
      (run next : ℕ) × (get_next s.cron_expr s.timezone wall ≡ some next)
      × (find run db'.runs ≡ some (scheduled_run now j s))
      × (find j db'.schedules ≡ some (mark_fired now next run s))

  fire-Fired :
      (run_id j : ℕ) (s : Schedule) (db : Db) {db' : Db} {u : Unit}
      → find j db.schedules ≡ some s
      → fire get_next now wall run_id j s db ≡ ok (u, db')
      → Fired j s db'
  fire-Fired run_id j s db h e =
      let (next, at, fresh, written) = fire-eq-ok get_next now wall run_id j s db e in
      (
        run_id,
        next,
        at,
        ap (λ (d : Db). find run_id d.runs) written
            ∙ ground (arith, find-append run_id run_id (scheduled_run now j s) db.runs fresh),
        ap (λ (d : Db). find j d.schedules) written
            ∙ ground (
              arith,
              find-update_where (λ i _. i == j) (mark_fired now next run_id) j db.schedules,
            ),
      )

  module _ (draw : ℕ → ℕ) where
    pub fire_each-other :
        (fired : ℕ) (due : Table Schedule) (j : ℕ) (db db' : Db) {n : ℕ}
        → find j due ≡ none
        → fire_each get_next now wall draw fired due db ≡ ok (n, db')
        → find j db'.schedules ≡ find j db.schedules
    unfolding fire_each find
    fire_each-other fired [] j db db' h e = ground arith
    fire_each-other fired ((sid, s) ∷ due) j db db' h e =
        let (u, mid, first, rest) =
          >>=-eq-ok (fire get_next now wall (draw fired) sid s)
            (λ _. fire_each get_next now wall draw (fired + 1) due) db e in
        fire_each-other (fired + 1) due j mid db' (ground arith) rest
        ∙ fire_other (draw fired) sid j s db first (ground arith)

    fire_each-keeps_run :
        (fired : ℕ) (due : Table Schedule) (r : ℕ) (db db' : Db) {n : ℕ} {run : Run}
        → fire_each get_next now wall draw fired due db ≡ ok (n, db')
        → find r db.runs ≡ some run
        → find r db'.runs ≡ some run
    unfolding fire_each
    fire_each-keeps_run fired [] r db db' e here = ground arith
    fire_each-keeps_run fired ((sid, s) ∷ due) r db db' e here =
        let (u, mid, first, rest) =
          >>=-eq-ok (fire get_next now wall (draw fired) sid s)
            (λ _. fire_each get_next now wall draw (fired + 1) due) db e in
        fire_each-keeps_run (fired + 1) due r mid db' rest
          (fire-keeps_run (draw fired) sid r s db first here)

    pub fire_each-length :
        (fired : ℕ) (due : Table Schedule) (db db' : Db) {n : ℕ}
        → fire_each get_next now wall draw fired due db ≡ ok (n, db')
        → n ≡ fired + length due
    unfolding fire_each
    fire_each-length fired [] db db' e = ground arith
    fire_each-length fired ((sid, s) ∷ due) db db' {n} e =
        let (u, mid, first, rest) =
          >>=-eq-ok (fire get_next now wall (draw fired) sid s)
            (λ _. fire_each get_next now wall draw (fired + 1) due) db e in
        omega (arith, fire_each-length (fired + 1) due mid db' {n = n} rest)

    pub fire_each-Fired :
        (fired : ℕ) (due : Table Schedule) (j : ℕ) (s : Schedule) (db db' : Db) {n : ℕ}
        → IsKeyed due
        → find j due ≡ some s
        → find j db.schedules ≡ some s
        → fire_each get_next now wall draw fired due db ≡ ok (n, db')
        → Fired j s db'
    unfolding fire_each find
    fire_each-Fired fired [] j s db db' k h at e = absurd (cc)
    fire_each-Fired fired ((sid, q) ∷ due) j s db db' {n} k h at e =
        let (u, mid, first, rest) =
          >>=-eq-ok (fire get_next now wall (draw fired) sid q)
            (λ _. fire_each get_next now wall draw (fired + 1) due) db e in
        elim (Bool-cases (j == sid)) [
          | inl here ↦
              let j≡sid : j ≡ sid = ground (arith, nat_beq_iff j sid) in
              let q≡s : q ≡ s = ground arith in
              let (run, next, stamp, queued, marked) =
                fire-Fired (draw fired) j s db {db' = mid} {u = u} at (cc) in
              (
                run,
                next,
                stamp,
                fire_each-keeps_run (fired + 1) due run mid db' {n = n} rest queued,
                fire_each-other (fired + 1) due j mid db' {n = n} (ap (λ i. find i due) j≡sid ∙ k.0)
                      rest
                    ∙ marked,
              )
          | inr there ↦
              fire_each-Fired (fired + 1) due j s mid db' {n = n} k.1 (ground arith)
                (fire_other (draw fired) sid j q db first (ground arith) ∙ at) rest
        ]

    -- When a tick returns over a keyed table of schedules, it returns the number of schedules that
    -- are enabled, due and unlocked, and each such schedule stands behind a queued run of it and
    -- names that run, the time of the tick and the next fire time.
    pub tick-fires_due :
        (locked : ℕ → Bool) (j : ℕ) (s : Schedule) (db db' : Db) {n : ℕ}
        → IsKeyed db.schedules
        → find j db.schedules ≡ some s
        → is_due now locked j s ≡ true
        → tick get_next now wall draw locked db ≡ ok (n, db')
        → (n ≡ length (rows_where (is_due now locked) db.schedules)) × Fired j s db'
    unfolding tick kept
    tick-fires_due locked j s db db' {n} k h d e =
        let due = rows_where (is_due now locked) db.schedules in
        (
          omega (arith, fire_each-length 0 due db db' {n = n} e),
          fire_each-Fired 0 due j s db db' {n = n}
              (IsKeyed-rows_where (is_due now locked) db.schedules k)
              (find-rows_where (is_due now locked) j db.schedules k ∙ rw (h, d) refl) h e,
        )

    -- When a tick returns over a keyed table of schedules, a schedule that is disabled, not yet due
    -- or locked by another transaction is unchanged.
    pub tick-keeps_others :
        (locked : ℕ → Bool) (j : ℕ) (s : Schedule) (db db' : Db) {n : ℕ}
        → IsKeyed db.schedules
        → find j db.schedules ≡ some s
        → is_due now locked j s ≡ false
        → tick get_next now wall draw locked db ≡ ok (n, db')
        → find j db'.schedules ≡ some s
    unfolding tick kept
    tick-keeps_others locked j s db db' {n} k h d e =
        fire_each-other 0 (rows_where (is_due now locked) db.schedules) j db db' {n = n}
          (find-rows_where (is_due now locked) j db.schedules k ∙ rw (h, d) refl) e
        ∙ h
