-- ===== src/Scheduler/Again.antt =====
-- src/octo/worker/scheduler.py, tick: a second tick at the same time.
use agentic_octopus.Prelude.{
  ℕ, ◌+◌, ◌≡◌, ◌<◌, ◌≤◌, refl, sym, ap, ◌∙◌, Bool, false, Option, none, some, List, [], ◌∷◌, arith,
  ◌==◌, nat_eq, nat_beq_iff, Text, if◌then◌else◌, Option-cases, Bool-cases, inl, inr,
}
use mathlib.Core.Path.{subst}
use agentic_octopus.Table.{Table, find, IsKeyed}
use agentic_octopus.Table.Laws.{IsKeyed-update_where}
use agentic_octopus.Db.{Schedule, Db, ok, >>=-eq-ok}
use agentic_octopus.Scheduler.{fire, fire_each, tick, rows_where, is_due, mark_fired}
use agentic_octopus.Scheduler.Outcome.{fire-eq-ok}
use agentic_octopus.Scheduler.Firing.{
  fire_each-Fired, fire_each-other, kept, find-rows_where, IsKeyed-rows_where,
}

-- No row meets the condition if none that is found does.
rows_where-none :
    (p : ℕ → Schedule → Bool) (t : Table Schedule)
    → IsKeyed t
    → ((j : ℕ) (s : Schedule) → find j t ≡ some s → p j s ≡ false)
    → rows_where p t ≡ []
unfolding rows_where find
rows_where-none p [] k h = refl
rows_where-none p ((i, s) ∷ t) k h =
    rw (h i s (ground (arith, nat_beq_iff i i)))
      (rows_where-none p t k.1 (λ j q at. h j q (behind j q at)))
  where
    behind :
        (j : ℕ) (q : Schedule) → find j t ≡ some q → (if j == i then some s else find j t) ≡ some q
    behind j q at = ground (arith, k.0, nat_beq_iff j i, at)

module _ (get_next : Text → Text → ℕ → Option ℕ) (now wall : ℕ) where
  fire_each-IsKeyed :
      (draw : ℕ → ℕ) (fired : ℕ) (due : List (ℕ × Schedule)) (db db' : Db) {n : ℕ}
      → IsKeyed db.schedules
      → fire_each get_next now wall draw fired due db ≡ ok (n, db')
      → IsKeyed db'.schedules
  unfolding fire_each
  fire_each-IsKeyed draw fired [] db db' k e =
      subst (λ (d : Db). IsKeyed d.schedules) {x = db} {y = db'} (ground arith) k
  fire_each-IsKeyed draw fired ((sid, s) ∷ due) db db' {n} k e =
      let (u, mid, first, rest) =
        >>=-eq-ok (fire get_next now wall (draw fired) sid s)
          (λ _. fire_each get_next now wall draw (fired + 1) due) db e in
      let (next, at, fresh, written) = fire-eq-ok get_next now wall (draw fired) sid s db first in
      fire_each-IsKeyed draw (fired + 1) due mid db' {n = n}
        (subst (λ (d : Db). IsKeyed d.schedules) (sym written)
          (IsKeyed-update_where (λ i _. i == sid) (mark_fired now next (draw fired)) db.schedules
            k))
        rest

  module _
      (after : (expr timezone : Text) (t next : ℕ)
        → get_next expr timezone t ≡ some next
        → t < next)
      (clocks : now ≤ wall) where
    not_due :
        (draw : ℕ → ℕ) (locked : ℕ → Bool) (db db' : Db) {n : ℕ}
        → IsKeyed db.schedules
        → fire_each get_next now wall draw 0 (rows_where (is_due now (λ i. false)) db.schedules) db
          ≡ ok (n, db')
        → (j : ℕ) (q : Schedule) → find j db'.schedules ≡ some q
        → is_due now locked j q ≡ false
    unfolding kept
    not_due draw locked db db' {n} k e j q at =
        let due = rows_where (is_due now (λ i. false)) db.schedules in
        let seen = find-rows_where (is_due now (λ i. false)) j db.schedules k in
        elim (Option-cases (find j db.schedules)) [
          | inl absent ↦ absurd (
              let gone : find j due ≡ none = seen ∙ rw absent refl in
              let same : find j db'.schedules ≡ find j db.schedules =
                fire_each-other get_next now wall draw 0 due j db db' {n = n} gone e in
              cc)
          | inr (s, here) ↦ elim (Bool-cases (is_due now (λ i. false) j s)) [
            | inl ready ↦
                let (run, next, stamp, queued, marked) =
                  fire_each-Fired get_next now wall draw 0 due j s db db' {n = n}
                    (IsKeyed-rows_where (is_due now (λ i. false)) db.schedules k)
                    (seen ∙ rw (here, ready) refl) here e in
                let same : q ≡ mark_fired now next run s = ground (arith, marked, at) in
                rw same (ground (arith, after s.cron_expr s.timezone wall next stamp, clocks))
            | inr idle ↦
                let same : find j db'.schedules ≡ find j db.schedules =
                  fire_each-other get_next now wall draw 0 due j db db' {n = n}
                    (seen ∙ rw (here, idle) refl) e in
                let q≡s : q ≡ s = ground (arith, same, here, at) in rw q≡s (ground (arith, idle))
          ]
        ]

    -- If croniter's next time is after the time it is asked about and the process clock is not behind
    -- the database's, then after a tick over a keyed table of schedules with no row locked, a second
    -- tick at the same database time fires nothing and changes nothing.
    pub tick-again :
        (draw draw' : ℕ → ℕ) (locked : ℕ → Bool) (wall' : ℕ) (db db' : Db) {n : ℕ}
        → IsKeyed db.schedules
        → tick get_next now wall draw (λ i. false) db ≡ ok (n, db')
        → tick get_next now wall' draw' locked db' ≡ ok (0, db')
    unfolding tick
    tick-again draw draw' locked wall' db db' {n} k e =
        let due = rows_where (is_due now (λ i. false)) db.schedules in
        let none_due : rows_where (is_due now locked) db'.schedules ≡ [] =
          rows_where-none (is_due now locked) db'.schedules
            (fire_each-IsKeyed draw 0 due db db' {n = n} k e)
            (not_due draw locked db db' {n = n} k e) in
        ap (λ l. fire_each get_next now wall' draw' 0 l db') none_due ∙ nothing
      where
        nothing : fire_each get_next now wall' draw' 0 [] db' ≡ ok (0, db')
        nothing = unfold fire_each in refl
