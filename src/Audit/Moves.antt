-- ===== src/Audit/Moves.antt =====
-- The invariant under src/octo/models.py, transition.
use mathlib.Core.Option
use mathlib.Core.Path.{subst}
use agentic_octopus.Prelude.{ℕ, ◌≡◌, true, some, arith, nat_eq, Text, ap, sym}
use agentic_octopus.Prelude.Dict.{Dict}
use agentic_octopus.Prelude.Json.{Json}
use agentic_octopus.Status.{RunStatus, status_eq, status_beq_iff, allowed}
use agentic_octopus.Table.{find}
use agentic_octopus.Table.Laws.{find-update_where, IsKeyed-update_where, AllRows-update_where}
use agentic_octopus.Db.{Run, Db, ok}
use agentic_octopus.Transition.{transition, in_status}
use agentic_octopus.Transition.Outcome.{set_status, moved, transition-eq-ok}
use agentic_octopus.Audit.{trail_status, IsRow, IsSound}

module _ (now run_id : ℕ) (from to : RunStatus) (extra_set : Run → Run)
    (payload : Dict Text Json) where
  -- The row that moves stays consistent.
  abbrev pub KeepsRow : Type 0
  KeepsRow =
      (r : Run)
      → r.status ≡ from
      → IsRow r
      → IsRow (set_status now run_id from to extra_set payload r)

  moved-audited :
      (db : Db) {r : Run} (id : ℕ)
      → find run_id db.runs ≡ some r
      → r.status ≡ from
      → IsSound db
      → trail_status id (moved now run_id from to extra_set payload db).events
        ≡ Option.map (λ q. q.status) (find id (moved now run_id from to extra_set payload db).runs)
  unfolding moved trail_status
  moved-audited db {r} id here was s = ground (
    arith,
    s.audited id,
    find-update_where (in_status run_id from) (set_status now run_id from to extra_set payload) id
        db.runs,
    status_beq_iff r.status from,
  )

  pub moved-IsSound :
      (db : Db) {r : Run}
      → allowed from to ≡ true
      → find run_id db.runs ≡ some r
      → r.status ≡ from
      → KeepsRow
      → IsSound db
      → IsSound (moved now run_id from to extra_set payload db)
  unfolding moved
  moved-IsSound db {r} legal here was keep s = record {
    keyed =
        IsKeyed-update_where (in_status run_id from)
          (set_status now run_id from to extra_set payload) db.runs s.keyed;
    rows =
        AllRows-update_where IsRow (in_status run_id from)
          (set_status now run_id from to extra_set payload) db.runs
          (λ i q m. keep q (ground (arith, status_beq_iff q.status from))) s.rows;
    audited = λ id. moved-audited db id here was s;
    legal_trail = ((rw (s.audited run_id, here) (ap some was), legal), s.legal_trail);
  }

  -- A transition that goes through keeps the tables sound.
  pub transition-IsSound :
      (db : Db) {db' : Db} {u : Unit}
      → KeepsRow
      → IsSound db
      → transition now run_id from to extra_set payload db ≡ ok (u, db')
      → IsSound db'
  transition-IsSound db keep s e =
      let (r, here, was, legal, written) =
        transition-eq-ok now run_id from to extra_set payload db s.keyed e in
      subst IsSound (sym written) (moved-IsSound db legal here was keep s)
