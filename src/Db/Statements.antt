-- ===== src/Db/Statements.antt =====
-- The SQL statements that the program issues, on each table.
use agentic_octopus.Prelude.{ℕ, Bool, Option, none, some, ◌∷◌, nat_eq, is_some, if◌then◌else◌}
use agentic_octopus.Table.{find, append, update_where, count_where}
use agentic_octopus.Db.Rows.{Run, EventBody, Approval, Db}
use agentic_octopus.Db.Transactions.{Tx, unique_violation, foreign_key_violation, ok, err}

-- SELECT * FROM runs WHERE id = …
unfoldable pub find_run : ℕ → Tx (Option Run)
find_run id db = ok (find id db.runs, db)

-- runs.schedule_id REFERENCES schedules(id)
refers : Option ℕ → Db → Bool
refers none db = Bool.true
refers (some sid) db = is_some (find sid db.schedules)

-- INSERT INTO runs
unfoldable pub insert_run : ℕ → Run → Tx Unit
unfolding refers
insert_run id run db =
    if is_some (find id db.runs)
    then err unique_violation
    else if refers run.schedule_id db
    then ok (tt, record db { runs = append id run db.runs })
    else err foreign_key_violation

-- UPDATE runs SET … WHERE …, with its row count
unfoldable pub update_runs : (ℕ → Run → Bool) → (Run → Run) → Tx ℕ
update_runs p f db = ok (count_where p db.runs, record db { runs = update_where p f db.runs })

-- INSERT INTO run_events; run_id REFERENCES runs(id)
unfoldable pub insert_event : ℕ → ℕ → EventBody → Tx Unit
insert_event now id body db =
    if is_some (find id db.runs)
    then ok (tt, record db { events = record { run_id = id; ts = now; body = body } ∷ db.events })
    else err foreign_key_violation

-- INSERT INTO approvals; run_id REFERENCES runs(id)
unfoldable pub insert_approval : ℕ → Approval → Tx Unit
insert_approval id a db =
    if is_some (find id db.approvals)
    then err unique_violation
    else if is_some (find a.run_id db.runs)
    then ok (tt, record db { approvals = append id a db.approvals })
    else err foreign_key_violation

-- UPDATE approvals SET … WHERE …, with its row count
unfoldable pub update_approvals : (ℕ → Approval → Bool) → (Approval → Approval) → Tx ℕ
update_approvals p f db =
    ok (count_where p db.approvals, record db { approvals = update_where p f db.approvals })
