-- ===== src/Db/Inversion.antt =====
-- What a transaction that returned has done, statement by statement.
use agentic_octopus.Prelude.{ℕ, ◌≡◌, refl, ap, none, ◌∷◌, arith, nat_eq}
use agentic_octopus.Table.{find, append}
use agentic_octopus.Db.Rows.{Run, EventBody, Approval, Db}
use agentic_octopus.Db.Transactions.{Tx, Result, ok, err, ◌>>=◌}
use agentic_octopus.Db.Statements.{insert_run, insert_event, insert_approval}

pub >>=-eq-ok :
    {A B : Type 0} (m : Tx A) (f : A → Tx B) (db : Db) {b : B} {db' : Db}
    → (m >>= f) db ≡ ok (b, db')
    → (a : A) × (mid : Db) × (m db ≡ ok (a, mid)) × (f a mid ≡ ok (b, db'))
>>=-eq-ok {A} {B} m f db {b} {db'} e = go (m db) refl e
  where
    go :
        (r : Result (A × Db))
        → m db ≡ r
        → ◌≡◌ {A = Result (B × Db)} (elim r [ ok (a, d) ↦ f a d | err x ↦ err x ]) (ok (b, db'))
        → (a : A) × (mid : Db) × (m db ≡ ok (a, mid)) × (f a mid ≡ ok (b, db'))
    go (ok (a, mid)) s t = (a, mid, s, t)
    go (err x) s t = absurd (cc)

-- A transaction goes on from what its first statement gave.
pub >>=-ok :
    {A B : Type 0} (m : Tx A) (f : A → Tx B) (db : Db) {a : A} {mid : Db}
    → m db ≡ ok (a, mid)
    → (m >>= f) db ≡ f a mid
>>=-ok {A} {B} m f db e =
    ap (λ (r : Result (A × Db)). elim r [ ok (b, d) ↦ f b d | err x ↦ err x ]) e

pub insert_run-eq-ok :
    (id : ℕ) (run : Run) (db : Db) {u : Unit} {db' : Db}
    → insert_run id run db ≡ ok (u, db')
    → (find id db.runs ≡ none) × (db' ≡ record db { runs = append id run db.runs })
unfolding insert_run
insert_run-eq-ok id run db e = ground arith

pub insert_event-eq-ok :
    (now id : ℕ) (body : EventBody) (db : Db) {u : Unit} {db' : Db}
    → insert_event now id body db ≡ ok (u, db')
    → db' ≡ record db { events = record { run_id = id; ts = now; body = body } ∷ db.events }
unfolding insert_event
insert_event-eq-ok now id body db e = ground arith

pub insert_approval-eq-ok :
    (id : ℕ) (a : Approval) (db : Db) {u : Unit} {db' : Db}
    → insert_approval id a db ≡ ok (u, db')
    → db' ≡ record db { approvals = append id a db.approvals }
unfolding insert_approval
insert_approval-eq-ok id a db e = ground arith
