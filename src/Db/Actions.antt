-- ===== src/Db/Actions.antt =====
-- A call that makes several transactions: what was committed stays when a later one raises.
use mathlib.Core.Path.{◌≡◌, ap}
use agentic_octopus.Db.Rows.{Db}
use agentic_octopus.Db.Transactions.{Error, Result, ok, err, Tx}

abbrev pub Action : Type 0 → Type 0
Action A = Db → Result A × Db

committed : {A : Type 0} → Db → Result (A × Db) → Result A × Db
committed db (ok (a, db')) = (ok a, db')
committed db (err e) = (err e, db)

module _ {A : Type 0} where
  -- A transaction commits, or is rolled back and raises.
  unfoldable pub commit : Tx A → Action A
  unfolding committed
  commit m db = committed db (m db)

  abbrev pub pure : A → Action A
  pure a db = (ok a, db)

  abbrev pub raise : Error → Action A
  raise e db = (err e, db)

  abbrev pub catch : (Error → A) → Result A × Db → Result A × Db
  catch f (ok a, db) = (ok a, db)
  catch f (err e, db) = (ok (f e), db)

-- The rest of a call after one of its steps.
abbrev pub continue : {A B : Type 0} → Result A × Db → (A → Action B) → Result B × Db
continue (ok a, db) f = f a db
continue (err e, db) f = (err e, db)

infixl 5 ◌>>=◌ ◌>>◌
abbrev pub ◌>>=◌ : {A B : Type 0} → Action A → (A → Action B) → Action B
◌>>=◌ m f db = continue (m db) f

abbrev pub ◌>>◌ : {A B : Type 0} → Action A → Action B → Action B
m >> k = m >>= λ _. k

-- What other processes commit before the next statement.
abbrev pub between : (Db → Db) → Action Unit
between f db = (ok tt, f db)

pub commit-eq-ok :
    {A : Type 0} (m : Tx A) (db : Db) {a : A} {db' : Db}
    → m db ≡ ok (a, db')
    → commit m db ≡ (ok a, db')
unfolding commit
commit-eq-ok m db e = rw (e, committed)

pub commit-eq-err :
    {A : Type 0} (m : Tx A) (db : Db) {e : Error} → m db ≡ err e → commit m db ≡ (err e, db)
unfolding commit
commit-eq-err m db h = rw (h, committed)

-- A step that returned, or raised, decides how the call goes on.
pub >>=-step :
    {A B : Type 0} (m : Action A) (f : A → Action B) (db : Db) {r : Result A × Db}
    → m db ≡ r
    → (m >>= f) db ≡ continue r f
>>=-step m f db e = ap (λ q. continue q f) e
