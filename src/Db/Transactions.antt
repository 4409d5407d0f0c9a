-- ===== src/Db/Transactions.antt =====
-- A transaction returns the new tables, or raises, and then every write of it is rolled back. An
-- action is a sequence of transactions: what has been committed stays when a later one raises.
use agentic_octopus.Prelude.{ℕ, Text}
use agentic_octopus.Status.{RunStatus}
use agentic_octopus.Db.Rows.{Db}

pub data Error : Type 0 where
  -- `IllegalTransition`: the pair is not legal, or the row was not in the state
  illegal_pair : RunStatus → RunStatus → Error
  not_in_status : ℕ → RunStatus → Error
  -- `LookupError` of approvals.decide
  no_pending_approval : ℕ → Error
  assertion_error : Error
  value_error : Text → Error
  -- what the database raises on a repeated key and on a reference to a missing row
  unique_violation foreign_key_violation : Error

pub data Result (A : Type 0) : Type 0 where
  ok : A → Result A
  err : Error → Result A

abbrev pub Tx : Type 0 → Type 0
Tx A = Db → Result (A × Db)

module _ {A : Type 0} where
  abbrev pub pure : A → Tx A
  pure a db = ok (a, db)

  abbrev pub raise : Error → Tx A
  raise e db = err e

  abbrev pub gets : (Db → A) → Tx A
  gets f db = ok (f db, db)

infixl 5 ◌>>=◌ ◌>>◌
abbrev pub ◌>>=◌ : {A B : Type 0} → Tx A → (A → Tx B) → Tx B
◌>>=◌ m f db = elim (m db) [ ok (a, db') ↦ f a db' | err e ↦ err e ]

abbrev pub ◌>>◌ : {A B : Type 0} → Tx A → Tx B → Tx B
m >> k = m >>= λ _. k
