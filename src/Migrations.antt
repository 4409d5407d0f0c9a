-- ===== src/Migrations.antt =====
-- src/octo/db.py: upgrade. `run_sql` is the database on the text of a migration, and `none` is an
-- error of it; schema_migrations is the list of its versions. A loop that raises leaves what the
-- last commit left.
pub mod Again
use agentic_octopus.Prelude.{
  Bool, true, false, Option, none, some, List, [], ◌∷◌, ◌++◌, ◌==◌, Text, text_eq, lit, contains,
  text_lt, if◌then◌else◌,
}

-- A file of the directory: `path.stem`, and the text.
pub record Migration : Type 0 where
  pub stem : Text
  pub sql : Text

pub record Schema (D : Type 0) : Type 0 where
  pub versions : List Text
  pub tables : D

pub data Upgraded : Type 0 where
  applied : List Text → Upgraded
  sql_error : Text → Upgraded
  duplicate_version : Text → Upgraded

file_name : Migration → Text
file_name m = m.stem ++ lit ".sql"

insert_sorted : Migration → List Migration → List Migration
insert_sorted m [] = m ∷ []
insert_sorted m (n ∷ l) =
    if text_lt (file_name n) (file_name m) then n ∷ insert_sorted m l else m ∷ n ∷ l

-- `sorted(MIGRATIONS_DIR.glob("*.sql"))`
unfoldable pub sorted_files : List Migration → List Migration
unfolding insert_sorted file_name
sorted_files [] = []
sorted_files (m ∷ l) = insert_sorted m (sorted_files l)

-- `applied_now.append(…)` before the versions of the files behind.
unfoldable pub append_first : {D : Type 0} → Text → Upgraded × Schema D → Upgraded × Schema D
append_first v (applied vs, s) = (applied (v ∷ vs), s)
append_first v (sql_error e, s) = (sql_error e, s)
append_first v (duplicate_version e, s) = (duplicate_version e, s)

module _ {D : Type 0} (run_sql : Text → D → Option D) where
  -- One file: the statement, the INSERT with its primary key, and the commit.
  unfoldable pub committed : Migration → Schema D → Option D → Schema D
  committed m s none = s
  committed m s (some d) = record { versions = s.versions ++ m.stem ∷ []; tables = d }

  unfoldable pub apply_each : List Text → List Migration → Schema D → Upgraded × Schema D
  unfolding append_first
  apply_each already [] s = (applied [], s)
  apply_each already (m ∷ ms) s =
      let skipped = apply_each already ms s in
      let result = run_sql m.sql s.tables in
      let rest = apply_each already ms (committed m s result) in
      if contains m.stem already then skipped else elim result [
        | none ↦ (sql_error m.stem, s)
        | some d ↦
            if contains m.stem s.versions
            then (duplicate_version m.stem, s)
            else append_first m.stem rest
      ]

  unfoldable pub upgrade : List Migration → Schema D → Upgraded × Schema D
  upgrade files s = apply_each s.versions (sorted_files files) s
