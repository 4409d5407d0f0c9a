-- ===== src/Tests/Upgrades.antt =====
-- An upgrade of a new database with two migrations, and the next one.
use agentic_octopus.Prelude.{
  ◌≡◌, ◌+◌, ℕ, refl, Option, some, List, [], ◌∷◌, Text, text_beq, text_eq, lit, All, contains,
  text_lt,
}
use agentic_octopus.Migrations.{
  Migration, Schema, applied, apply_each, sorted_files, upgrade, committed,
}
use agentic_octopus.Migrations.Again.{Recorded, upgrade-again}

-- A database that counts the statements.
abbrev counting : Text → ℕ → Option ℕ
counting sql n = some (n + 1)

abbrev files : List Migration
files =
    record { stem = lit "0002_chat"; sql = lit "CREATE TABLE messages ();" }
    ∷ record { stem = lit "0001_init"; sql = lit "CREATE TABLE runs ();" }
    ∷ []

abbrev fresh : Schema ℕ
fresh = record { versions = []; tables = 0 }

abbrev upgraded : Schema ℕ
upgraded = record { versions = lit "0001_init" ∷ lit "0002_chat" ∷ []; tables = 2 }

upgraded_once :
    upgrade counting files fresh ≡ (applied (lit "0001_init" ∷ lit "0002_chat" ∷ []), upgraded)
unfolding upgrade apply_each sorted_files committed text_lt text_beq contains
upgraded_once = refl

upgrade-again_example :
    All (Recorded counting upgraded.versions) (sorted_files files)
    × (upgrade counting files upgraded ≡ (applied [], upgraded))
upgrade-again_example =
    upgrade-again counting files fresh upgraded (lit "0001_init" ∷ lit "0002_chat" ∷ [])
      upgraded_once
