-- ===== src/Routes/Writes.antt =====
-- src/octo/api/routes.py and src/octo/worker/scheduler.py: what the routes write to the schedules.
use mathlib.Core.Path.{subst}
use agentic_octopus.Prelude.{
  ℕ, ◌+◌, ◌≡◌, inl, inr, refl, ap, sym, ◌∙◌, Bool, true, not, Option, none, some, List, [], ◌∷◌,
  arith, Text, text_eq, lit, is_some, Bool-cases, Option-cases, ◌==◌, nat_eq,
}
use agentic_octopus.Prelude.Dict.{Dict}
use agentic_octopus.Prelude.Json.{Json}
use agentic_octopus.Config.{Settings}
use agentic_octopus.Registry.{LoadedAgent}
use agentic_octopus.Table.{Table, find, append, count_where}
use agentic_octopus.Db.{Schedule, Db, ok, >>=-eq-ok}
use agentic_octopus.Scheduler.{
  rows_where, compute_next, truthy, default_schedule, insert_default, sync_entry, sync_each,
  sync_from_registry, same_schedule,
}
use agentic_octopus.Audit.Written.{Written, kept, added, enabled_again, behind}
use agentic_octopus.Routes.{same_row, upsert_schedule, insert_schedule}

rows_where-empty :
    (p : ℕ → Schedule → Bool) (t : Table Schedule) → rows_where p t ≡ [] → count_where p t ≡ 0
unfolding rows_where count_where
rows_where-empty p [] e = refl
rows_where-empty p ((j, s) ∷ t) e = ground (arith, rows_where-empty p t)

module _ (get_next : Text → Text → ℕ → Option ℕ) where
  -- A transaction that writes to the schedules alone, and what it may write there.
  abbrev pub WritesSchedules : Db → Db → Type 0
  WritesSchedules db db' =
      (db' ≡ record db { schedules = db'.schedules }) × Written db.schedules db'.schedules

  WritesSchedules-trans :
      (a b c : Db) → WritesSchedules a b → WritesSchedules b c → WritesSchedules a c
  WritesSchedules-trans a b c (e, w) (f, v) =
      (f ∙ ap (λ (d : Db). record d { schedules = c.schedules }) e, behind w v)

  writes :
      (a b : Db) (t : Table Schedule)
      → b ≡ record a { schedules = t }
      → Written a.schedules t
      → WritesSchedules a b
  writes a b t e w = subst (WritesSchedules a) (sym e) (refl, w)

  writes_nothing : (a b : Db) → b ≡ a → WritesSchedules a b
  writes_nothing a b e = writes a b a.schedules e kept

  insert_default-WritesSchedules :
      (id : ℕ) (agent expr : Text) (params : Json) (next : ℕ) (db db' : Db) (n : ℕ)
      → insert_default get_next id agent expr params next db ≡ ok (n, db')
      → WritesSchedules db db'
  unfolding insert_default
  insert_default-WritesSchedules id agent expr params next db db' n e =
      elim (Bool-cases (not (count_where (same_schedule get_next agent expr) db.schedules == 0))) [
        | inl taken ↦ writes_nothing db db' (ground (arith, taken))
        | inr free ↦ elim (Bool-cases (is_some (find id db.schedules))) [
          | inl used ↦ absurd (ground (arith, free, used))
          | inr fresh ↦
              writes db db'
                (append id (default_schedule get_next agent expr params next) db.schedules)
                (ground (arith, free, fresh))
                (added id (default_schedule get_next agent expr params next) (ground (arith, fresh))
                  (ground (arith, free)) refl refl refl)
        ]
      ]

  compute_next-same :
      (wall : ℕ) (expr timezone : Text) (db db' : Db) (t : ℕ)
      → compute_next get_next wall expr timezone db ≡ ok (t, db')
      → db' ≡ db
  unfolding compute_next
  compute_next-same wall expr timezone db db' t e =
      elim (Option-cases (get_next expr timezone wall)) [
        | inl never ↦ absurd (ground (arith, never))
        | inr (next, at) ↦ ground (arith, at)
      ]

  sync_entry-WritesSchedules :
      (wall id : ℕ) (name : Text) (agent : LoadedAgent) (o : Option Text) (db db' : Db)
      (l : List (Text × Text))
      → sync_entry get_next wall id name agent o db ≡ ok (l, db')
      → WritesSchedules db db'
  unfolding sync_entry
  sync_entry-WritesSchedules wall id name agent none db db' l e =
      writes_nothing db db' (ground arith)
  sync_entry-WritesSchedules wall id name agent (some expr) db db' l e =
      let (next, first, computed, rest) =
        >>=-eq-ok (compute_next get_next wall expr (lit "UTC")) _ db e in
      let (n, mid, inserted, last) =
        >>=-eq-ok (insert_default get_next id name expr agent.manifest.params next) _ first rest in
      let same = compute_next-same wall expr (lit "UTC") db first next computed in
      let written =
        insert_default-WritesSchedules id name expr agent.manifest.params next first mid n
          inserted in
      WritesSchedules-trans db first db' (writes_nothing db first same) (
        WritesSchedules-trans first mid db' written (writes_nothing mid db' (ground (arith, last))))

  sync_each-WritesSchedules :
      (wall : ℕ) (draw : ℕ → ℕ) (n : ℕ) (registry : Dict Text LoadedAgent) (db db' : Db)
      (l : List (Text × Text))
      → sync_each get_next wall draw n registry db ≡ ok (l, db')
      → WritesSchedules db db'
  unfolding sync_each
  sync_each-WritesSchedules wall draw n [] db db' l e = writes_nothing db db' (ground arith)
  sync_each-WritesSchedules wall draw n ((name, agent) ∷ rest) db db' l e =
      let (here, mid, first, after) =
        >>=-eq-ok (sync_entry get_next wall (draw n) name agent (truthy agent.manifest.schedule)) _
          db e in
      let (more, last, then_, end) =
        >>=-eq-ok (sync_each get_next wall draw (n + 1) rest) _ mid after in
      WritesSchedules-trans db mid db'
        (sync_entry-WritesSchedules wall (draw n) name agent (truthy agent.manifest.schedule) db mid
          here first)
        (sync_each-WritesSchedules wall draw (n + 1) rest mid db' more (ground (arith, then_)))

  pub sync-WritesSchedules :
      (wall : ℕ) (draw : ℕ → ℕ) (registry : Dict Text LoadedAgent) (db db' : Db)
      (l : List (Text × Text))
      → sync_from_registry get_next wall draw registry db ≡ ok (l, db')
      → WritesSchedules db db'
  unfolding sync_from_registry
  sync-WritesSchedules wall draw registry = sync_each-WritesSchedules wall draw 0 registry

  upsert-WritesSchedules :
      (id : ℕ) (s : Schedule) (db db' : Db) (n : ℕ)
      → s.enabled ≡ true
      → s.last_run_at ≡ none
      → s.last_run_id ≡ none
      → upsert_schedule id s db ≡ ok (n, db')
      → WritesSchedules db db'
  unfolding upsert_schedule
  upsert-WritesSchedules id s db db' n on fresh_at fresh_id e =
      by (rows_where (same_row s.agent s.cron_expr) db.schedules) refl
    where
      by :
          (l : List (ℕ × Schedule))
          → rows_where (same_row s.agent s.cron_expr) db.schedules ≡ l
          → WritesSchedules db db'
      by [] nobody = elim (Bool-cases (is_some (find id db.schedules))) [
        | inl used ↦ absurd (ground (arith, nobody, used))
        | inr free ↦ writes db db' (append id s db.schedules) (ground (arith, nobody, free)) (
            added id s (ground (arith, free))
              (rows_where-empty (same_row s.agent s.cron_expr) db.schedules nobody) on fresh_at
              fresh_id)
      ]
      by (r ∷ l) somebody =
          writes db db' _ (ground (arith, somebody)) (enabled_again s.agent s.cron_expr)

  pub insert_schedule-WritesSchedules :
      (settings : Settings) (registry : Dict Text LoadedAgent) (cron_valid : Text → Bool)
      (now wall : ℕ) (draw : ℕ → ℕ) (agent expr timezone : Text) (params : Json) (db db' : Db)
      (n : ℕ)
      → insert_schedule settings registry get_next cron_valid now wall draw agent expr timezone
          params db
        ≡ ok (n, db')
      → WritesSchedules db db'
  unfolding insert_schedule
  insert_schedule-WritesSchedules settings registry cron_valid now wall draw agent expr timezone
        params db db' n e =
      let (next, first, computed, rest) =
        >>=-eq-ok (compute_next get_next wall expr timezone) _ db e in
      WritesSchedules-trans db first db'
        (writes_nothing db first (compute_next-same wall expr timezone db first next computed))
        (upsert-WritesSchedules (draw 0) _ first db' n refl refl refl rest)
