-- ===== src/Migrations/Again.antt =====
-- src/octo/db.py, upgrade: a second upgrade.
use agentic_octopus.Prelude.{
  ◌≡◌, refl, true, Option, List, [], ◌∷◌, ◌++◌, arith, ==_refl, Text, text_eq, contains, All,
  Bool-cases, Option-cases, inl, inr, ◌⊎◌,
}
use agentic_octopus.Migrations.{
  Migration, Schema, Upgraded, applied, append_first, sql_error, duplicate_version, committed,
  apply_each, sorted_files, upgrade,
}

contains-append_left :
    (v w : Text) (l : List Text) → contains v l ≡ true → contains v (l ++ w ∷ []) ≡ true
unfolding contains
contains-append_left v w [] h = absurd (cc)
contains-append_left v w (u ∷ l) h = ground (arith, contains-append_left v w l)

contains-append_last : (v : Text) (l : List Text) → contains v (l ++ v ∷ []) ≡ true
unfolding contains
contains-append_last v [] = ground (arith, ==_refl v)
contains-append_last v (u ∷ l) = ground (arith, contains-append_last v l)

module _ {D : Type 0} (run_sql : Text → D → Option D) where
  -- The versions only grow.
  abbrev pub Recorded : List Text → Migration → Type 0
  Recorded versions m = contains m.stem versions ≡ true

  -- All that is recorded is passed over.
  skip_covered :
      (already : List Text) (ms : List Migration) (s : Schema D)
      → All (Recorded already) ms
      → apply_each run_sql already ms s ≡ (applied [], s)
  unfolding apply_each
  skip_covered already [] s h = refl
  skip_covered already (m ∷ ms) s (here, rest) = rw here (skip_covered already ms s rest)

  recorded : Migration → Schema D → D → Schema D
  recorded m s d = record { versions = s.versions ++ m.stem ∷ []; tables = d }

  append_first-eq-applied :
      (v : Text) (r : Upgraded × Schema D) {vs : List Text} {s' : Schema D}
      → append_first v r ≡ (applied vs, s')
      → (ws : List Text) × (r ≡ (applied ws, s'))
  unfolding append_first
  append_first-eq-applied v (applied ws, t) e = (ws, ground arith)
  append_first-eq-applied v (sql_error x, t) e = absurd (cc)
  append_first-eq-applied v (duplicate_version x, t) e = absurd (cc)

  -- A file that did not stop the loop was passed over or is recorded.
  apply_step :
      (already : List Text) (m : Migration) (ms : List Migration) (s : Schema D) {vs : List Text}
      {s' : Schema D}
      → apply_each run_sql already (m ∷ ms) s ≡ (applied vs, s')
      → ((contains m.stem already ≡ true) × (apply_each run_sql already ms s ≡ (applied vs, s')))
        ⊎ ((d : D) × (ws : List Text) × (apply_each run_sql already ms (recorded m s d)
              ≡ (applied ws, s')))
  unfolding apply_each committed recorded
  apply_step already m ms s {vs} {s'} e = elim (Bool-cases (contains m.stem already)) [
    | inl known ↦ inl (known, rw known at e)
    | inr new ↦ elim (Option-cases (run_sql m.sql s.tables)) [
      | inl failed ↦ absurd (cc (rw (new, failed) at e))
      | inr (d, ran) ↦ elim (Bool-cases (contains m.stem s.versions)) [
        | inl twice ↦ absurd (cc (rw (new, ran, twice) at e))
        | inr once ↦
            let (ws, done) =
              append_first-eq-applied m.stem (apply_each run_sql already ms (recorded m s d))
                (rw (ran, committed) at (rw (new, ran, once) at e)) in
            inr (d, ws, done)
      ]
    ]
  ]

  keeps :
      (already : List Text) (ms : List Migration) (s : Schema D) (v : Text) {vs : List Text}
      {s' : Schema D}
      → apply_each run_sql already ms s ≡ (applied vs, s')
      → contains v s.versions ≡ true
      → contains v s'.versions ≡ true
  unfolding apply_each recorded
  keeps already [] s v e h = ground arith
  keeps already (m ∷ ms) s v e h = elim (apply_step already m ms s e) [
    | inl (known, rest) ↦ keeps already ms s v rest h
    | inr (d, ws, rest) ↦
        keeps already ms (recorded m s d) v rest (contains-append_left v m.stem s.versions h)
  ]

  covers_files :
      (already : List Text) (ms : List Migration) (s : Schema D) {vs : List Text} {s' : Schema D}
      → ((v : Text) → contains v already ≡ true → contains v s.versions ≡ true)
      → apply_each run_sql already ms s ≡ (applied vs, s')
      → All (Recorded s'.versions) ms
  unfolding apply_each recorded
  covers_files already [] s sub e = tt
  covers_files already (m ∷ ms) s sub e = elim (apply_step already m ms s e) [
    | inl (known, rest) ↦
        (keeps already ms s m.stem rest (sub m.stem known), covers_files already ms s sub rest)
    | inr (d, ws, rest) ↦ (
      keeps already ms (recorded m s d) m.stem rest (contains-append_last m.stem s.versions),
      covers_files already ms (recorded m s d)
          (λ v h. contains-append_left v m.stem s.versions (sub v h)) rest,
    )
  ]

  -- After an upgrade that succeeded every file's version is recorded, and a second upgrade over the
  -- same files applies nothing and changes nothing.
  pub upgrade-again :
      (files : List Migration) (s s' : Schema D) (vs : List Text)
      → upgrade run_sql files s ≡ (applied vs, s')
      → All (Recorded s'.versions) (sorted_files files)
        × (upgrade run_sql files s' ≡ (applied [], s'))
  unfolding upgrade
  upgrade-again files s s' vs e =
      let all = covers_files s.versions (sorted_files files) s (λ v h. h) e in
      (all, skip_covered s'.versions (sorted_files files) s' all)
