-- ===== src/Registry/Laws.antt =====
-- What a registry that loads holds.
use mathlib.Core.Path.{subst}
use agentic_octopus.Prelude.{
  ◌≡◌, refl, sym, Bool, true, Option, none, some, List, [], ◌∷◌, arith, ◌==◌, Text, text_eq,
  text_beq_iff, All, Bool-cases, inl, inr, contains, if◌then◌else◌,
}
use agentic_octopus.Prelude.Dict.{Dict, insert, All-insert}
use agentic_octopus.Registry.{
  known_executors, AgentManifest, LoadedAgent, Loaded, ok, err, ◌>>=◌, ◌>>◌, Entry, sorted_dirs,
  executor_known, schedule_is_valid_cron, model_validate, with_prompt, load_agent, load_entry,
  load_dirs, load_registry, name_mismatch,
}

>>=-eq-ok :
    {A B : Type 0} (m : Loaded A) (f : A → Loaded B) {b : B}
    → m >>= f ≡ ok b
    → (a : A) × (m ≡ ok a) × (f a ≡ ok b)
>>=-eq-ok (ok a) f e = (a, refl, e)
>>=-eq-ok (err x) f e = absurd (cc)

module _ (decode : Text → Option AgentManifest) (cron_valid : Text → Bool) where
  -- The schedule is absent or a valid cron expression.
  abbrev pub IsScheduled : Option Text → Type 0
  IsScheduled none = Unit
  IsScheduled (some expr) = cron_valid expr ≡ true

  abbrev pub IsLoaded : Text × LoadedAgent → Type 0
  IsLoaded (key, a) =
      (a.manifest.name ≡ key)
      × (a.path ≡ key)
      × (contains a.manifest.executor known_executors ≡ true)
      × IsScheduled a.manifest.schedule

  executor_known-eq-ok :
      (v : Text) {u : Text} → executor_known v ≡ ok u → contains v known_executors ≡ true
  unfolding executor_known
  executor_known-eq-ok v e = ground arith

  schedule-eq-ok :
      (s : Option Text) {u : Option Text}
      → schedule_is_valid_cron decode cron_valid s ≡ ok u
      → IsScheduled s
  unfolding schedule_is_valid_cron
  schedule-eq-ok none e = tt
  schedule-eq-ok (some expr) e = ground arith

  -- A manifest that is read passed both validators.
  validated :
      (r : Option AgentManifest) (text : Text) {m : AgentManifest}
      → decode text ≡ r
      → model_validate decode cron_valid text ≡ ok m
      → (contains m.executor known_executors ≡ true) × IsScheduled m.schedule
  unfolding model_validate
  validated none text d e = absurd (cc (rw (d, model_validate) at e))
  validated (some q) text {m} d e =
      let e' : (executor_known q.executor
            >> (schedule_is_valid_cron decode cron_valid q.schedule >> ok q))
          ≡ ok m =
        rw (d, model_validate) at e in
      let (_, known, rest) =
        >>=-eq-ok (executor_known q.executor)
          (λ _. schedule_is_valid_cron decode cron_valid q.schedule >> ok q) e' in
      let (_, valid, same) =
        >>=-eq-ok (schedule_is_valid_cron decode cron_valid q.schedule) (λ _. ok q) rest in
      let q≡m : q ≡ m = ground arith in
      subst (λ n. (contains n.executor known_executors ≡ true) × IsScheduled n.schedule) q≡m
        (executor_known-eq-ok q.executor known, schedule-eq-ok q.schedule valid)

  load_agent-eq-ok :
      (dir : Entry) (text : Text) {a : LoadedAgent}
      → load_agent decode cron_valid dir text ≡ ok a
      → IsLoaded (a.manifest.name, a)
  unfolding load_agent with_prompt
  load_agent-eq-ok dir text {a} e =
      let (m, read, rest) =
        >>=-eq-ok (model_validate decode cron_valid text)
          (λ m.
            if m.name == dir.name
            then with_prompt decode cron_valid m dir dir.prompt_file
            else err (name_mismatch m.name dir.name))
          e in
      let (known, valid) = validated (decode text) text refl read in
      elim (Bool-cases (m.name == dir.name)) [
        | inl named ↦
            prompted m dir.prompt_file known valid ((text_beq_iff m.name dir.name).0 named)
              (rw named at rest)
        | inr other ↦ absurd (cc (rw other at rest))
      ]
    where
      prompted :
          (m : AgentManifest) (p : Option Text)
          → contains m.executor known_executors ≡ true
          → IsScheduled m.schedule
          → m.name ≡ dir.name
          → with_prompt decode cron_valid m dir p ≡ ok a
          → IsLoaded (a.manifest.name, a)
      prompted m none known valid named made = absurd (cc)
      prompted m (some prompt) known valid named made =
          subst (λ (b : LoadedAgent). IsLoaded (b.manifest.name, b))
            {x = record { manifest = m; prompt = prompt; path = dir.name }} {y = a} (ground arith)
            (refl, sym named, known, valid)

  load_dirs-IsLoaded :
      (dirs : List Entry) (registry : Dict Text LoadedAgent) {out : Dict Text LoadedAgent}
      → All IsLoaded registry
      → load_dirs decode cron_valid dirs registry ≡ ok out
      → All IsLoaded out
  unfolding load_dirs load_entry
  load_dirs-IsLoaded [] registry h e = subst (All IsLoaded) (ground arith) h
  load_dirs-IsLoaded (dir ∷ dirs) registry {out} h e =
      let (mid, first, rest) =
        >>=-eq-ok (load_entry decode cron_valid dir registry dir.manifest_file)
          (load_dirs decode cron_valid dirs) e in
      load_dirs-IsLoaded dirs mid (entered dir.manifest_file first) rest
    where
      entered :
          (manifest : Option Text) {next : Dict Text LoadedAgent}
          → load_entry decode cron_valid dir registry manifest ≡ ok next
          → All IsLoaded next
      entered none made = subst (All IsLoaded) (ground arith) h
      entered (some text) made =
          let (a, loaded, done) =
            >>=-eq-ok (load_agent decode cron_valid dir text)
              (λ agent. ok (insert agent.manifest.name agent registry)) made in
          subst (All IsLoaded) (ground arith)
            (All-insert IsLoaded a.manifest.name a registry (load_agent-eq-ok dir text loaded) h)

  -- Every agent of a registry that loads stands under its own name, which is the name of its
  -- directory, has an executor that the program knows, and no schedule or a valid one.
  pub load_registry-IsLoaded :
      (entries : Option (List Entry)) (out : Dict Text LoadedAgent)
      → load_registry decode cron_valid entries ≡ ok out
      → All IsLoaded out
  unfolding load_registry
  load_registry-IsLoaded none out e = subst (All IsLoaded) {x = []} (ground arith) tt
  load_registry-IsLoaded (some entries) out e = load_dirs-IsLoaded (sorted_dirs entries) [] tt e
