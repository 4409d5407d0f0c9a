-- ===== src/Registry.antt =====
-- src/octo/registry.py: the agents of agents/<name>/agent.yaml and prompt.md.
-- The file system is the list of the entries of the directory. YAML and the field types of pydantic
-- are not the program's: `decode` reads a manifest's text, and `none` is a ValidationError or a
-- YAMLError. `cron_valid` is croniter.is_valid. The validators are the program's.
pub mod Laws
use agentic_octopus.Prelude.{
  ℕ, Bool, true, false, not, ◌&&◌, Option, none, some, List, [], ◌∷◌, ◌==◌, nat_eq, Text, text_eq,
  lit, text_lt, contains, if◌then◌else◌,
}
use agentic_octopus.Prelude.Dict.{Dict, insert}
use agentic_octopus.Prelude.Json.{Json}

abbrev pub known_executors : List Text
known_executors = lit "claude-sdk" ∷ lit "openrouter" ∷ []

pub record AgentManifest : Type 0 where
  pub name : Text
  pub description : Text
  pub tools : List Text
  pub executor : Text
  pub model : Text
  pub max_turns : ℕ
  pub requires_approval : Bool
  pub schedule : Option Text
  pub params : Json
  pub output_dir : Text

pub record LoadedAgent : Type 0 where
  pub manifest : AgentManifest
  pub prompt : Text
  pub path : Text

pub data LoadError : Type 0 where
  invalid_manifest : Text → LoadError
  unknown_executor : Text → LoadError
  invalid_cron : Text → LoadError
  name_mismatch : Text → Text → LoadError
  missing_prompt : Text → LoadError

pub data Loaded (A : Type 0) : Type 0 where
  ok : A → Loaded A
  err : LoadError → Loaded A

infixl 5 ◌>>=◌ ◌>>◌
abbrev pub ◌>>=◌ : {A B : Type 0} → Loaded A → (A → Loaded B) → Loaded B
ok a >>= f = f a
err e >>= f = err e

abbrev pub ◌>>◌ : {A B : Type 0} → Loaded A → Loaded B → Loaded B
m >> k = m >>= λ _. k

-- An entry of the directory: a file, or a directory with what it holds of the two files.
pub record Entry : Type 0 where
  pub name : Text
  pub is_dir : Bool
  pub manifest_file : Option Text
  pub prompt_file : Option Text

insert_sorted : Entry → List Entry → List Entry
insert_sorted e [] = e ∷ []
insert_sorted e (d ∷ l) = if text_lt d.name e.name then d ∷ insert_sorted e l else e ∷ d ∷ l

-- `sorted(p for p in agents_dir.iterdir() if p.is_dir())`
unfoldable pub sorted_dirs : List Entry → List Entry
unfolding insert_sorted text_lt
sorted_dirs [] = []
sorted_dirs (e ∷ l) = let rest = sorted_dirs l in if e.is_dir then insert_sorted e rest else rest

unfoldable pub executor_known : Text → Loaded Text
unfolding contains
executor_known v = if contains v known_executors then ok v else err (unknown_executor v)

module _ (decode : Text → Option AgentManifest) (cron_valid : Text → Bool) where
  unfoldable pub schedule_is_valid_cron : Option Text → Loaded (Option Text)
  schedule_is_valid_cron none = ok none
  schedule_is_valid_cron (some v) = if cron_valid v then ok (some v) else err (invalid_cron v)

  -- `AgentManifest.model_validate(yaml.safe_load(…))`
  unfoldable pub model_validate : Text → Loaded AgentManifest
  unfolding executor_known schedule_is_valid_cron
  model_validate text = elim (decode text) [
    | none ↦ err (invalid_manifest text)
    | some m ↦ do executor_known m.executor; schedule_is_valid_cron m.schedule; ok m
  ]

  with_prompt : AgentManifest → Entry → Option Text → Loaded LoadedAgent
  with_prompt m dir none = err (missing_prompt m.name)
  with_prompt m dir (some prompt) = ok (record { manifest = m; prompt = prompt; path = dir.name })

  load_agent : Entry → Text → Loaded LoadedAgent
  unfolding with_prompt model_validate
  load_agent dir text = do
    m ← model_validate text
    if m.name == dir.name
        then with_prompt m dir dir.prompt_file
        else err (name_mismatch m.name dir.name)

  -- One round of the loop; a directory with no agent.yaml is passed over.
  load_entry : Entry → Dict Text LoadedAgent → Option Text → Loaded (Dict Text LoadedAgent)
  unfolding load_agent
  load_entry dir registry none = ok registry
  load_entry dir registry (some text) = do
    agent ← load_agent dir text
    ok (insert agent.manifest.name agent registry)

  unfoldable pub load_dirs : List Entry → Dict Text LoadedAgent → Loaded (Dict Text LoadedAgent)
  unfolding load_entry
  load_dirs [] registry = ok registry
  load_dirs (dir ∷ dirs) registry = do
    registry' ← load_entry dir registry dir.manifest_file
    load_dirs dirs registry'

  -- `none` is a path that is no directory.
  unfoldable pub load_registry : Option (List Entry) → Loaded (Dict Text LoadedAgent)
  unfolding load_dirs
  load_registry none = ok []
  load_registry (some entries) = load_dirs (sorted_dirs entries) []
