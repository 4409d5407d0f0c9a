-- ===== src/Tests/Requests.antt =====
-- The providers, the executors, the registry and the tags on concrete requests.
use agentic_octopus.Prelude.{
  ℕ, ◌≡◌, inr, refl, Bool, true, false, Option, none, some, List, [], ◌∷◌, nat_eq, Text, text_beq,
  text_eq, lit, contains, All, starts_with, ends_with, take, split, ◌==◌, if◌then◌else◌,
}
use agentic_octopus.Prelude.Dict.{Dict, lookup, insert}
use agentic_octopus.Prelude.Json.{Json, null, str}
use agentic_octopus.Config.{Settings, default_settings, non_empty}
use agentic_octopus.Providers.Errors.{ok, err, paid_model_refused}
use agentic_octopus.Providers.Openrouter.{is_free, enforce_free, route_payload, resolve_model}
use agentic_octopus.Providers.Openrouter.{free_models}
use agentic_octopus.Providers.Ollama.{TagsCache}
use agentic_octopus.Providers.Base.{openrouter, route_chat_model, to_default, get_chat_provider}
use agentic_octopus.Providers.Guard.{IsFree, Guarded, named_models, posted-IsFree, route-Guarded}
use agentic_octopus.Db.{Trigger, Run}
use agentic_octopus.Queue.{new_run}
use agentic_octopus.Registry.{
  AgentManifest, LoadedAgent, Loaded, Entry, load_registry, load_dirs, sorted_dirs, model_validate,
  executor_known, schedule_is_valid_cron,
}
use agentic_octopus.Registry.Laws.{IsLoaded, load_registry-IsLoaded}
use agentic_octopus.Telemetry.{merge_tags}
use agentic_octopus.Telemetry.Laws.{IsShort, merge_tags-IsShort}
use agentic_octopus.Executor.{ExecStatus, returned}
use agentic_octopus.Executor.Openrouter.Refusal.{execute_refused}
use agentic_octopus.Executor.Openrouter
use agentic_octopus.Executor.Openrouter.{refused_message}
use agentic_octopus.Executor.Claude
use agentic_octopus.Executor.Claude.{
  Message, ResultMessage, result_message, other_message, no_result,
}
use agentic_octopus.Executor.Claude.Results.{last_result, outcome_or, execute-last_result}

abbrev ping : Dict Text Json
ping = (lit "model", str (lit "octo/auto")) ∷ []

posted-IsFree_example :
    All IsFree (named_models (route_payload default_settings ping))
    × (named_models (route_payload default_settings ping) ≡ (
        if lit "octo/auto" == lit "octo/auto"
        then take 3 (free_models (split b',' default_settings.openrouter_preferred_models))
        else lit "octo/auto" ∷ []))
unfolding lookup text_beq enforce_free
posted-IsFree_example = posted-IsFree default_settings ping (lit "octo/auto") refl refl refl refl

abbrev no_tags : TagsCache
no_tags = record { ts = 0; tags = [] }

routed :
    (route_chat_model default_settings (lit "default") 5 none no_tags).0
    ≡ ok (record {
      provider = openrouter;
      provider_name = lit "openrouter";
      model = lit "octo/auto";
    })
unfolding route_chat_model to_default get_chat_provider resolve_model enforce_free starts_with
    text_beq
routed = refl

route-Guarded_example :
    Guarded default_settings
      (lit "default")
      5
      none
      no_tags
      (record { provider = openrouter; provider_name = lit "openrouter"; model = lit "octo/auto" })
route-Guarded_example =
    route-Guarded default_settings (lit "default") 5 none no_tags
      (record { provider = openrouter; provider_name = lit "openrouter"; model = lit "octo/auto" })
      routed

abbrev manifest : AgentManifest
manifest = record {
  name = lit "echo";
  description = [];
  tools = [];
  executor = lit "openrouter";
  model = lit "acme/large";
  max_turns = 5;
  requires_approval = false;
  schedule = some (lit "0 6 * * *");
  params = null;
  output_dir = [];
}

abbrev agent : LoadedAgent
agent = record { manifest = manifest; prompt = lit "Echo."; path = lit "echo" }

abbrev dir : Entry
dir = record {
  name = lit "echo";
  is_dir = true;
  manifest_file = some (lit "name: echo");
  prompt_file = some (lit "Echo.");
}

abbrev decode : Text → Option AgentManifest
decode text = some manifest

abbrev always : Text → Bool
always expr = true

loaded : load_registry decode always (some (dir ∷ [])) ≡ Loaded.ok ((lit "echo", agent) ∷ [])
unfolding load_registry load_dirs sorted_dirs model_validate executor_known schedule_is_valid_cron
    insert text_beq contains
loaded = refl

load_registry-IsLoaded_example : All (IsLoaded decode always) ((lit "echo", agent) ∷ [])
load_registry-IsLoaded_example =
    load_registry-IsLoaded decode always (some (dir ∷ [])) ((lit "echo", agent) ∷ []) loaded

abbrev blank : Json → Text
blank j = lit "blank"

merge_tags-IsShort_example :
    All IsShort
      (merge_tags blank ((lit "surface", str (lit "api")) ∷ []) (some ((lit "team", null) ∷ [])))
merge_tags-IsShort_example =
    merge_tags-IsShort blank ((lit "surface", str (lit "api")) ∷ [])
      (some ((lit "team", null) ∷ []))

abbrev echo_run : Run
echo_run = new_run 10 (lit "echo") Trigger.api null none 2 []

abbrev answers : ℕ → Dict Text Json → ℕ × Text
answers status body = (status, lit "busy")

abbrev with_key : Settings
with_key = record default_settings { openrouter_api_key = lit "key" }

refused :
    enforce_free with_key (resolve_model with_key (lit "acme/large"))
    ≡ err (paid_model_refused (lit "acme/large"))
unfolding enforce_free resolve_model is_free text_beq ends_with starts_with
refused = refl

execute_refused_example :
    Openrouter.execute with_key
      (answers 200)
      (λ t. none)
      blank
      (λ n. [])
      (λ x. [])
      []
      echo_run
      agent
    ≡ record {
      emitted = [];
      written = [];
      ended = returned (record {
        status = ExecStatus.failed;
        result = none;
        error = some (
            if non_empty with_key.openrouter_api_key
            then refused_message (resolve_model with_key (lit "acme/large"))
            else lit "OPENROUTER_API_KEY not configured");
        cost_usd = none;
        session_id = none;
        model = none;
      });
    }
execute_refused_example =
    execute_refused with_key (answers 200) (λ t. none) blank (λ n. []) (λ x. []) [] echo_run agent
      (paid_model_refused (lit "acme/large")) (inr refused)

abbrev success : ResultMessage
success = record {
  subtype = lit "success";
  result = some (lit "fine");
  total_cost_usd = none;
  session_id = none;
}

abbrev session : List Message
session = result_message success ∷ other_message ∷ []

execute-last_result_example :
    (Claude.execute blank (lit "default") session none).ended
    ≡ returned (outcome_or (lit "default") no_result (last_result session))
execute-last_result_example = execute-last_result blank (lit "default") session
