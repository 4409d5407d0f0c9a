-- ===== src/Executor/Openrouter/Refusal.antt =====
-- What the executor does before a request may cost anything.
use agentic_octopus.Prelude.{
  ℕ, ◌≡◌, ◌⊎◌, refl, false, Option, none, some, [], Text, lit, if◌then◌else◌, Bool-cases, inl, inr,
}
use agentic_octopus.Prelude.Dict.{Dict}
use agentic_octopus.Prelude.Json.{Json}
use agentic_octopus.Prelude.Python.{Exc}
use agentic_octopus.Config.{Settings, non_empty}
use agentic_octopus.Providers.Errors.{ProviderError, err}
use agentic_octopus.Providers.Openrouter.{enforce_free, resolve_model}
use agentic_octopus.Db.{Run}
use agentic_octopus.Registry.{LoadedAgent}
use agentic_octopus.Executor.Openrouter.{refused_message, guarded_execute, execute}
use agentic_octopus.Executor.{ExecStatus, returned}

-- Without a key, or with a model that the cost guard refuses, the execution fails whatever the server
-- would answer: it returns a failed outcome with a message of its own for either case, and with
-- nothing else, no event and no file.
pub execute_refused :
    (settings : Settings) (post : Dict Text Json → ℕ × Text) (loads : Text → Option Json)
    (py_str : Json → Text) (show : ℕ → Text) (exc_repr : Exc → Text) (today : Text) (run : Run)
    (agent : LoadedAgent) (e : ProviderError)
    → (non_empty settings.openrouter_api_key ≡ false)
      ⊎ (enforce_free settings (resolve_model settings agent.manifest.model) ≡ err e)
    → execute settings post loads py_str show exc_repr today run agent ≡ record {
      emitted = [];
      written = [];
      ended = returned (record {
        status = ExecStatus.failed;
        result = none;
        error = some (
            if non_empty settings.openrouter_api_key
            then refused_message (resolve_model settings agent.manifest.model)
            else lit "OPENROUTER_API_KEY not configured");
        cost_usd = none;
        session_id = none;
        model = none;
      });
    }
unfolding execute guarded_execute
execute_refused settings post loads py_str show exc_repr today run agent e (inl no_key) =
    rw no_key refl
execute_refused settings post loads py_str show exc_repr today run agent e (inr refused) =
    elim (Bool-cases (non_empty settings.openrouter_api_key)) [
      | inl key ↦ rw (key, refused) refl
      | inr no_key ↦ rw no_key refl
    ]
