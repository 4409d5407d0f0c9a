-- ===== src/Executor/Openrouter.antt =====
-- OpenRouterExecutor. `post` is the server on the JSON body of the request, `loads` is json.loads,
-- `py_str` and `show` are Python's `str` of a JSON value and of a number, `today` is the date.
pub mod Refusal
use agentic_octopus.Prelude.{
  ℕ, Bool, true, false, not, Option, none, some, List, [], ◌∷◌, ◌++◌, ◌==◌, nat_eq, Text, text_eq,
  lit, take, length, if◌then◌else◌,
}
use agentic_octopus.Prelude.Dict.{Dict}
use agentic_octopus.Prelude.Json.{Json, null, str, arr, obj, cons, nil, end, field}
use agentic_octopus.Prelude.Python.{
  Py, value, throws, Exc, ◌>>=◌, subscript, get, first, truthy, if_truthy,
}
use agentic_octopus.Config.{Settings, non_empty}
use agentic_octopus.Providers.Errors
use agentic_octopus.Providers.Errors.{Attempt, ProviderError, quota_exceeded, paid_model_refused}
use agentic_octopus.Providers.Openrouter
use agentic_octopus.Providers.Openrouter.{is_free, enforce_free}
use agentic_octopus.Db.{Run}
use agentic_octopus.Registry.{LoadedAgent}
use agentic_octopus.Executor.{
  ExecStatus, ExecOutcome, failure, Ended, returned, raised, Execution, AgentExecutor,
}

abbrev pub quota_message : Text
quota_message =
    lit
      "OpenRouter free-tier quota exceeded (HTTP 429: 50 requests/day without credits, 20/minute) — daily quota resets at midnight UTC"

abbrev pub refused_message : Text → Text
refused_message model =
    lit "model '"
    ++ model
    ++ lit
        "' is not a :free variant and OPENROUTER_ALLOW_PAID is off — refusing to run a potentially billable request"

-- What is read of the answer before the file is written: the content, and the model and the usage if
-- they are given and not falsy.
pub record Answer : Type 0 where
  pub content : Text
  pub model : Option Json
  pub usage : Option Json

as_text : Json → Py Text
as_text (str t) = value t
as_text _ = throws Exc.type_error

-- `usage.get("total_tokens")`
total_tokens : Option Json → Py (Option Json)
total_tokens none = value none
total_tokens (some u) = get u (lit "total_tokens")

-- The reads of the response's JSON after the test for an embedded error.
unfoldable pub read_answer : Json → Py Answer
unfolding as_text
read_answer reply = do
  choices ← subscript reply (lit "choices")
  choice ← first choices
  message ← subscript choice (lit "message")
  content ← subscript message (lit "content")
  usage ← get reply (lit "usage")
  model ← get reply (lit "model")
  text ← as_text content
  value (record { content = text; model = if_truthy model; usage = if_truthy usage })

module _ (settings : Settings) (post : Dict Text Json → ℕ × Text) (loads : Text → Option Json)
    (py_str : Json → Text) (show : ℕ → Text) (exc_repr : Exc → Text) (today : Text) where
  abbrev pub body : Text → LoadedAgent → Json → Dict Text Json
  body model agent params =
      (lit "model", str model)
      ∷ (
        lit "messages",
        arr (
            cons (message (lit "system") agent.prompt)
              (cons (message (lit "user") (user_message (py_str params))) nil)),
      )
      ∷ []
    where
      message : Text → Text → Json
      message role content =
          obj (field (lit "role") (str role) (field (lit "content") (str content) end))

      user_message : Text → Text
      user_message params =
          lit "Execute your task now, in a single response. Run parameters (JSON):\n"
          ++ params
          ++ lit
              "\nYou have no tools in this environment: work from your knowledge, state its limits explicitly (including your knowledge cutoff), and return ONLY the final markdown document — it will be saved for you."

  abbrev pub silent : ExecOutcome → Execution
  silent o = record { emitted = []; written = []; ended = returned o }

  -- `data.get("model") or model`, whose `endswith` is an attribute of strings alone
  served_by : Text → Option Json → Py Text
  served_by model none = value model
  served_by model (some (str t)) = value t
  served_by model (some _) = throws Exc.attribute_error

  abbrev tokens_text : Option Json → Text
  tokens_text none = lit "None"
  tokens_text (some j) = py_str j

  abbrev log_event : Text → Text × Json
  log_event model = (
    lit "log",
    obj (field (lit "executor") (str (lit "openrouter")) (field (lit "model") (str model) end)),
  )

  logged : Text → Ended → Execution
  logged model e = record { emitted = log_event model ∷ []; written = []; ended = e }

  completed_outcome : Text → Text → Answer → Py ExecOutcome
  unfolding total_tokens served_by
  completed_outcome file model a = do
    tokens ← total_tokens a.usage
    actual ← served_by model a.model
    value (record {
      status = ExecStatus.completed;
      result = some (
          lit "wrote "
          ++ file
          ++ lit " ("
          ++ show (length a.content)
          ++ lit " chars, model="
          ++ actual
          ++ lit ", tokens="
          ++ tokens_text tokens
          ++ lit ")");
      error = none;
      cost_usd = if is_free actual then some 0 else none;
      session_id = none;
      model = some actual;
    })

  ended_by : Py ExecOutcome → Ended
  ended_by (value o) = returned o
  ended_by (throws x) = raised (exc_repr x)

  -- The file and the last event follow the reads, and the outcome follows them.
  finish_answer : Text → LoadedAgent → Py Answer → Execution
  unfolding completed_outcome ended_by logged
  finish_answer model agent (throws x) = logged model (raised (exc_repr x))
  finish_answer model agent (value a) =
      let file = agent.manifest.name ++ lit "-" ++ today ++ lit ".md" in
      record {
        emitted =
            log_event model
            ∷ (lit "message", obj (field (lit "text") (str (take 2000 a.content)) end))
            ∷ [];
        written = (file, a.content) ∷ [];
        ended = ended_by (completed_outcome file model a);
      }

  -- `if data.get("error")`: an error embedded in a 200
  check_error : Text → LoadedAgent → Json → Py (Option Json) → Execution
  unfolding logged finish_answer
  check_error model agent reply (throws x) = logged model (raised (exc_repr x))
  check_error model agent reply (value none) = finish_answer model agent (read_answer reply)
  check_error model agent reply (value (some e)) =
      if truthy e
      then logged model (returned (failure (lit "openrouter error: " ++ take 500 (py_str e))))
      else finish_answer model agent (read_answer reply)

  on_json : Text → LoadedAgent → Option Json → Execution
  unfolding check_error logged
  on_json model agent none = logged model (raised (exc_repr Exc.json_error))
  on_json model agent (some reply) = check_error model agent reply (get reply (lit "error"))

  on_response : Text → LoadedAgent → Attempt (ℕ × Text) → Execution
  unfolding on_json logged
  on_response model agent (Attempt.err e) = logged model (returned (failure quota_message))
  on_response model agent (Attempt.ok (status, text)) =
      if status == 200
      then on_json model agent (loads text)
      else logged model
          (returned (failure (lit "openrouter " ++ show status ++ lit ": " ++ take 500 text)))

  guarded_execute : Text → Run → LoadedAgent → Attempt Unit → Execution
  unfolding on_response
  guarded_execute model run agent (Attempt.err e) = silent (failure (refused_message model))
  guarded_execute model run agent (Attempt.ok _) = on_response model agent (
      Openrouter.complete settings post
        (body model agent (if truthy run.params then run.params else agent.manifest.params)))

  -- `execute`. The only exception of complete that the model knows is QuotaExceeded.
  unfoldable pub execute : AgentExecutor
  unfolding guarded_execute
  execute run agent =
      let model = Openrouter.resolve_model settings agent.manifest.model in
      if not (non_empty settings.openrouter_api_key)
      then silent (failure (lit "OPENROUTER_API_KEY not configured"))
      else guarded_execute model run agent (enforce_free settings model)
