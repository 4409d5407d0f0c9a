-- ===== src/Compat.antt =====
-- src/octo/api/openai_compat.py: the OpenAI-compatible routes. A request ends with an answer, the calls
-- of a provider that it made, and the rows that it wrote to chat_completions; the streams are not
-- modelled. `pool` is whether there is a database, `now` and `duration_ms` are the clocks, `py_str` is
-- `str` of a JSON value, `int_cast` how the database reads a text as an integer.
pub mod Laws
use agentic_octopus.Prelude.{
  ℕ, Bool, true, false, not, ◌&&◌, Option, none, some, List, [], ◌∷◌, ◌++◌, map, ◌==◌, nat_eq, Text,
  text_eq, lit, or_default, if◌then◌else◌,
}
use agentic_octopus.Prelude.Dict.{Dict, lookup, insert, without}
use agentic_octopus.Prelude.Json.{
  Json, Items, Fields, null, bool, num, str, arr, obj, nil, cons, end, field,
}
use agentic_octopus.Prelude.Python.{
  Py, value, throws, ◌>>=◌, get, subscript, first, if_truthy, value_error, field_of,
}
use agentic_octopus.Config.{Settings, anthropic_key_set}
use agentic_octopus.Telemetry.{merge_tags, parse_tags_header}
use agentic_octopus.Providers.Errors.{
  Attempt, ok, err, ProviderError, paid_model_refused, ollama_unavailable, quota_exceeded,
}
use agentic_octopus.Providers.Openrouter.{auto_model}
use agentic_octopus.Providers.Claude.{claude_model}
use agentic_octopus.Providers.Ollama.{TagsCache, virtual_name}
use agentic_octopus.Providers.Base.{Provider, Route, route_chat_model}
use agentic_octopus.Providers.Calls
use agentic_octopus.Providers.Calls.{
  Payload, Servers, Answered, answered, failed, CallError, provider_error,
}
use agentic_octopus.Chat.Store.{Completion}

-- A JSON response, an `_openai_error` with its type, or an exception that leaves the handler.
pub data Answer : Type 0 where
  json_response : ℕ → Json → Answer
  openai_error : ℕ → Text → Answer
  uncaught : Answer

pub record Outcome : Type 0 where
  pub answer : Answer
  pub asked : List (Provider × Payload)
  pub logged : List Completion

abbrev pub refusal : Answer → Outcome
refusal a = record { answer = a; asked = []; logged = [] }

abbrev pub tool_fields : List Text
tool_fields = lit "tools" ∷ lit "tool_choice" ∷ lit "functions" ∷ lit "function_call" ∷ []

-- The `body.pop` of each field.
unfoldable pub stripped : List Text → Payload → Payload
stripped [] body = body
stripped (k ∷ ks) body = stripped ks (without k body)

-- The body that the provider is handed.
abbrev pub sent_body : Route → Payload → Payload
sent_body route body = stripped tool_fields (insert (lit "model") (str route.model) body)

-- `body.get("model") or "default"`; `none` is an AttributeError of what is no string.
unfoldable pub requested_model : Option Json → Option Text
requested_model none = some (lit "default")
requested_model (some (str t)) = some t
requested_model (some _) = none

error_answer : ProviderError → Answer
error_answer (paid_model_refused m) = openai_error 400 (lit "invalid_request_error")
error_answer (ollama_unavailable m) = openai_error 400 (lit "invalid_request_error")
error_answer _ = uncaught

on_failure : CallError → Answer
on_failure (provider_error quota_exceeded) = openai_error 429 (lit "rate_limit_error")
on_failure x = uncaught

set_field : Text → Json → Fields → Fields
set_field k v end = field k v end
set_field k v (field j u fs) =
    let rest = set_field k v fs in if k == j then field j v fs else field j u rest

-- `j[k] = v` of a dict, and of the first element of a list
with_field : Text → Json → Json → Json
unfolding set_field
with_field k v (obj fs) = obj (set_field k v fs)
with_field k v j = j

with_first : Json → Json → Json
with_first v (arr (cons u l)) = arr (cons v l)
with_first v j = j

of_cast : Option ℕ → Py (Option ℕ)
of_cast none = throws value_error
of_cast (some n) = value (some n)

-- An int column of the log; `cast` is how the database reads a text as one. The errors of the driver
-- and of the database stand as one exception.
unfoldable pub tokens : (Text → Option ℕ) → Option Json → Py (Option ℕ)
unfolding of_cast
tokens cast none = value none
tokens cast (some null) = value none
tokens cast (some (num n)) = value (some n)
tokens cast (some (str t)) = of_cast (cast t)
tokens cast (some _) = throws value_error

or_self : Py Json → Json → Json
or_self (value j) data_ = j
or_self (throws x) data_ = data_

unfoldable pub models_of : Settings → List Text → List Text → List Text
models_of settings tags provider_models =
    auto_model ∷ (if anthropic_key_set settings then claude_model ∷ [] else [])
    ++ map virtual_name tags
    ++ provider_models

module _ (settings : Settings) (loads : Text → Py Json) (dumps : Json → Text) (py_str : Json → Text)
    (int_cast : Text → Option ℕ) (servers : Servers) (pool : Bool) (now duration_ms : ℕ) where
  text_of : Json → Text
  text_of (str t) = t
  text_of j = py_str j

  lead_in : Json → Text
  unfolding text_of
  lead_in model = lit "`[" ++ text_of model ++ lit "]`" ++ 10 ∷ 10 ∷ []

  -- `msg["content"] = f"`[{data.get('model', '?')}]`\n\n{msg['content']}"`
  unfoldable pub prefixed : Json → Py Json
  unfolding lead_in with_field with_first
  prefixed data_ = do
    choices ← subscript data_ (lit "choices")
    choice ← first choices
    msg ← subscript choice (lit "message")
    content ← subscript msg (lit "content")
    model ← get data_ (lit "model")
    (let msg' =
          with_field (lit "content")
            (str (lead_in (or_default model (str (lit "?"))) ++ text_of content)) msg in
        let choice' = with_field (lit "message") msg' choice in
        value (with_field (lit "choices") (with_first choice' choices) data_))

  -- The exceptions of a wrong shape leave the answer as it is.
  unfoldable pub shown_data : ℕ → Text → Json → Json
  unfolding or_self
  shown_data status model data_ =
      if status == 200 && (model == auto_model && settings.chat_show_routed_model)
      then or_self (prefixed data_) data_
      else data_

  usage_of : ℕ → Json → Py (Option Json)
  usage_of status data_ = if status == 200 then get data_ (lit "usage") else value none

  -- `(usage or {}).get(key)`
  count_of : Option Json → Text → Py (Option Json)
  count_of none key = value none
  count_of (some usage) key = get usage key

  model_or : Text → Option Json → Text
  unfolding text_of
  model_or model none = model
  model_or model (some j) = text_of j

  -- `_log_metadata`: nothing without a database
  unfoldable pub log_metadata : Text → Option Json → Bool → Dict Text Text → Py (List Completion)
  unfolding count_of
  log_metadata model usage stream tags = do
    prompt ← count_of usage (lit "prompt_tokens")
    completion ← count_of usage (lit "completion_tokens")
    total ← count_of usage (lit "total_tokens")
    prompt_tokens ← (if pool then tokens int_cast prompt else value none)
    completion_tokens ← (if pool then tokens int_cast completion else value none)
    total_tokens ← (if pool then tokens int_cast total else value none)
    value (
        if pool
        then record {
          ts = now;
          model = model;
          prompt_tokens = prompt_tokens;
          completion_tokens = completion_tokens;
          total_tokens = total_tokens;
          duration_ms = duration_ms;
          stream = stream;
          tags = tags;
        }
          ∷ []
        else [])

  unfoldable pub read_response : Route → Dict Text Text → ℕ × Text → Py (Answer × List Completion)
  unfolding usage_of model_or
  read_response route tags (status, text) = do
    parsed ← loads text
    (let data_ = shown_data status route.model parsed in
        usage_of status data_ >>= λ usage. get data_ (lit "model") >>= λ model.
        log_metadata (model_or route.model (if_truthy model)) (if_truthy usage) false tags
        >>= λ rows. value (json_response status data_, rows))

  unfoldable pub with_answer : List (Provider × Payload) → Py (Answer × List Completion) → Outcome
  with_answer asked (value (a, rows)) = record { answer = a; asked = asked; logged = rows }
  with_answer asked (throws x) = record { answer = uncaught; asked = asked; logged = [] }

  unfoldable pub on_answer :
      Route → Dict Text Text → List (Provider × Payload) → Answered (ℕ × Text) → Outcome
  unfolding with_answer on_failure
  on_answer route tags asked (answered r) = with_answer asked (read_response route tags r)
  on_answer route tags asked (failed x) = record {
    answer = on_failure x;
    asked = asked;
    logged = [];
  }

  texts_json : Dict Text Text → Dict Text Json
  texts_json [] = []
  texts_json ((k, t) ∷ d) = (k, str t) ∷ texts_json d

  unfoldable pub request_tags : Route → Option Text → Dict Text Text
  unfolding texts_json
  request_tags route header =
      merge_tags py_str
        ((lit "surface", str (lit "openai-compat"))
          ∷ (lit "provider", str route.provider_name)
          ∷ (lit "routed", bool (route.model == auto_model))
          ∷ [])
        (some (texts_json (parse_tags_header header)))

  unfoldable pub on_route : Payload → Option Text → Attempt Route → Outcome
  unfolding on_answer error_answer
  on_route body header (err e) = refusal (error_answer e)
  on_route body header (ok route) =
      let payload = sent_body route body in
      on_answer route (request_tags route header) ((route.provider, payload) ∷ [])
        (Calls.complete settings dumps servers route.provider payload)

  unfoldable pub on_requested :
      Payload → Option Text → ℕ → Option (List Text) → TagsCache → Option Text → Outcome
  on_requested body header clock reply cache none = refusal uncaught
  on_requested body header clock reply cache (some m) =
      on_route body header (route_chat_model settings m clock reply cache).0

  -- POST /chat/completions of a body whose `stream` is not set.
  unfoldable pub chat_completions :
      Payload → Option Text → ℕ → Option (List Text) → TagsCache → Outcome
  unfolding on_requested
  chat_completions body header clock reply cache =
      on_requested body header clock reply cache
        (requested_model (if_truthy (lookup (lit "model") body)))
