-- ===== src/Tests/Completions.antt =====
-- A request for a completion with tools in its body, routed to OpenRouter.
use agentic_octopus.Prelude.{
  Option, ℕ, ◌≡◌, ◌⊎◌, refl, true, none, [], ◌∷◌, Text, text_eq, text_beq, lit, starts_with,
  ends_with,
}
use agentic_octopus.Prelude.Dict.{lookup, insert, without}
use agentic_octopus.Prelude.Json.{Json, num, str, arr, obj, nil, cons, field, end}
use agentic_octopus.Prelude.Python.{Py, value, if_truthy, get, field_of}
use agentic_octopus.Config.{Settings, default_settings}
use agentic_octopus.Providers.Openrouter
use agentic_octopus.Providers.Base.{route_chat_model, to_default, get_chat_provider}
use agentic_octopus.Providers.Calls
use agentic_octopus.Providers.Ollama.{TagsCache}
use agentic_octopus.Providers.Calls.{Payload, Servers}
use agentic_octopus.Providers.Claude.Requests.{status_error, not_opened}
use agentic_octopus.Compat.{
  Outcome, json_response, openai_error, refusal, chat_completions, on_requested, on_route,
  on_answer, requested_model, stripped, with_answer, read_response, shown_data, log_metadata,
  tokens,
}
use agentic_octopus.Compat.Laws.{chat_completions-Plain, Quiet, Asked}

abbrev keyed : Settings
keyed = record default_settings { openrouter_api_key = lit "key" }

abbrev reply_json : Json
reply_json = obj (
    field (lit "model") (str (lit "acme/small:free"))
      (field (lit "usage") (obj (field (lit "prompt_tokens") (num 3) end)) end))

abbrev reads : Text → Py Json
reads t = value reply_json

abbrev writes : Json → Text
writes j = lit "{}"

abbrev no_cast : Text → Option ℕ
no_cast t = none

abbrev answering : ℕ → Servers
answering status = record {
  time = 9;
  openrouter_post = λ body. (status, lit "{}");
  openrouter_stream = λ body. (500, []);
  ollama_post = λ body. (500, []);
  ollama_stream = λ body. (500, []);
  create = λ body. status_error 500 [];
  open_stream = λ body. not_opened 500 [];
}

abbrev cold : TagsCache
cold = record { ts = 0; tags = [] }

abbrev body : Payload
body =
    (lit "model", str (lit "acme/small:free"))
    ∷ (lit "tools", arr (cons (str (lit "clock")) nil))
    ∷ (lit "messages", arr nil)
    ∷ []

abbrev asked_of : ℕ → Payload → Outcome
asked_of status sent =
    chat_completions keyed reads writes writes no_cast (answering status) true 9 40 sent none 5 none
      cold

chat_completions-Plain_example :
    Quiet keyed reads writes writes no_cast (answering 200) true 9 40 (asked_of 200 body)
    ⊎ Asked keyed reads writes writes no_cast
        (answering 200)
        true
        9
        40
        body
        5
        none
        cold
        (asked_of 200 body)
chat_completions-Plain_example =
    chat_completions-Plain keyed reads writes writes no_cast (answering 200) true 9 40 body none 5
      none cold

test_answer : (asked_of 200 body).answer ≡ json_response 200 reply_json
unfolding chat_completions on_requested on_route on_answer requested_model route_chat_model
    to_default get_chat_provider Openrouter.resolve_model Openrouter.enforce_free Openrouter.is_free
    Openrouter.complete Openrouter.route_payload starts_with ends_with text_beq lookup insert
    without stripped read_response shown_data Calls.complete log_metadata with_answer if_truthy get
    field_of tokens
test_answer = refl

test_paid :
    asked_of 200 ((lit "model", str (lit "acme/large")) ∷ [])
    ≡ refusal (openai_error 400 (lit "invalid_request_error"))
unfolding chat_completions on_requested on_route on_answer requested_model route_chat_model
    to_default get_chat_provider Openrouter.resolve_model Openrouter.enforce_free Openrouter.is_free
    Openrouter.complete Openrouter.route_payload starts_with ends_with text_beq lookup insert
    without stripped if_truthy
test_paid = refl
