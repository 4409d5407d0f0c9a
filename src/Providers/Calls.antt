-- ===== src/Providers/Calls.antt =====
-- ChatProvider of src/octo/providers/base.py, as its three classes implement it: a completion and a
-- stream by the provider that a request is routed to.
use agentic_octopus.Prelude.{ℕ, List, map, Text}
use agentic_octopus.Prelude.Dict.{Dict}
use agentic_octopus.Prelude.Json.{Json}
use agentic_octopus.Prelude.Python.{Py, value, throws, Exc}
use agentic_octopus.Config.{Settings}
use agentic_octopus.Providers.Errors.{Attempt, ok, err, ProviderError}
use agentic_octopus.Providers.Base.{Provider, openrouter, anthropic, ollama}
use agentic_octopus.Providers.Claude.Replies.{sse_bytes}
use agentic_octopus.Providers.Claude.Requests
use agentic_octopus.Providers.Claude.Requests.{Created, Opened, Streamed, streaming, status_raised}
use agentic_octopus.Providers.Ollama
use agentic_octopus.Providers.Openrouter

abbrev pub Payload : Type 0
Payload = Dict Text Json

-- What a call raises: an exception of the providers, one of Python's, or the SDK's APIStatusError.
pub data CallError : Type 0 where
  provider_error : ProviderError → CallError
  python_error : Exc → CallError
  api_status_error : ℕ → Text → CallError

pub data Answered (A : Type 0) : Type 0 where
  answered : A → Answered A
  failed : CallError → Answered A

-- The servers, as they answer one request: its time, the two HTTP APIs and the SDK's client.
pub record Servers : Type 0 where
  pub time : ℕ
  pub openrouter_post : Payload → ℕ × Text
  pub openrouter_stream : Payload → ℕ × List Text
  pub ollama_post : Payload → ℕ × Text
  pub ollama_stream : Payload → ℕ × List Text
  pub create : Payload → Created
  pub open_stream : Payload → Opened

abbrev pub of_attempt : {A : Type 0} → Attempt A → Answered A
of_attempt (ok a) = answered a
of_attempt (err e) = failed (provider_error e)

module _ (settings : Settings) (dumps : Json → Text) where
  -- The body of the SDK's answer is dumped for the response.
  dumped : Py (ℕ × Json) → Answered (ℕ × Text)
  dumped (value (status, j)) = answered (status, dumps j)
  dumped (throws x) = failed (python_error x)

  bytes : Py Streamed → Answered (List Text)
  bytes (value (status_raised code message)) = failed (api_status_error code message)
  bytes (value (streaming l)) = answered (map (sse_bytes dumps) l)
  bytes (throws x) = failed (python_error x)

  unfoldable pub complete : Servers → Provider → Payload → Answered (ℕ × Text)
  unfolding dumped
  complete s openrouter payload =
      of_attempt (Openrouter.complete settings s.openrouter_post payload)
  complete s ollama payload = of_attempt (Ollama.complete s.ollama_post payload)
  complete s anthropic payload = dumped (Requests.complete settings s.time s.create payload)

  unfoldable pub stream : Servers → Provider → Payload → Answered (List Text)
  unfolding bytes
  stream s openrouter payload = of_attempt (Openrouter.stream settings s.openrouter_stream payload)
  stream s ollama payload = of_attempt (Ollama.stream s.ollama_stream payload)
  stream s anthropic payload = bytes (Requests.stream settings s.time s.open_stream payload)
