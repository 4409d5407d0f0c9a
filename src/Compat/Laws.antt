-- ===== src/Compat/Laws.antt =====
-- src/octo/api/openai_compat.py: what a request for a completion asks of a provider, and what it logs.
use agentic_octopus.Prelude.{
  ℕ, ◌≡◌, ◌∙◌, ◌≤◌, ◌⊎◌, inl, inr, refl, Bool, Option, none, some, List, [], ◌∷◌, ◌==◌,
  if◌then◌else◌, arith, Text, text_eq, text_beq, lit, length, contains, ◌||◌, All,
}
use agentic_octopus.Prelude.Dict.{Dict, lookup, without, lookup-insert, lookup-without}
use agentic_octopus.Prelude.Json.{Json, str}
use agentic_octopus.Prelude.Python.{Py, value, throws, if_truthy}
use agentic_octopus.Config.{Settings}
use agentic_octopus.Providers.Errors.{Attempt, ok, err}
use agentic_octopus.Providers.Ollama.{TagsCache}
use agentic_octopus.Providers.Base.{Provider, Route, route_chat_model}
use agentic_octopus.Providers.Calls
use agentic_octopus.Providers.Calls.{Payload, Servers, Answered, answered, failed, provider_error}
use agentic_octopus.Chat.Store.{Completion}
use agentic_octopus.Compat.{
  Answer, Outcome, tool_fields, stripped, sent_body, requested_model, on_route, log_metadata,
  read_response, chat_completions, on_answer, with_answer, on_requested, request_tags,
}

-- A stripped body lacks the fields and keeps the others.
lookup-stripped :
    (ks : List Text) (j : Text) (body : Payload)
    → lookup j (stripped ks body) ≡ (if contains j ks then none else lookup j body)
unfolding stripped contains
lookup-stripped [] j body = refl
lookup-stripped (k ∷ ks) j body =
    lookup-stripped ks j (without k body)
    ∙ rw (lookup-without k j body) (by_test (j == k) (contains j ks) (lookup j body))
  where
    by_test :
        (b c : Bool) (v : Option Json)
        → (if c then none else if b then none else v) ≡ (if b || c then none else v)
    by_test b c v = ground arith

-- What is sent to a provider: a body for the model of the route that has none of the tool fields.
abbrev pub Plain : Route → Payload → Type 0
Plain route payload =
    (lookup (lit "model") payload ≡ some (str route.model))
    × All (λ k. lookup k payload ≡ none) tool_fields

sent_body-Plain : (route : Route) (body : Payload) → Plain route (sent_body route body)
unfolding contains text_beq
sent_body-Plain route body = (
  lookup-stripped tool_fields (lit "model") _
      ∙ lookup-insert (lit "model") (lit "model") (str route.model) body,
  (
    lookup-stripped tool_fields (lit "tools") _,
    (
      lookup-stripped tool_fields (lit "tool_choice") _,
      (
        lookup-stripped tool_fields (lit "functions") _,
        (lookup-stripped tool_fields (lit "function_call") _, tt),
      ),
    ),
  ),
)

module _ (settings : Settings) (loads : Text → Py Json) (dumps : Json → Text) (py_str : Json → Text)
    (int_cast : Text → Option ℕ) (servers : Servers) (pool : Bool) (now duration_ms : ℕ) where
  abbrev Few : List Completion → Type 0
  Few rows = length rows ≤ (if pool then 1 else 0)

  log_metadata-Few :
      (model : Text) (usage : Option Json) (stream : Bool) (tags : Dict Text Text)
      (rows : List Completion)
      → log_metadata settings loads dumps py_str int_cast servers pool now duration_ms model usage
          stream tags
        ≡ value rows
      → Few rows
  unfolding log_metadata
  log_metadata-Few model usage stream tags rows e = ground arith

  read_response-Few :
      (route : Route) (tags : Dict Text Text) (status : ℕ) (text : Text) (a : Answer)
      (rows : List Completion)
      → read_response settings loads dumps py_str int_cast servers pool now duration_ms route tags
          (status, text)
        ≡ value (a, rows)
      → Few rows
  unfolding read_response
  read_response-Few route tags status text a rows e = grind (arith, log_metadata-Few)

  on_answer-Few :
      (route : Route) (tags : Dict Text Text) (asked : List (Provider × Payload))
      (a : Answered (ℕ × Text))
      → let out =
          on_answer settings loads dumps py_str int_cast servers pool now duration_ms route tags
            asked a in
        (out.asked ≡ asked) × Few out.logged
  unfolding on_answer
  on_answer-Few route tags asked (answered (status, text)) =
      by_response
        (read_response settings loads dumps py_str int_cast servers pool now duration_ms route tags
          (status, text))
        refl
    where
      by_response :
          (r : Py (Answer × List Completion))
          → read_response settings loads dumps py_str int_cast servers pool now duration_ms route
              tags
              (status, text)
            ≡ r
          → let out =
              with_answer settings loads dumps py_str int_cast servers pool now duration_ms asked
                r in
            (out.asked ≡ asked) × Few out.logged
      by_response (value (a, rows)) e = (refl, read_response-Few route tags status text a rows e)
      by_response (throws x) e = (refl, ground arith)
  on_answer-Few route tags asked (failed x) = (refl, ground arith)

  -- No provider is called and nothing is logged.
  abbrev pub Quiet : Outcome → Type 0
  Quiet out = (out.asked ≡ []) × (out.logged ≡ [])

  -- One call of the provider that the model of the body is routed to, and what it is handed and what is logged.
  abbrev pub Asked : Payload → ℕ → Option (List Text) → TagsCache → Outcome → Type 0
  Asked body clock reply cache out =
      (m : Text) × (route : Route) × (payload : Payload) × (requested_model
          (if_truthy (lookup (lit "model") body))
        ≡ some m)
      × ((route_chat_model settings m clock reply cache).0 ≡ ok route)
      × (out.asked ≡ (route.provider, payload) ∷ [])
      × Plain route payload
      × Few out.logged

  -- Whatever a body asks, a request for a completion that is not streamed calls no provider and logs
  -- nothing, or it calls the provider that its model is routed to, once, with a body for the model of
  -- the route that has none of the four tool fields, and logs at most one row, and none without a
  -- database.
  pub chat_completions-Plain :
      (body : Payload) (header : Option Text) (clock : ℕ) (reply : Option (List Text))
      (cache : TagsCache)
      → let out =
          chat_completions settings loads dumps py_str int_cast servers pool now duration_ms body
            header clock reply cache in
        Quiet out ⊎ Asked body clock reply cache out
  unfolding chat_completions on_requested on_route
  chat_completions-Plain body header clock reply cache =
      by_model (requested_model (if_truthy (lookup (lit "model") body))) refl
    where
      by_route :
          (m : Text) (r : Attempt Route)
          → requested_model (if_truthy (lookup (lit "model") body)) ≡ some m
          → (route_chat_model settings m clock reply cache).0 ≡ r
          → let out =
              on_route settings loads dumps py_str int_cast servers pool now duration_ms body header
                r in
            Quiet out ⊎ Asked body clock reply cache out
      by_route m (err x) e r = inl (refl, refl)
      by_route m (ok route) e r =
          let few =
            on_answer-Few route
              (request_tags settings loads dumps py_str int_cast servers pool now duration_ms route
                header)
              ((route.provider, sent_body route body) ∷ [])
              (Calls.complete settings dumps servers route.provider (sent_body route body)) in
          inr (m, route, sent_body route body, e, r, few.0, sent_body-Plain route body, few.1)

      by_model :
          (r : Option Text)
          → requested_model (if_truthy (lookup (lit "model") body)) ≡ r
          → let out =
              on_requested settings loads dumps py_str int_cast servers pool now duration_ms body
                header clock reply cache r in
            Quiet out ⊎ Asked body clock reply cache out
      by_model none e = inl (refl, refl)
      by_model (some m) e = by_route m _ e refl
