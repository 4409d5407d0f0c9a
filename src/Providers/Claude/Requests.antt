-- ===== src/Providers/Claude/Requests.antt =====
-- src/octo/providers/claude.py, to_anthropic_kwargs and AnthropicChatProvider.
-- The SDK's client is an argument: what messages.create answers, and what messages.stream opens.
use agentic_octopus.Prelude.{
  ℕ, Bool, true, false, ◌&&◌, ◌||◌, Option, none, some, List, [], ◌∷◌, ◌++◌, ◌==◌, Text, text_eq,
  lit, or_default, if◌then◌else◌,
}
use agentic_octopus.Prelude.Dict.{Dict, lookup}
use agentic_octopus.Prelude.Json.{
  Json, Items, null, bool, num, str, arr, obj, nil, cons, end, field,
}
use agentic_octopus.Prelude.Python.{
  Py, value, throws, ◌>>=◌, get, subscript, if_truthy, type_error, attribute_error,
}
use agentic_octopus.Config.{Settings, anthropic_key_set}
use agentic_octopus.Providers.Claude.{claude_model, resolve_model}
use agentic_octopus.Providers.Claude.Replies.{
  Reply, StreamEvent, to_openai_response, sse_from_stream, Yield,
}

-- What messages.create does: a message, or an APIStatusError with its status code and message.
pub data Created : Type 0 where
  created : Reply → Created
  status_error : ℕ → Text → Created

-- What entering messages.stream does: a stream, its events and its final message, or an APIStatusError.
pub data Opened : Type 0 where
  opened : List StreamEvent → Reply → Opened
  not_opened : ℕ → Text → Opened

-- The context manager of the provider's stream: its chunks, or that APIStatusError, which nothing
-- catches here.
pub data Streamed : Type 0 where
  streaming : List Yield → Streamed
  status_raised : ℕ → Text → Streamed

-- `sep.join(l)`: the elements have to be strings.
unfoldable pub join_with : Text → List Json → Py Text
join_with sep [] = value []
join_with sep (str t ∷ []) = value t
join_with sep (str t ∷ j ∷ l) = do rest ← join_with sep (j ∷ l); value (t ++ sep ++ rest)
join_with sep (_ ∷ l) = throws type_error

-- `payload.get("messages") or []`, for a loop over it whose body calls `get` on each element
messages_of : Option Json → Py Items
messages_of none = value nil
messages_of (some (arr l)) = value l
messages_of (some (num n)) = throws type_error
messages_of (some (bool b)) = throws type_error
messages_of (some _) = throws attribute_error

-- `m.get("role") == role`
abbrev pub has_role : Option Json → Text → Bool
has_role (some (str t)) role = t == role
has_role _ role = false

abbrev push : {A : Type 0} → A → List A → List A
push x l = x ∷ l

unfoldable pub system_texts : Items → Py (List Json)
system_texts nil = value []
system_texts (cons m l) = do
  role ← get m (lit "role")
  (if has_role role (lit "system")
      then (subscript m (lit "content") >>= λ content.
          (system_texts l >>= λ rest. value (push content rest)))
      else system_texts l)

-- `{"role": m["role"], "content": m["content"]}`
plain : Option Json → Option Json → Json
plain role content = obj (
    field (lit "role") (or_default role null) (field (lit "content") (or_default content null) end))

truthy_some : Option Json → Bool
truthy_some none = false
truthy_some (some j) = true

unfoldable pub dialogue_messages : Items → Py Items
unfolding plain truthy_some
dialogue_messages nil = value nil
dialogue_messages (cons m l) = do
  role ← get m (lit "role")
  content ← get m (lit "content")
  (dialogue_messages l >>= λ rest. value (
      if (has_role role (lit "user") || has_role role (lit "assistant"))
        && truthy_some (if_truthy content)
      then cons (plain role content) rest
      else rest))

-- `payload.get("model") or "default"`, resolved if it is a string
resolved : Settings → Option Json → Json
resolved settings none = str (resolve_model settings (lit "default"))
resolved settings (some (str t)) = str (resolve_model settings t)
resolved settings (some j) = j

with_system : Text → Dict Text Json → Dict Text Json
with_system [] d = d
with_system (c ∷ t) d = d ++ (lit "system", str (c ∷ t)) ∷ []

module _ (settings : Settings) where
  unfoldable pub to_anthropic_kwargs : Dict Text Json → Py (Dict Text Json)
  unfolding messages_of resolved with_system
  to_anthropic_kwargs payload = do
    msgs ← messages_of (if_truthy (lookup (lit "messages") payload))
    texts ← system_texts msgs
    system ← join_with (10 ∷ 10 ∷ []) texts
    dialogue ← dialogue_messages msgs
    value (
        with_system system (
          (lit "model", resolved settings (if_truthy (lookup (lit "model") payload)))
          ∷ (
            lit "max_tokens",
            or_default (if_truthy (lookup (lit "max_tokens") payload)) (num 16000),
          )
          ∷ (lit "messages", arr dialogue)
          ∷ (lit "thinking", obj (field (lit "type") (str (lit "adaptive")) end))
          ∷ []))

  -- An HTTP response: the status and the JSON of the body. `time` is that of the answer.
  response : ℕ → Created → ℕ × Json
  response time (created msg) = (200, to_openai_response time msg)
  response time (status_error code message) = (
    code,
    obj (
        field (lit "error")
          (obj (field (lit "message") (str message) (field (lit "code") (num code) end))) end),
  )

  unfoldable pub complete : ℕ → (Dict Text Json → Created) → Dict Text Json → Py (ℕ × Json)
  unfolding response
  complete time create payload = do
    kwargs ← to_anthropic_kwargs payload
    value (response time (create kwargs))

  -- `kwargs["model"]`
  model_of : Dict Text Json → Text
  model_of kwargs = as_text (lookup (lit "model") kwargs)
    where
      as_text : Option Json → Text
      as_text (some (str t)) = t
      as_text _ = []

  stream_of : ℕ → Text → Opened → Streamed
  stream_of time model (opened events final) = streaming (sse_from_stream time model events final)
  stream_of time model (not_opened code message) = status_raised code message

  unfoldable pub stream : ℕ → (Dict Text Json → Opened) → Dict Text Json → Py Streamed
  unfolding model_of stream_of
  stream time open_stream payload = do
    kwargs ← to_anthropic_kwargs payload
    value (stream_of time (model_of kwargs) (open_stream kwargs))

  unfoldable pub list_models : List Text
  list_models = if anthropic_key_set settings then claude_model ∷ [] else []
