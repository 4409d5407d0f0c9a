-- ===== src/Chat/Turn.antt =====
-- src/octo/chat.py, _prepare and _execute_tool_round: a turn of a conversation, as a function of the
-- tables and of what the turn has done so far. Each call of _append is a transaction of its own, so
-- that what it has written stays when a later step raises. No one else writes between the steps.
pub mod Works
pub mod Keeps
pub mod Results
pub mod Prepare
use agentic_octopus.Prelude.{
  ℕ, suc, Bool, true, false, ◌&&◌, Option, none, some, List, [], ◌∷◌, ◌++◌, ◌==◌, nat_eq, Text,
  text_eq, lit, length, take, map, or_default, contains, if◌then◌else◌,
}
use agentic_octopus.Prelude.Dict.{Dict}
use agentic_octopus.Prelude.Json.{
  Json, Items, Fields, null, bool, num, str, arr, obj, nil, cons, end, field,
}
use agentic_octopus.Prelude.Python
use agentic_octopus.Prelude.Python.{Py, value, throws, Exc}
use agentic_octopus.Config.{Settings}
use agentic_octopus.Registry.{LoadedAgent}
use agentic_octopus.Telemetry.{merge_tags}
use agentic_octopus.Providers.Errors.{Attempt, ok, err}
use agentic_octopus.Providers.Openrouter.{auto_model}
use agentic_octopus.Providers.Ollama.{TagsCache}
use agentic_octopus.Providers.Base.{Provider, Route, route_chat_model}
use agentic_octopus.Providers.Calls.{
  CallError, provider_error, python_error, Answered, answered, failed, Payload, Servers,
}
use agentic_octopus.Table.{Table}
use agentic_octopus.Tools.{Web, run_tool, error}
use agentic_octopus.Chat.{Role, Msg, Sent, build_context, system_prompt_for, tools_for}
use agentic_octopus.Chat.Store.{
  ChatDb, Message, Columns, no_columns, Conversation, get_conversation, get_messages,
  append_message,
}

abbrev pub tool_result_max_chars : ℕ
tool_result_max_chars = 4000

-- What a turn raises.
pub data Failure : Type 0 where
  lookup_error : Failure
  foreign_key_violation : Failure
  runtime_error : Option ℕ → Failure
  refused_value : Failure
  call_error : CallError → Failure
  -- GeneratorExit: the client closes the stream
  closed : Failure

-- What a stream yields.
pub data Event : Type 0 where
  chunk : Json → Event
  tool_status : Text → Fields → ℕ → Event
  finished : ℕ → Json → Event

-- The variables of send_stream that its `finally` block reads.
pub record Locals : Type 0 where
  pub usage : Json
  pub actual_model : Text
  pub parts : List Json
  pub prefix_done : Bool
  pub completed : Bool

-- The tables, and what the turn has done so far, the last first: the requests to a provider, the
-- tool calls, and the events that the client has taken. The client takes `patience` events more.
pub record Session : Type 0 where
  pub db : ChatDb
  pub requests : List (Provider × Payload)
  pub calls : List (Text × Fields)
  pub events : List Event
  pub patience : Option ℕ
  pub locals : Locals

pub data Result (A : Type 0) : Type 0 where
  done : A → Result A
  fail : Failure → Result A

abbrev pub Do : Type 0 → Type 0
Do A = Session → Result A × Session

abbrev pub bind : {A B : Type 0} → Result A × Session → (A → Do B) → Result B × Session
bind (done a, s) f = f a s
bind (fail e, s) f = (fail e, s)

infixl 5 ◌>>=◌ ◌>>◌
unfoldable pub ◌>>=◌ : {A B : Type 0} → Do A → (A → Do B) → Do B
m >>= f = λ s. bind (m s) f

abbrev pub ◌>>◌ : {A B : Type 0} → Do A → Do B → Do B
m >> k = m >>= λ _. k

abbrev pub pure : {A : Type 0} → A → Do A
pure a s = (done a, s)

abbrev pub raise : {A : Type 0} → Failure → Do A
raise e s = (fail e, s)

unfoldable pub of_py : {A : Type 0} → Py A → Do A
of_py (value a) = pure a
of_py (throws x) = raise (call_error (python_error x))

unfoldable pub of_answer : {A : Type 0} → Answered A → Do A
of_answer (answered a) = pure a
of_answer (failed e) = raise (call_error e)

-- What the turn reads that is not its own: the settings and the registry, Python's and json's
-- conversions, the database's reading of a text as an integer (`int_cast`), the provider of the
-- n-th request, the web of the n-th tool call, the server of the Ollama tags, and the clocks:
-- `clock` is the time at which a message of this id is inserted.
pub record World : Type 0 where
  pub settings : Settings
  pub registry : Dict Text LoadedAgent
  pub show : ℕ → Text
  pub show_id : ℕ → Text
  pub py_str : Json → Text
  pub int_text : Text → Py ℕ
  pub int_cast : Text → Option ℕ
  pub loads : Text → Py Json
  pub dumps : Json → Text
  pub servers : ℕ → Servers
  pub web : ℕ → Web
  pub monotonic : ℕ
  pub tags_reply : Option (List Text)
  pub tags_cache : TagsCache
  pub clock : ℕ → ℕ
  pub duration_ms : ℕ

-- The row as build_context reads it.
abbrev pub msg_of : Message → Msg
msg_of m = record { role = m.role; content = m.content; prompt_tokens = m.prompt_tokens }

abbrev pub history_of : Table Message → List Msg
history_of [] = []
history_of ((j, m) ∷ t) = msg_of m ∷ history_of t

abbrev pub role_name : Role → Text
role_name Role.system = lit "system"
role_name Role.user = lit "user"
role_name Role.assistant = lit "assistant"
role_name Role.tool = lit "tool"

abbrev pub sent_json : Sent → Json
sent_json m =
    obj (field (lit "role") (str (role_name m.role)) (field (lit "content") (str m.content) end))

abbrev pub sent_items : List Sent → Items
sent_items [] = nil
sent_items (m ∷ l) = cons (sent_json m) (sent_items l)

-- `{"model": model, "messages": context}`
abbrev pub payload_of : Text → List Sent → Payload
payload_of model context =
    (lit "model", str model) ∷ (lit "messages", arr (sent_items context)) ∷ []

-- What _prepare returns.
pub record Prepared : Type 0 where
  pub route : Route
  pub context : List Sent
  pub tools : List Text
  pub persona : Text

unfoldable pub stored : Option (ℕ × ChatDb) → Do ℕ
stored none s = (fail foreign_key_violation, s)
stored (some (id, db')) s = (done id, record s { db = db' })

-- `convo["model"] or "default"`
abbrev pub model_or_default : Text → Text
model_or_default [] = lit "default"
model_or_default (c ∷ m) = c ∷ m

unfoldable pub of_attempt : {A : Type 0} → Attempt A → Do A
of_attempt (ok a) = pure a
of_attempt (err e) = raise (call_error (provider_error e))

unfoldable pub found : Option Conversation → Do Conversation
found none = raise lookup_error
found (some c) = pure c

abbrev pub not_enabled : Text → Json
not_enabled tool = error (lit "tool '" ++ tool ++ lit "' not enabled for this persona")

-- `json.loads` of the text that was cut off
call_metadata : Text → Fields → Json → Json
call_metadata tool args result = obj (
    field (lit "call") (obj (field (lit "tool") (str tool) (field (lit "args") (obj args) end)))
      (field (lit "result") result end))

unfoldable pub of_cast : Option ℕ → Do (Option ℕ)
of_cast none = raise refused_value
of_cast (some n) = pure (some n)

-- A JSON value in a column of type int; `cast` is how the database reads a text as one.
unfoldable pub int_column : (Text → Option ℕ) → Option Json → Do (Option ℕ)
unfolding of_cast
int_column cast none = pure none
int_column cast (some null) = pure none
int_column cast (some (num n)) = pure (some n)
int_column cast (some (str t)) = of_cast (cast t)
int_column cast (some _) = raise refused_value

module _ (w : World) where
  unfoldable pub append_to : ℕ → Role → Text → Columns → Do ℕ
  unfolding stored
  append_to id role content cols s =
      stored (append_message (w.clock (s.db).next_id) id role content cols s.db) s

  unfoldable pub conversation : ℕ → Do Conversation
  unfolding found
  conversation id s = found (get_conversation id s.db) s

  unfoldable pub history : ℕ → Do (List Msg)
  history id s = (done (history_of (get_messages id s.db)), s)

  -- What is returned, with the context.
  abbrev pub ready : Conversation → Route → List Sent → Prepared
  ready convo route context = record {
    route = route;
    context = context;
    tools = tools_for w.settings (some convo.persona) w.registry;
    persona = convo.persona;
  }

  abbrev pub context_of : Conversation → List Msg → List Sent
  context_of convo messages =
      build_context w.settings (system_prompt_for w.settings w.show (some convo.persona) w.registry)
        messages none

  unfoldable pub prepared : ℕ → Text → Conversation → Route → Do Prepared
  unfolding append_to history
  prepared id user_text convo route = do
    append_to id Role.user user_text no_columns
    messages ← history id
    pure (ready convo route (context_of convo messages))

  -- Where the conversation's model is routed to.
  unfoldable pub routed : Conversation → Attempt Route
  routed convo =
      (route_chat_model w.settings (model_or_default convo.model) w.monotonic w.tags_reply
        w.tags_cache).0

  unfoldable pub prepare : ℕ → Text → Do Prepared
  unfolding prepared conversation of_attempt routed
  prepare id user_text = do
    convo ← conversation id
    route ← of_attempt (routed convo)
    prepared id user_text convo route

  -- `await run_tool(tool, args)` if it is allowed
  unfoldable pub tool_result : Text → Fields → List Text → Do Json
  tool_result tool args allowed s =
      if contains tool allowed
      then of_py (run_tool w.show w.py_str w.int_text (w.web (length s.calls)) tool args)
          (record s { calls = (tool, args) ∷ s.calls })
      else (done (not_enabled tool), s)

  unfoldable pub result_message : Text → Text → Text
  result_message tool result_json =
      lit "[tool result: "
      ++ tool
      ++ lit "]"
      ++ 10 ∷ result_json
      ++ 10
        ∷ lit
            "Use this. Cite source URLs in your answer. Call another tool only if you still need more information."

  -- The new context.
  unfoldable pub execute_tool_round :
      ℕ → List Sent → Text → Text → Fields → List Text → Do (List Sent)
  unfolding call_metadata
  execute_tool_round id context assistant_text tool args allowed = do
    result ← tool_result tool args allowed
    (let result_json = take tool_result_max_chars (w.dumps result) in
        of_py (w.loads result_json) >>= λ kept.
        append_to id Role.tool (tool ++ lit "(" ++ take 500 (w.dumps (obj args)) ++ lit ")")
          (record no_columns { metadata = call_metadata tool args kept })
        >>= λ row. pure (
            context
            ++ record { role = Role.assistant; content = assistant_text }
              ∷ record { role = Role.user; content = result_message tool result_json }
              ∷ []))

  -- The tags of a turn; `stream` is the extra entry of send_stream.
  unfoldable pub turn_tags :
      ℕ → Prepared → Dict Text Json → Option (Dict Text Json) → Dict Text Text
  turn_tags id p stream tags =
      merge_tags w.py_str
        ((lit "surface", str (lit "native"))
          ∷ (lit "provider", str (p.route).provider_name)
          ∷ (lit "persona", str p.persona)
          ∷ (lit "conversation", str (w.show_id id))
          ∷ (lit "routed", bool ((p.route).model == auto_model))
          ∷ stream)
        tags
