-- ===== src/Chat/Send.antt =====
-- src/octo/chat.py, send: a turn with a complete answer. The clock and the span of llm_span have no
-- part in what it does.
pub mod Bounds
use agentic_octopus.Prelude.{
  ℕ, zero, suc, ◌+◌, Bool, true, false, ◌&&◌, Option, none, some, List, [], ◌∷◌, ◌++◌, ◌==◌, nat_eq,
  Text, text_eq, lit, length, leb, or_default, if◌then◌else◌,
}
use agentic_octopus.Prelude.Dict.{Dict}
use agentic_octopus.Prelude.Json.{Json, Fields, null, str, obj, end}
use agentic_octopus.Prelude.Python.{
  Py, value, throws, Exc, get, subscript, first, truthy, if_truthy, type_error,
}
use agentic_octopus.Providers.Calls
use agentic_octopus.Providers.Calls.{python_error}
use agentic_octopus.Chat.{Role, Sent, routed_model_prefix}
use agentic_octopus.Chat.Store.{Columns}
use agentic_octopus.Chat.Protocol.{parse_tool_call}
use agentic_octopus.Chat.Turn.{
  Failure, runtime_error, call_error, Session, Result, Do, done, ◌>>=◌, ◌>>◌, pure, raise, of_py,
  of_answer, World, payload_of, Prepared, append_to, prepare, execute_tool_round, turn_tags,
  int_column,
}

-- The variables of the loop that are read behind it.
pub record Answer : Type 0 where
  pub content : Json
  pub usage : Json
  pub actual_model : Text

-- `if data.get("error"): raise RuntimeError`
abbrev pub no_error : Option Json → Do Unit
no_error none = pure tt
no_error (some e) = raise (runtime_error none)

module _ (w : World) where
  -- `str` of a value in an f-string
  unfoldable pub text_of : Json → Text
  text_of (str t) = t
  text_of j = w.py_str j

  model_or : Text → Option Json → Text
  model_or old none = old
  model_or old (some j) = text_of j

  asked : Prepared → List Sent → Do (ℕ × Text)
  asked p context s =
      let payload = payload_of (p.route).model context in
      of_answer
        (Calls.complete w.settings w.dumps (w.servers (length s.requests)) (p.route).provider
          payload)
        (record s { requests = ((p.route).provider, payload) ∷ s.requests })

  read_answer : Answer → Json → Do Answer
  unfolding text_of model_or
  read_answer old data_ = do
    error ← of_py (get data_ (lit "error"))
    no_error (if_truthy error)
    choices ← of_py (subscript data_ (lit "choices"))
    choice ← of_py (first choices)
    message ← of_py (subscript choice (lit "message"))
    content ← of_py (subscript message (lit "content"))
    usage ← of_py (get data_ (lit "usage"))
    model ← of_py (get data_ (lit "model"))
    pure (record {
      content = content;
      usage = or_default (if_truthy usage) old.usage;
      actual_model = model_or old.actual_model (if_truthy model);
    })

  with_status : Answer → ℕ × Text → Do Answer
  unfolding read_answer
  with_status old (status, text) =
      if status == 200
      then (of_py (w.loads text) >>= read_answer old)
      else raise (runtime_error (some status))

  -- One request and its answer.
  unfoldable pub ask : Prepared → List Sent → Answer → Do Answer
  unfolding asked with_status
  ask p context old = asked p context >>= with_status old

  -- `parse_tool_call(content) if allowed_tools else None`
  unfoldable pub call_of : List Text → Json → Py (Option (Text × Fields))
  call_of [] content = value none
  call_of (t ∷ ts) content = parse_tool_call w.show w.loads w.py_str content

  content_text : Json → Text
  content_text (str t) = t
  content_text _ = []

  -- The loop from round `round_no` on, with `left` rounds of its range left.
  unfoldable pub rounds : ℕ → ℕ → ℕ → Prepared → List Sent → Answer → Do Answer
  unfolding content_text
  rounds zero round_no id p context old = pure old
  rounds (suc left) round_no id p context old = do
    answer ← ask p context old
    call ← of_py (call_of p.tools answer.content)
    elim call [
      | none ↦ pure answer
      | some (tool, args) ↦
          if leb (w.settings).chat_max_tool_calls round_no
          then pure answer
          else (execute_tool_round w id context (content_text answer.content) tool args p.tools
              >>= λ longer. rounds left (suc round_no) id p longer answer)
    ]

  -- `routed_model_prefix(model, actual_model) + content`
  with_prefix : Text → Text → Json → Do Text
  with_prefix model actual_model (str t) =
      pure (routed_model_prefix w.settings model actual_model ++ t)
  with_prefix model actual_model _ = raise (call_error (python_error type_error))

  -- What send does when the loop has ended.
  unfoldable pub conclude : ℕ → Prepared → Option (Dict Text Json) → Answer → Do ℕ
  unfolding with_prefix
  conclude id p tags answer = do
    prompt ← of_py (get answer.usage (lit "prompt_tokens"))
    completion ← of_py (get answer.usage (lit "completion_tokens"))
    content ← with_prefix (p.route).model answer.actual_model answer.content
    prompt_tokens ← int_column w.int_cast prompt
    completion_tokens ← int_column w.int_cast completion
    append_to w id Role.assistant content (record {
      model = some answer.actual_model;
      metadata = obj end;
      prompt_tokens = prompt_tokens;
      completion_tokens = completion_tokens;
      duration_ms = some w.duration_ms;
      tags = turn_tags w id p [] tags;
    })

  abbrev pub no_answer : Prepared → Answer
  no_answer p = record { content = str []; usage = obj end; actual_model = (p.route).model }

  -- The id of the message that send returns.
  unfoldable pub send : ℕ → Text → Option (Dict Text Json) → Do ℕ
  send id user_text tags = do
    p ← prepare w id user_text
    answer ← rounds (suc (w.settings).chat_max_tool_calls) 0 id p p.context (no_answer p)
    conclude id p tags answer
