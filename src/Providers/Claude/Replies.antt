-- ===== src/Providers/Claude/Replies.antt =====
-- src/octo/providers/claude.py: the Messages API's answers as OpenAI's. `created` is the time of a
-- chunk, `dumps` is json.dumps.
pub mod Content
use agentic_octopus.Prelude.{
  ℕ, ◌+◌, Option, none, some, List, [], ◌∷◌, ◌++◌, map, Text, text_eq, lit, or_default,
}
use agentic_octopus.Prelude.Dict.{Dict, lookup}
use agentic_octopus.Prelude.Json.{Json, Fields, null, num, str, arr, obj, nil, cons, end, field}

-- `_FINISH`
abbrev pub finish_reasons : Dict Text Text
finish_reasons =
    (lit "end_turn", lit "stop")
    ∷ (lit "max_tokens", lit "length")
    ∷ (lit "refusal", lit "content_filter")
    ∷ []

-- `_FINISH.get(stop_reason, "stop")`
stop_or : Option Text → Option Text
stop_or none = none
stop_or (some reason) = lookup reason finish_reasons

unfoldable pub finish_reason : Option Text → Text
unfolding stop_or
finish_reason reason = or_default (stop_or reason) (lit "stop")

-- The counts of `usage`; an attribute that is missing or None is none.
pub record Usage : Type 0 where
  pub input_tokens : Option ℕ
  pub output_tokens : Option ℕ

unfoldable pub usage : Usage → Json
usage u =
    let prompt = or_default u.input_tokens 0 in
    let completion = or_default u.output_tokens 0 in
    obj (
      field (lit "prompt_tokens") (num prompt) (
        field (lit "completion_tokens") (num completion)
          (field (lit "total_tokens") (num (prompt + completion)) end)))

-- A block of the content: its text if its type is "text".
pub data Block : Type 0 where
  text_block : Text → Block
  other_block : Block

pub record Reply : Type 0 where
  pub id : Text
  pub model : Text
  pub content : List Block
  pub stop_reason : Option Text
  pub tokens : Usage

unfoldable pub joined : List Block → Text
joined [] = []
joined (text_block t ∷ l) = t ++ joined l
joined (other_block ∷ l) = joined l

unfoldable pub to_openai_response : ℕ → Reply → Json
to_openai_response created msg = obj (
    field (lit "id") (str msg.id) (
      field (lit "object") (str (lit "chat.completion")) (
        field (lit "created") (num created) (
          field (lit "model") (str msg.model) (
            field (lit "choices") (arr (cons choice nil))
              (field (lit "usage") (usage msg.tokens) end))))))
  where
    message : Json
    message = obj (
        field (lit "role") (str (lit "assistant"))
          (field (lit "content") (str (joined msg.content)) end))

    choice : Json
    choice = obj (
        field (lit "index") (num 0) (
          field (lit "message") message
            (field (lit "finish_reason") (str (finish_reason msg.stop_reason)) end)))

-- An event of the stream, by its type.
pub data StreamEvent : Type 0 where
  message_start : Text → StreamEvent
  text_delta : Text → StreamEvent
  other_event : StreamEvent

-- What the stream yields: a chunk, or the end.
pub data Yield : Type 0 where
  chunk : Json → Yield
  done : Yield

opt_str : Option Text → Json
opt_str none = null
opt_str (some t) = str t

with_usage : Option Json → Fields
with_usage none = end
with_usage (some u) = field (lit "usage") u end

module _ (created : ℕ) (model : Text) where
  -- The JSON of `_chunk`.
  unfoldable pub chunk_json : Text → Json → Option Text → Option Json → Json
  unfolding opt_str with_usage
  chunk_json msg_id delta finish used = obj (
      field (lit "id") (str msg_id) (
        field (lit "object") (str (lit "chat.completion.chunk")) (
          field (lit "created") (num created) (
            field (lit "model") (str model)
              (field (lit "choices") (arr (cons choice nil)) (with_usage used))))))
    where
      choice : Json
      choice = obj (
          field (lit "index") (num 0)
            (field (lit "delta") delta (field (lit "finish_reason") (opt_str finish) end)))

  -- The chunks of the loop and of its end, with the id so far.
  unfoldable pub sse_loop : Text → List StreamEvent → Reply → List Yield
  sse_loop msg_id [] final =
      chunk (
        chunk_json msg_id (obj end) (some (finish_reason final.stop_reason))
          (some (usage final.tokens)))
      ∷ done
      ∷ []
  sse_loop msg_id (message_start id ∷ es) final = sse_loop id es final
  sse_loop msg_id (text_delta t ∷ es) final =
      chunk (chunk_json msg_id (obj (field (lit "content") (str t) end)) none none)
      ∷ sse_loop msg_id es final
  sse_loop msg_id (other_event ∷ es) final = sse_loop msg_id es final

  unfoldable pub sse_from_stream : List StreamEvent → Reply → List Yield
  sse_from_stream events final =
      chunk (
        chunk_json (lit "chatcmpl-octo-claude")
          (obj (field (lit "role") (str (lit "assistant")) (field (lit "content") (str []) end)))
          none none)
      ∷ sse_loop (lit "chatcmpl-octo-claude") events final

-- The bytes of a yield.
unfoldable pub sse_bytes : (Json → Text) → Yield → Text
sse_bytes dumps (chunk j) = lit "data: " ++ dumps j ++ 10 ∷ 10 ∷ []
sse_bytes dumps done = lit "data: [DONE]" ++ 10 ∷ 10 ∷ []
