-- ===== src/Providers/Claude/Replies/Content.antt =====
-- What a client reads out of the translated stream.
use agentic_octopus.Prelude.{
  ℕ, ◌≡◌, refl, ap, Option, none, some, List, [], ◌∷◌, ◌++◌, Text, text_beq, text_eq, lit,
}
use agentic_octopus.Prelude.Json.{Json, Fields, str, arr, obj, cons, end}
use agentic_octopus.Prelude.Python.{field_of}
use agentic_octopus.Providers.Claude.Replies.{
  Reply, StreamEvent, message_start, text_delta, other_event, Yield, chunk, done, chunk_json,
  sse_loop, sse_from_stream,
}

-- A client's reading of `choices[0].delta.content`; whatever is not there is no text.
abbrev pub fields : Option Json → Fields
fields (some (obj fs)) = fs
fields _ = end

abbrev pub first_item : Option Json → Option Json
first_item (some (arr (cons j l))) = some j
first_item _ = none

abbrev pub text_or_none : Option Json → Text
text_or_none (some (str t)) = t
text_or_none _ = []

unfoldable pub delta_text : Json → Text
delta_text j = text_or_none (
    field_of (lit "content") (
      fields (
        field_of (lit "delta") (fields (first_item (field_of (lit "choices") (fields (some j))))))))

unfoldable pub read_stream : List Yield → Text
read_stream [] = []
read_stream (chunk j ∷ l) = delta_text j ++ read_stream l
read_stream (done ∷ l) = read_stream l

-- The text of the events.
unfoldable pub streamed : List StreamEvent → Text
streamed [] = []
streamed (message_start id ∷ es) = streamed es
streamed (text_delta t ∷ es) = t ++ streamed es
streamed (other_event ∷ es) = streamed es

sse_loop_lem :
    (created : ℕ) (model msg_id : Text) (events : List StreamEvent) (final : Reply)
    → read_stream (sse_loop created model msg_id events final) ≡ streamed events
unfolding sse_loop read_stream streamed delta_text chunk_json field_of text_beq
sse_loop_lem created model msg_id [] final = refl
sse_loop_lem created model msg_id (message_start id ∷ es) final =
    sse_loop_lem created model id es final
sse_loop_lem created model msg_id (text_delta t ∷ es) final =
    ap (λ l. t ++ l) (sse_loop_lem created model msg_id es final)
sse_loop_lem created model msg_id (other_event ∷ es) final =
    sse_loop_lem created model msg_id es final

-- A client that joins the contents of the chunks reads the text deltas of the Messages API's stream,
-- all of them, in order and nothing else.
pub sse_from_stream-content :
    (created : ℕ) (model : Text) (events : List StreamEvent) (final : Reply)
    → read_stream (sse_from_stream created model events final) ≡ streamed events
unfolding sse_from_stream read_stream delta_text chunk_json field_of text_beq
sse_from_stream-content created model events final =
    sse_loop_lem created model (lit "chatcmpl-octo-claude") events final
