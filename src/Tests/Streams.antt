-- ===== src/Tests/Streams.antt =====
-- A stream of events, in chunks.
use agentic_octopus.Prelude.{
  ◌≡◌, refl, Option, none, some, List, [], ◌∷◌, ◌++◌, map, ◌==◌, Text, text_eq, text_beq, lit,
  contains, drop_while, if◌then◌else◌,
}
use agentic_octopus.Prelude.Json.{Json, str, obj, field, end}
use agentic_octopus.Prelude.Python.{
  Py, value, throws, json_error, ◌>>=◌, get, subscript, first, field_of,
}
use agentic_octopus.Providers.Claude.Replies.{
  Reply, StreamEvent, text_delta, message_start, chunk_json, sse_bytes, sse_from_stream, sse_loop,
  finish_reason, usage,
}
use agentic_octopus.Providers.Claude.Replies.Content.{streamed}
use agentic_octopus.Chat.Sse.{finished, iter_sse_deltas, strip_bytes}
use agentic_octopus.Chat.Sse.Boundaries.{joined_chunks, iter_sse_deltas-joined}
use agentic_octopus.Chat.Sse.Claude.{delta_texts, AllReadable, sse_from_stream-read}

abbrev final : Reply
final = record {
  id = lit "msg_1";
  model = lit "m";
  content = [];
  stop_reason = none;
  tokens = record { input_tokens = some 12; output_tokens = some 3 };
}

abbrev events : List StreamEvent
events = message_start (lit "msg_1") ∷ text_delta (lit "Eight") ∷ []

abbrev head_json : Json
head_json =
    chunk_json 5 (lit "m") (lit "chatcmpl-octo-claude")
      (obj (field (lit "role") (str (lit "assistant")) (field (lit "content") (str []) end))) none
      none

abbrev text_json : Json
text_json =
    chunk_json 5 (lit "m") (lit "msg_1") (obj (field (lit "content") (str (lit "Eight")) end)) none
      none

abbrev last_json : Json
last_json =
    chunk_json 5 (lit "m") (lit "msg_1") (obj end) (some (finish_reason none))
      (some (usage final.tokens))

-- One letter for each of the three.
abbrev loads : Text → Py Json
loads t =
    if t == lit "h"
    then value head_json
    else if t == lit "t"
    then value text_json
    else if t == lit "l"
    then value last_json
    else throws json_error

abbrev letter : Py (Option Json) → Text
letter (value (some (str []))) = lit "h"
letter (value (some (str (c ∷ t)))) = lit "t"
letter _ = lit "l"

abbrev content_of : Json → Py (Option Json)
content_of j = do
  choices ← subscript j (lit "choices")
  choice ← first choices
  delta ← subscript choice (lit "delta")
  get delta (lit "content")

abbrev dumps : Json → Text
dumps j = letter (content_of j)

readable : AllReadable dumps loads (sse_from_stream 5 (lit "m") events final)
unfolding sse_from_stream sse_loop chunk_json subscript get first field_of text_beq contains
    strip_bytes drop_while
readable = ((refl, refl, refl, refl), ((refl, refl, refl, refl), ((refl, refl, refl, refl), tt)))

sse_from_stream-read_example :
    (delta_texts
        (iter_sse_deltas loads (map (sse_bytes dumps) (sse_from_stream 5 (lit "m") events final))).0
      ≡ streamed events)
    × ((iter_sse_deltas loads (map (sse_bytes dumps) (sse_from_stream 5 (lit "m") events final))).1
        ≡ some finished)
sse_from_stream-read_example =
    sse_from_stream-read dumps loads
      (map (sse_bytes dumps) (sse_from_stream 5 (lit "m") events final)) 5 (lit "m") events final
      readable refl

-- The separator of two events stands in two chunks.
iter_sse_deltas-joined_example :
    iter_sse_deltas loads ((lit "data: h" ++ 10 ∷ []) ∷ (10 ∷ lit "data: t" ++ 10 ∷ 10 ∷ []) ∷ [])
    ≡ iter_sse_deltas loads (
        joined_chunks ((lit "data: h" ++ 10 ∷ []) ∷ (10 ∷ lit "data: t" ++ 10 ∷ 10 ∷ []) ∷ []) ∷ [])
iter_sse_deltas-joined_example =
    iter_sse_deltas-joined loads
      ((lit "data: h" ++ 10 ∷ []) ∷ (10 ∷ lit "data: t" ++ 10 ∷ 10 ∷ []) ∷ [])
