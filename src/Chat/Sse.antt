-- ===== src/Chat/Sse.antt =====
-- src/octo/chat.py, _iter_sse_deltas: the events of a provider's stream of bytes.
-- `loads` is json.loads on the bytes of one line.
pub mod Boundaries
pub mod Claude
use agentic_octopus.Prelude.{
  ℕ, zero, suc, Bool, true, false, ◌&&◌, Option, none, some, List, [], ◌∷◌, ◌++◌, ◌==◌, nat_eq,
  Text, text_eq, lit, length, drop, split, starts_with, drop_while, nat_beq, leb, ◌||◌, reverse,
  or_default, if◌then◌else◌,
}
use agentic_octopus.Prelude.Json.{Json, obj, arr, cons, nil, end}
use agentic_octopus.Prelude.Python.{Py, value, throws, Exc, ◌>>=◌, get, first, if_truthy}

-- What the generator yields: {'usage': …}, {'model': …} or {'delta': …}.
pub data Delta : Type 0 where
  usage model text : Json → Delta

-- How it ended before its chunks did.
pub data Stop : Type 0 where
  finished : Stop
  raised : Exc → Stop

abbrev pub Streamed : Type 0
Streamed = List Delta × Option Stop

-- What is yielded, then what follows unless it ended.
unfoldable pub followed_by : Streamed → Streamed → Streamed
followed_by (ds, some s) next = (ds, some s)
followed_by (ds, none) (es, s) = (ds ++ es, s)

abbrev push_byte : ℕ → Option (Text × Text) → Option (Text × Text)
push_byte c none = none
push_byte c (some (event, rest)) = some (c ∷ event, rest)

-- `buffer.split(b"\n\n", 1)` if b"\n\n" is in the buffer
unfoldable pub split_event : Text → Option (Text × Text)
split_event [] = none
split_event (c ∷ []) = none
split_event (c ∷ d ∷ s) =
    let longer = split_event (d ∷ s) in
    if c == 10 && d == 10 then some ([], s) else push_byte c longer

abbrev pub push_event : Text → List Text × Text → List Text × Text
push_event event (events, rest) = (event ∷ events, rest)

-- The `while` loop, each round of which takes two bytes at least out of the buffer.
unfoldable pub frames_loop : ℕ → Text → List Text × Text
frames_loop zero buffer = ([], buffer)
frames_loop (suc fuel) buffer = elim (split_event buffer) [
  | none ↦ ([], buffer)
  | some (event, rest) ↦ push_event event (frames_loop fuel rest)
]

unfoldable pub frames : Text → List Text × Text
frames buffer = frames_loop (length buffer) buffer

-- `strip()` of bytes
abbrev pub is_ascii_space : ℕ → Bool
is_ascii_space c = (leb 9 c && leb c 13) || nat_beq c 32

unfoldable pub strip_bytes : Text → Text
strip_bytes s = reverse (drop_while is_ascii_space (reverse (drop_while is_ascii_space s)))

-- `if j: yield …`
abbrev pub yield_if : Option Json → (Json → Delta) → List Delta
yield_if none d = []
yield_if (some j) d = d j ∷ []

or_empty : Option Json → Json
or_empty none = obj end
or_empty (some j) = j

-- `((chunk.get("choices") or [{}])[0].get("delta", {})).get("content")`, if it is truthy
unfoldable pub delta_content : Json → Py (Option Json)
unfolding or_empty
delta_content chunk = do
  choices ← get chunk (lit "choices")
  choice ← first (or_default (if_truthy choices) (arr (cons (obj end) nil)))
  delta ← get choice (lit "delta")
  content ← get (or_empty delta) (lit "content")
  value (if_truthy content)

-- A read of the chunk and what follows it.
on_read : Py (Option Json) → (Json → Delta) → Streamed → Streamed
on_read (throws x) d next = ([], some (raised x))
on_read (value j) d next = followed_by (yield_if j d, none) next

unfoldable pub truthy_value : Py (Option Json) → Py (Option Json)
truthy_value (throws x) = throws x
truthy_value (value j) = value (if_truthy j)

unfoldable pub chunk_deltas : Json → Streamed
unfolding on_read followed_by truthy_value
chunk_deltas chunk = on_read (truthy_value (get chunk (lit "usage"))) Delta.usage (
    on_read (truthy_value (get chunk (lit "model"))) Delta.model
      (on_read (delta_content chunk) Delta.text ([], none)))

module _ (loads : Text → Py Json) where
  -- A JSONDecodeError is passed over; any other exception leaves the generator.
  parsed : Py Json → Streamed
  parsed (value chunk) = chunk_deltas chunk
  parsed (throws Exc.json_error) = ([], none)
  parsed (throws x) = ([], some (raised x))

  unfoldable pub line_deltas : Text → Streamed
  unfolding parsed
  line_deltas line =
      let payload = strip_bytes (drop 6 line) in
      if starts_with line (lit "data: ")
      then if payload == lit "[DONE]" then ([], some finished) else parsed (loads payload)
      else ([], none)

  unfoldable pub lines_deltas : List Text → Streamed
  lines_deltas [] = ([], none)
  lines_deltas (line ∷ lines) = followed_by (line_deltas line) (lines_deltas lines)

  unfoldable pub events_deltas : List Text → Streamed
  events_deltas [] = ([], none)
  events_deltas (event ∷ events) =
      followed_by (lines_deltas (split 10 event)) (events_deltas events)

  -- The loop over the chunks, with the buffer.
  unfoldable pub chunks_deltas : Text → List Text → Streamed
  chunks_deltas buffer [] = ([], none)
  chunks_deltas buffer (raw ∷ chunks) =
      let (events, rest) = frames (buffer ++ raw) in
      followed_by (events_deltas events) (chunks_deltas rest chunks)

  unfoldable pub iter_sse_deltas : List Text → Streamed
  iter_sse_deltas chunks = chunks_deltas [] chunks
