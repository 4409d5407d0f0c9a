-- ===== src/Chat/Stream.antt =====
-- src/octo/chat.py, send_stream: a turn whose answer is streamed, to a client that may close the
-- stream at any event.
pub mod Bounds
pub mod Mirror
use agentic_octopus.Prelude.{
  ℕ, zero, suc, ◌+◌, Bool, true, false, not, ◌&&◌, ◌||◌, Option, none, some, List, [], ◌∷◌, ◌++◌,
  ◌==◌, nat_eq, Text, text_eq, lit, length, leb, lstrip, starts_with, contains, if◌then◌else◌,
}
use agentic_octopus.Prelude.Dict.{Dict}
use agentic_octopus.Prelude.Json.{Json, Fields, null, bool, str, obj, end, field}
use agentic_octopus.Prelude.Python.{get, type_error}
use agentic_octopus.Providers.Calls
use agentic_octopus.Providers.Calls.{python_error}
use agentic_octopus.Providers.Claude.Requests.{join_with}
use agentic_octopus.Chat.{Role, Sent, routed_model_prefix}
use agentic_octopus.Chat.Store.{Columns}
use agentic_octopus.Chat.Protocol.{parse_tool_call, tool_marker}
use agentic_octopus.Chat.Send.{text_of}
use agentic_octopus.Chat.Sse.{Delta, Stop, Streamed, finished, raised, iter_sse_deltas}
use agentic_octopus.Chat.Turn
use agentic_octopus.Chat.Turn.{
  Failure, call_error, closed, Event, chunk, tool_status, Session, Locals, Result, Do, done, fail,
  ◌>>=◌, ◌>>◌, pure, raise, of_py, of_answer, World, payload_of, Prepared, append_to, prepare,
  execute_tool_round, turn_tags, int_column,
}

-- The variables of one round.
pub record Round : Type 0 where
  pub held : Text
  pub decided : Bool
  pub tool_round : Bool
  pub round_text : List Json

abbrev pub new_round : Round
new_round = record { held = []; decided = false; tool_round = false; round_text = [] }

abbrev pub set_locals : (Locals → Locals) → Do Unit
set_locals f s = (done tt, record s { locals = f s.locals })

abbrev pub locals : Do Locals
locals s = (done s.locals, s)

-- The client takes an event: it resumes the generator, or closes it there.
taken : Option ℕ → Session → Result Unit × Session
taken none s = (done tt, s)
taken (some zero) s = (fail closed, s)
taken (some (suc zero)) s = (fail closed, record s { patience = some zero })
taken (some (suc (suc n))) s = (done tt, record s { patience = some (suc n) })

unfoldable pub emit : Event → Do Unit
unfolding taken
emit e s = taken s.patience (record s { events = e ∷ s.events })

-- `parts.append(text)` and `yield _chunk_event(text)`
unfoldable pub show : Json → Do Unit
show text = do set_locals (λ l. record l { parts = l.parts ++ text ∷ [] }); emit (chunk text)

-- An exception of the `finally` block takes the place of the other.
unfoldable pub after : Result Unit → Result Unit → Result Unit
after result (done _) = result
after result (fail e) = fail e

-- `try: m finally: f`
unfoldable pub try_finally : Do Unit → Do Unit → Do Unit
unfolding after
try_finally m f s =
    let (result, s') = m s in let (end_result, s'') = f s' in (after result end_result, s'')

-- `{} if completed else {"truncated": True}`
abbrev pub stream_metadata : Bool → Json
stream_metadata true = obj end
stream_metadata false = obj (field (lit "truncated") (bool true) end)

module _ (w : World) (id : ℕ) (p : Prepared) where
  show_prefix : Text → Do Unit
  show_prefix [] = pure tt
  show_prefix (c ∷ t) = show (str (c ∷ t))

  -- `if p := _prefix_chunk(): yield _chunk_event(p)`
  unfoldable pub prefix : Do Unit
  unfolding show_prefix
  prefix = do
    l ← locals
    (if l.prefix_done
        then pure tt
        else (set_locals (λ l'. record l' { prefix_done = true })
            >> show_prefix (routed_model_prefix w.settings (p.route).model l.actual_model)))

  -- `if not tool_round and text:` the prefix and the text are shown
  shown_text : Text → Do Unit
  shown_text [] = pure tt
  shown_text (c ∷ t) = prefix >> show (str (c ∷ t))

  unfoldable pub show_unless : Bool → Text → Do Unit
  unfolding shown_text
  show_unless true text = pure tt
  show_unless false text = shown_text text

  abbrev pub any_tool : List Text → Bool
  any_tool [] = false
  any_tool (t ∷ ts) = true

  unfoldable pub is_tool_round : Text → Bool
  is_tool_round text = any_tool p.tools && starts_with (lstrip text) tool_marker

  -- A delta of a round that is decided, and of one that is not.
  on_decided : Json → Round → Do Round
  on_decided text r =
      if r.tool_round
      then pure (record r { round_text = r.round_text ++ text ∷ [] })
      else (show text >> pure (record r { round_text = r.round_text ++ text ∷ [] }))

  on_held : Json → Text → Round → Do Round
  on_held text held r =
      if leb (length tool_marker) (length (lstrip held)) || contains 10 held
      then (show_unless (is_tool_round held) held
          >> pure (record {
            held = held;
            decided = true;
            tool_round = is_tool_round held;
            round_text = r.round_text ++ text ∷ [];
          }))
      else pure (record r { held = held; round_text = r.round_text ++ text ∷ [] })

  on_undecided : Json → Round → Do Round
  unfolding on_held
  on_undecided (str t) r = on_held (str t) (r.held ++ t) r
  on_undecided _ r = raise (call_error (python_error type_error))

  unfoldable pub on_delta : Delta → Round → Do Round
  unfolding on_decided on_undecided
  on_delta (Delta.usage j) r = set_locals (λ l. record l { usage = j }) >> pure r
  on_delta (Delta.model j) r = set_locals (λ l. record l { actual_model = text_of w j }) >> pure r
  on_delta (Delta.text j) r = if r.decided then on_decided j r else on_undecided j r

  unfoldable pub on_deltas : List Delta → Round → Do Round
  on_deltas [] r = pure r
  on_deltas (d ∷ ds) r = on_delta d r >>= on_deltas ds

  ended : Option Stop → Round → Do Round
  ended (some (raised x)) r = raise (call_error (python_error x))
  ended _ r = pure r

  opened : List Sent → Do (List Text)
  opened context s =
      let payload = payload_of (p.route).model context in
      of_answer
        (Calls.stream w.settings w.dumps (w.servers (length s.requests)) (p.route).provider payload)
        (record s { requests = ((p.route).provider, payload) ∷ s.requests })

  -- `async with provider.stream(…)` and the loop over its deltas
  unfoldable pub read_round : List Sent → Do Round
  unfolding opened ended
  read_round context = do
    chunks ← opened context
    r ← on_deltas (iter_sse_deltas w.loads chunks).0 new_round
    ended (iter_sse_deltas w.loads chunks).1 r

  unfoldable pub complete : Do Unit
  complete = set_locals (λ l. record l { completed = true })

  -- `if not decided:` the text of the round decides now
  unfoldable pub decide_now : Text → Round → Do Bool
  decide_now full r =
      if r.decided
      then pure r.tool_round
      else (show_unless (is_tool_round full) full >> pure (is_tool_round full))

  -- The loop from round `round_no` on, with `left` rounds of its range left.
  unfoldable pub rounds : ℕ → ℕ → List Sent → Do Unit
  rounds zero round_no context = pure tt
  rounds (suc left) round_no context = do
    r ← read_round context
    full ← of_py (join_with [] r.round_text)
    tool_round ← decide_now full r
    (if not tool_round
        then complete
        else (of_py (parse_tool_call w.show w.loads w.py_str (str full)) >>= λ call. elim call [
          | none ↦ prefix >> show (str full) >> complete
          | some (tool, args) ↦
              if leb (w.settings).chat_max_tool_calls round_no
              then (prefix >> show (str full) >> complete)
              else (emit (tool_status tool args (suc round_no))
                  >> (execute_tool_round w id context full tool args p.tools >>= λ longer.
                      rounds left (suc round_no) longer))
        ]))

  announce : Locals → ℕ → Do Unit
  announce l message_id = if l.completed then emit (Turn.finished message_id l.usage) else pure tt

  persist : Option (Dict Text Json) → Locals → Text → Do Unit
  unfolding announce
  persist tags l [] = pure tt
  persist tags l (c ∷ content) = do
    prompt ← of_py (get l.usage (lit "prompt_tokens"))
    completion ← of_py (get l.usage (lit "completion_tokens"))
    prompt_tokens ← int_column w.int_cast prompt
    completion_tokens ← int_column w.int_cast completion
    row ← append_to w id Role.assistant (c ∷ content) (record {
      model = some l.actual_model;
      metadata = stream_metadata l.completed;
      prompt_tokens = prompt_tokens;
      completion_tokens = completion_tokens;
      duration_ms = some w.duration_ms;
      tags = turn_tags w id p ((lit "stream", bool true) ∷ []) tags;
    })
    announce l row

  -- The `finally` block.
  unfoldable pub finally : Option (Dict Text Json) → Do Unit
  unfolding persist
  finally tags = do l ← locals; content ← of_py (join_with [] l.parts); persist tags l content

-- The variables at the start.
abbrev pub first_locals : Text → Locals
first_locals model = record {
  usage = obj end;
  actual_model = model;
  parts = [];
  prefix_done = false;
  completed = false;
}

unfoldable pub send_stream : World → ℕ → Text → Option (Dict Text Json) → Do Unit
send_stream w id user_text tags = do
  p ← prepare w id user_text
  set_locals (λ l. first_locals (p.route).model)
  try_finally (rounds w id p (suc (w.settings).chat_max_tool_calls) 0 p.context)
      (finally w id p tags)
