-- ===== src/Tests/Turns.antt =====
-- Two turns of a conversation whose persona may search: the model calls the tool and then answers.
use agentic_octopus.Prelude.{
  ℕ, zero, suc, arith, ◌+◌, ◌≡◌, inl, refl, false, none, some, [], ◌∷◌, ◌++◌, ◌==◌, nat_eq, Text,
  text_eq, text_beq, lit, starts_with, if◌then◌else◌, length, nat_beq,
}
use agentic_octopus.Prelude.Dict.{lookup}
use agentic_octopus.Prelude.Json.{Json, null, str, arr, obj, nil, cons, end, field}
use agentic_octopus.Prelude.Python.{Py, value, throws, json_error}
use agentic_octopus.Config.{default_settings}
use agentic_octopus.Registry.{LoadedAgent}
use agentic_octopus.Providers.Errors.{ok}
use agentic_octopus.Providers.Base.{
  openrouter, Route, route_chat_model, to_default, get_chat_provider,
}
use agentic_octopus.Providers.Openrouter
use agentic_octopus.Providers.Claude.Requests.{status_error, not_opened}
use agentic_octopus.Providers.Calls.{Servers}
use agentic_octopus.Table.{find, update_where}
use agentic_octopus.Tools.{Web, error, raised}
use agentic_octopus.Chat.{Role, tools_for}
use agentic_octopus.Chat.Turn.Results.{long_result-raises}
use agentic_octopus.Chat.Store.Laws.{IsOwned, ChatStep-IsOwned, deleted}
use agentic_octopus.Providers.Calls.{python_error}
use agentic_octopus.Chat.Store.{
  delete_conversation, new_message, no_columns, ChatDb, Conversation, get_conversation,
}
use agentic_octopus.Chat.Turn.{fail, call_error, Result, Session, World, routed}
use agentic_octopus.Chat.Turn.Works.{Works}
use agentic_octopus.Chat.Costs.{PostsFree, turn-PostsFree}
use agentic_octopus.Chat.Send.{send}
use agentic_octopus.Chat.Send.Bounds.{AskedOf, send-Works}
use agentic_octopus.Chat.Stream.{send_stream, first_locals}
use agentic_octopus.Chat.Stream.Bounds.Turns.{send_stream-Works}
use agentic_octopus.Chat.Stream.Mirror.Persisted.{Quits, Stored, send_stream-Stored}
use agentic_octopus.Chat.Stream.{
  try_finally, after, rounds, read_round, on_deltas, on_delta, emit, show, prefix, show_unless,
  is_tool_round, decide_now, finally,
}
use agentic_octopus.Chat.Turn.{
  prepare, conversation, found, of_attempt, prepared, history, append_to, stored, of_py, of_answer,
  int_column, execute_tool_round, tool_result,
}
use agentic_octopus.Chat.Store.{append_message, inserted, get_messages, rows_where}
use agentic_octopus.Chat.Sse.{
  iter_sse_deltas, chunks_deltas, frames, frames_loop, split_event, events_deltas, lines_deltas,
  line_deltas, chunk_deltas, delta_content, strip_bytes, followed_by, truthy_value,
}
use agentic_octopus.Prelude.{split, lstrip, strip, contains, drop_while}
use agentic_octopus.Prelude.Dict.{insert, without}
use agentic_octopus.Prelude.Python.{get, first, if_truthy, truthy, field_of, subscript}
use agentic_octopus.Providers.Claude.Requests.{join_with}
use agentic_octopus.Chat.Protocol.{
  parse_tool_call, call_in_lines, read_call, or_no_call, splitlines, lines_behind, is_line_break,
  dict_of,
}
use agentic_octopus.Tools.{run_tool, web_search, int_arg, search_result}
use agentic_octopus.Chat.{routed_model_prefix}
use agentic_octopus.Chat.Turn
use agentic_octopus.Chat.Stream
use agentic_octopus.Providers.Calls
use agentic_octopus.Prelude.{is_space}

abbrev searcher : LoadedAgent
searcher = record {
  manifest = record {
    name = lit "chat-assistant";
    description = [];
    tools = lit "web_search" ∷ [];
    executor = lit "openrouter";
    model = lit "default";
    max_turns = 5;
    requires_approval = false;
    schedule = none;
    params = null;
    output_dir = [];
  };
  prompt = lit "Be brief.";
  path = lit "chat-assistant";
}

-- An answer of the server, and a chunk of its stream.
abbrev answer : Text → Json
answer content = obj (
    field (lit "choices")
      (arr (
        cons (obj (field (lit "message") (obj (field (lit "content") (str content) end)) end)) nil))
      (field (lit "model") (str (lit "acme/m:free")) end))

abbrev delta : Text → Json
delta content = obj (
    field (lit "choices")
      (arr
        (cons (obj (field (lit "delta") (obj (field (lit "content") (str content) end)) end)) nil))
      end)

abbrev loads : Text → Py Json
loads t =
    if t == lit "a1"
    then value (answer (lit "TOOL_CALL {1}"))
    else if t == lit "a2"
    then value (answer (lit "Eight arms."))
    else if t == lit "d1"
    then value (delta (lit "TOOL_CALL {1}"))
    else if t == lit "d2"
    then value (delta (lit "Eight arms."))
    else if t == lit "{1}"
    then value (
        obj (
          field (lit "tool") (str (lit "web_search"))
            (field (lit "args") (obj (field (lit "query") (str (lit "octopus")) end)) end)))
    else if t == lit "{}"
    then value (obj end)
    else throws json_error

abbrev servers : ℕ → Servers
servers n = record {
  time = 9;
  openrouter_post = λ body. (200, if nat_beq n 0 then lit "a1" else lit "a2");
  openrouter_stream = λ body.
      (200, (lit "data: " ++ (if nat_beq n 0 then lit "d1" else lit "d2") ++ 10 ∷ 10 ∷ []) ∷ []);
  ollama_post = λ body. (500, []);
  ollama_stream = λ body. (500, []);
  create = λ body. status_error 500 [];
  open_stream = λ body. not_opened 500 [];
}

abbrev offline : Web
offline = record {
  search = λ query limit. raised (lit "offline");
  get = λ url. raised (lit "offline");
  page_text = λ html. raised (lit "offline");
}

abbrev world : World
world = record {
  settings = default_settings;
  registry = (lit "chat-assistant", searcher) ∷ [];
  show = λ n. lit "2";
  show_id = λ n. lit "7";
  py_str = λ j. lit "None";
  int_text = λ t. value 6;
  int_cast = λ t. none;
  loads = loads;
  dumps = λ j. lit "{}";
  servers = servers;
  web = λ n. offline;
  monotonic = 3;
  tags_reply = none;
  tags_cache = record { ts = 0; tags = [] };
  clock = λ id. id + 100;
  duration_ms = 40;
}

abbrev convo : Conversation
convo = record {
  title = none;
  persona = lit "chat-assistant";
  model = lit "default";
  created_at = 50;
  updated_at = 50;
}

abbrev session : Session
session = record {
  db = record { conversations = (7, convo) ∷ []; messages = []; next_id = 1; completions = [] };
  requests = [];
  calls = [];
  events = [];
  patience = none;
  locals = first_locals [];
}

abbrev auto_route : Route
auto_route = record {
  provider = openrouter;
  model = lit "octo/auto";
  provider_name = lit "openrouter";
}

convo_there : get_conversation 7 session.db ≡ some convo
unfolding get_conversation find
convo_there = refl

convo-routed : routed world convo ≡ ok auto_route
unfolding routed route_chat_model to_default get_chat_provider Openrouter.resolve_model
    Openrouter.enforce_free starts_with text_beq
convo-routed = refl

send-Works_example :
    Works
      (AskedOf auto_route)
      (tools_for default_settings (some (lit "chat-assistant")) world.registry)
      (λ m. m.conversation_id ≡ 7)
      3
      2
      session
      (send world 7 (lit "How many arms?") none session).1
send-Works_example =
    send-Works world 7 (lit "How many arms?") none session convo auto_route convo_there convo-routed

send_stream-Works_example :
    Works
      (AskedOf auto_route)
      (tools_for default_settings (some (lit "chat-assistant")) world.registry)
      (λ m. m.conversation_id ≡ 7)
      3
      2
      session
      (send_stream world 7 (lit "How many arms?") none session).1
send_stream-Works_example =
    send_stream-Works world 7 (lit "How many arms?") none session convo auto_route convo_there
      convo-routed

turn-PostsFree_example :
    Works
      (PostsFree default_settings)
      (tools_for default_settings (some (lit "chat-assistant")) world.registry)
      (λ m. m.conversation_id ≡ 7)
      3
      2
      session
      (send world 7 (lit "How many arms?") none session).1
    × Works
        (PostsFree default_settings)
        (tools_for default_settings (some (lit "chat-assistant")) world.registry)
        (λ m. m.conversation_id ≡ 7)
        3
        2
        session
        (send_stream world 7 (lit "How many arms?") none session).1
turn-PostsFree_example =
    turn-PostsFree world 7 (lit "How many arms?") none session convo auto_route refl convo_there
      convo-routed refl

abbrev sent_turn : Result ℕ × Session
sent_turn = send world 7 (lit "How many arms?") none session

abbrev streamed_turn : Result Unit × Session
streamed_turn = send_stream world 7 (lit "How many arms?") none session

streamed-Quits : Quits streamed_turn.0
unfolding send_stream try_finally after rounds read_round on_deltas on_delta emit show prefix
    show_unless is_tool_round decide_now finally Turn.◌>>=◌ prepare conversation found of_attempt
    routed prepared history append_to stored of_py of_answer int_column execute_tool_round
    tool_result append_message inserted get_conversation get_messages rows_where find
    route_chat_model to_default get_chat_provider iter_sse_deltas chunks_deltas frames frames_loop
    split_event events_deltas lines_deltas line_deltas chunk_deltas delta_content strip_bytes
    followed_by truthy_value starts_with text_beq split lstrip strip contains drop_while lookup
    insert without get first if_truthy truthy field_of subscript join_with parse_tool_call
    call_in_lines read_call or_no_call splitlines lines_behind is_line_break dict_of run_tool
    web_search int_arg search_result tools_for routed_model_prefix Openrouter.resolve_model
    Openrouter.enforce_free Openrouter.stream Openrouter.route_payload Calls.stream Stream.complete
    is_space update_where
streamed-Quits = inl refl

send_stream-Stored_example : Stored 7 session streamed_turn.1
send_stream-Stored_example =
    send_stream-Stored world 7 (lit "How many arms?") none session convo auto_route convo_there
      convo-routed streamed-Quits

abbrev asked_db : ChatDb
asked_db = record {
  conversations = (7, convo) ∷ [];
  messages = (1, new_message 101 7 Role.user (lit "How many arms?") no_columns) ∷ [];
  next_id = 2;
  completions = [];
}

ChatStep-IsOwned_example : IsOwned (delete_conversation 7 asked_db).1
unfolding get_conversation find new_message
ChatStep-IsOwned_example = ChatStep-IsOwned (deleted 7 asked_db) (refl, tt)

-- A server whose answers are never JSON, and a tool result of 4001 characters.
abbrev letters : ℕ → Text
letters zero = []
letters (suc n) = b'a' ∷ letters n

length-letters : (n : ℕ) → length (letters n) ≡ n
length-letters zero = refl
length-letters (suc n) = omega (arith, length-letters n)

abbrev long_world : World
long_world = record world { loads = λ t. throws json_error; dumps = λ j. letters 4001 }

no_query :
    run_tool long_world.show long_world.py_str long_world.int_text offline (lit "web_search") end
    ≡ value (error (lit "web_search requires a 'query'"))
unfolding run_tool web_search field_of strip lstrip drop_while text_beq
no_query = refl

long_result-raises_example :
    execute_tool_round long_world 7 []
      (lit "TOOL_CALL")
      (lit "web_search")
      end
      (lit "web_search" ∷ [])
      session
    ≡ (
      fail (call_error (python_error json_error)),
      record session { calls = (lit "web_search", end) ∷ [] },
    )
unfolding contains text_beq
long_result-raises_example =
    long_result-raises long_world 7 [] (lit "TOOL_CALL") (lit "web_search") end
      (lit "web_search" ∷ []) session
      (field (lit "error") (str (lit "web_search requires a 'query'")) end) refl no_query
      (omega (arith, length-letters 4001)) (λ n h. refl)
