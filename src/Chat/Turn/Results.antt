-- ===== src/Chat/Turn/Results.antt =====
-- src/octo/chat.py, _execute_tool_round: the result of a tool, cut off and read again.
use agentic_octopus.Prelude.{
  ℕ, ◌≡◌, ◌<◌, refl, true, List, ◌∷◌, Text, text_eq, length, take, contains,
}
use agentic_octopus.Prelude.Json.{Fields, obj}
use agentic_octopus.Prelude.Python.{value, throws, json_error}
use agentic_octopus.Providers.Calls.{python_error}
use agentic_octopus.Tools.{run_tool}
use agentic_octopus.Chat.{Sent}
use agentic_octopus.Chat.Turn.{
  call_error, Session, fail, ◌>>=◌, of_py, World, tool_result, execute_tool_round,
  tool_result_max_chars,
}

-- If the JSON text of what an allowed tool returns, a dict, is longer than 4000 characters, and no
-- shorter piece of that text is JSON: the tool has run, and the round raises a JSONDecodeError, with
-- no audit row and nothing else written.
pub long_result-raises :
    (w : World) (id : ℕ) (context : List Sent) (text tool : Text) (args : Fields)
    (allowed : List Text) (s : Session) (fields : Fields)
    → contains tool allowed ≡ true
    → run_tool w.show w.py_str w.int_text (w.web (length s.calls)) tool args ≡ value (obj fields)
    → tool_result_max_chars < length (w.dumps (obj fields))
    → ((n : ℕ)
        → n < length (w.dumps (obj fields))
        → w.loads (take n (w.dumps (obj fields))) ≡ throws json_error)
    → execute_tool_round w id context text tool args allowed s
      ≡ (fail (call_error (python_error json_error)), record s { calls = (tool, args) ∷ s.calls })
unfolding execute_tool_round tool_result of_py ◌>>=◌
long_result-raises w id context text tool args allowed s fields enabled returned long cut =
    rw (enabled, returned, of_py, cut tool_result_max_chars long) refl
