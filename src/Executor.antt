-- ===== src/Executor.antt =====
-- src/octo/executor.py: the executors and what an execution yields.
pub mod Claude
pub mod Openrouter
use agentic_octopus.Prelude.{
  ℕ, Bool, Option, none, some, List, [], ◌∷◌, ◌++◌, ◌==◌, Text, text_eq, lit, take, length, leb,
  if◌then◌else◌,
}
use agentic_octopus.Prelude.Dict.{Dict, lookup}
use agentic_octopus.Prelude.Json.{Json, field, end}
use agentic_octopus.Db.{Run}
use agentic_octopus.Registry.{LoadedAgent}

pub data ExecStatus : Type 0 where
  completed failed : ExecStatus

pub record ExecOutcome : Type 0 where
  pub status : ExecStatus
  pub result : Option Text
  pub error : Option Text
  pub cost_usd : Option ℕ
  pub session_id : Option Text
  pub model : Option Text

abbrev pub failure : Text → ExecOutcome
failure error = record {
  status = failed;
  result = none;
  error = some error;
  cost_usd = none;
  session_id = none;
  model = none;
}

-- How `execute` ended: it returned, or raised an exception of this `repr`.
pub data Ended : Type 0 where
  returned : ExecOutcome → Ended
  raised : Text → Ended

-- The events passed to `on_event` in order, the files written, and the end.
pub record Execution : Type 0 where
  pub emitted : List (Text × Json)
  pub written : List (Text × Text)
  pub ended : Ended

-- `AgentExecutor`: what `execute` does on a claimed run and its agent.
abbrev pub AgentExecutor : Type 0
AgentExecutor = Run → LoadedAgent → Execution

-- `_clip(value)`, on `str(value)`: the ellipsis is one character.
unfoldable pub clip : Text → Text
clip s = if leb (length s) 500 then s else take 500 s ++ 8230 ∷ []

-- The names that get_executor knows.
pub data Builtin : Type 0 where
  claude_sdk openrouter : Builtin

unfoldable pub get_executor : Text → Option Builtin
get_executor name =
    if name == lit "claude-sdk"
    then some claude_sdk
    else if name == lit "openrouter"
    then some openrouter
    else none

-- `FakeExecutor`: canned outcomes by the agent's name.
unfoldable pub fake_execute : Dict Text ExecOutcome → ExecOutcome → AgentExecutor
fake_execute outcomes default run agent = record {
  emitted = (lit "log", Json.obj (field (lit "msg") (Json.str (lit "fake executor ran")) end)) ∷ [];
  written = [];
  ended = returned (pick (lookup agent.manifest.name outcomes));
}
  where
    pick : Option ExecOutcome → ExecOutcome
    pick none = default
    pick (some o) = o
