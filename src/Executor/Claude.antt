-- ===== src/Executor/Claude.antt =====
-- ClaudeSDKExecutor. The session of the SDK is the messages that it yields, and the exception that
-- ends it if one does.
pub mod Results
use agentic_octopus.Prelude.{
  ℕ, Bool, Option, none, some, List, [], ◌∷◌, ◌++◌, ◌==◌, Text, text_eq, lit, take, if◌then◌else◌,
}
use agentic_octopus.Prelude.Json.{Json, str, obj, end, field}
use agentic_octopus.Executor.{
  ExecStatus, ExecOutcome, failure, Ended, returned, raised, Execution, clip,
}

pub data Block : Type 0 where
  text_block : Text → Block
  tool_use_block : Text → Json → Block
  other_block : Block

pub record ResultMessage : Type 0 where
  pub subtype : Text
  pub result : Option Text
  pub total_cost_usd : Option ℕ
  pub session_id : Option Text

pub data Message : Type 0 where
  assistant_message : List Block → Message
  result_message : ResultMessage → Message
  other_message : Message

module _ (py_str : Json → Text) where
  unfoldable pub block_events : List Block → List (Text × Json)
  block_events [] = []
  block_events (text_block t ∷ l) =
      (lit "message", obj (field (lit "text") (str (take 2000 t)) end)) ∷ block_events l
  block_events (tool_use_block name input ∷ l) =
      (
        lit "tool_use",
        obj (field (lit "tool") (str name) (field (lit "input") (str (clip (py_str input))) end)),
      )
      ∷ block_events l
  block_events (other_block ∷ l) = block_events l

  unfoldable pub message_events : List Message → List (Text × Json)
  message_events [] = []
  message_events (assistant_message l ∷ ms) = block_events l ++ message_events ms
  message_events (result_message r ∷ ms) = message_events ms
  message_events (other_message ∷ ms) = message_events ms

-- The outcome of a result message; `model` is the manifest's.
unfoldable pub outcome_of : Text → ResultMessage → ExecOutcome
outcome_of model r =
    let ok = r.subtype == lit "success" in
    record {
      status = if ok then ExecStatus.completed else ExecStatus.failed;
      result = if ok then r.result else none;
      error = if ok then none else some (lit "sdk result subtype: " ++ r.subtype);
      cost_usd = r.total_cost_usd;
      session_id = r.session_id;
      model = some (if model == lit "default" then lit "claude-sdk-default" else model);
    }

-- The loop over the messages: the last result message counts.
unfoldable pub outcome_loop : Text → ExecOutcome → List Message → ExecOutcome
outcome_loop model outcome [] = outcome
outcome_loop model outcome (result_message r ∷ ms) = outcome_loop model (outcome_of model r) ms
outcome_loop model outcome (assistant_message l ∷ ms) = outcome_loop model outcome ms
outcome_loop model outcome (other_message ∷ ms) = outcome_loop model outcome ms

abbrev pub no_result : ExecOutcome
no_result = failure (lit "executor produced no result")

session_end : ExecOutcome → Option Text → Ended
session_end outcome none = returned outcome
session_end outcome (some exc) = raised exc

unfoldable pub execute : (Json → Text) → Text → List Message → Option Text → Execution
unfolding outcome_loop session_end
execute py_str model messages broken = record {
  emitted = message_events py_str messages;
  written = [];
  ended = session_end (outcome_loop model no_result messages) broken;
}
