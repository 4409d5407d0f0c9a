-- ===== src/Executor/Claude/Results.antt =====
-- Which result message of a session counts.
use agentic_octopus.Prelude.{◌≡◌, refl, Option, none, some, List, [], ◌∷◌, arith, Text}
use agentic_octopus.Prelude.Json.{Json}
use agentic_octopus.Executor.{ExecOutcome, returned}
use agentic_octopus.Executor.Claude.{
  Message, ResultMessage, result_message, assistant_message, other_message, outcome_of,
  outcome_loop, no_result, execute,
}

-- The last result message of a session.
pub last_result : List Message → Option ResultMessage
last_result [] = none
last_result (result_message r ∷ ms) = or_else (last_result ms) r
  where
    or_else : Option ResultMessage → ResultMessage → Option ResultMessage
    or_else none r = some r
    or_else (some q) r = some q
last_result (assistant_message l ∷ ms) = last_result ms
last_result (other_message ∷ ms) = last_result ms

abbrev pub outcome_or : Text → ExecOutcome → Option ResultMessage → ExecOutcome
outcome_or model o none = o
outcome_or model o (some r) = outcome_of model r

outcome_loop-last :
    (model : Text) (o : ExecOutcome) (ms : List Message)
    → outcome_loop model o ms ≡ outcome_or model o (last_result ms)
unfolding outcome_loop last_result
outcome_loop-last model o [] = refl
outcome_loop-last model o (result_message r ∷ ms) =
    ground (arith, outcome_loop-last model (outcome_of model r) ms)
outcome_loop-last model o (assistant_message l ∷ ms) = outcome_loop-last model o ms
outcome_loop-last model o (other_message ∷ ms) = outcome_loop-last model o ms

-- A session that ends without an exception ends with the outcome of its last result message, and
-- as failed for want of a result if it has none.
pub execute-last_result :
    (py_str : Json → Text) (model : Text) (ms : List Message)
    → (execute py_str model ms none).ended ≡ returned (outcome_or model no_result (last_result ms))
unfolding execute
execute-last_result py_str model ms = ground (arith, outcome_loop-last model no_result ms)
