-- ===== src/Chat.antt =====
-- src/octo/chat.py: what the chat service sends to a model.
-- `show` is Python's `str` of a number.
pub mod Window
pub mod Sse
pub mod Store
pub mod Protocol
pub mod Turn
pub mod Send
pub mod Stream
pub mod Costs
use agentic_octopus.Prelude.{
  ℕ, ◌+◌, ◌-◌, ◌/◌, max, Bool, true, false, not, ◌&&◌, Option, none, some, List, [], ◌∷◌, ◌++◌, map,
  reverse, ◌==◌, nat_eq, Text, text_eq, lit, length, ltb, is_some, or_default, if◌then◌else◌,
}
use agentic_octopus.Prelude.Dict.{Dict, lookup}
use agentic_octopus.Config.{Settings, non_empty}
use agentic_octopus.Providers.Openrouter.{auto_model}
use agentic_octopus.Registry.{LoadedAgent}

abbrev pub default_persona : Text
default_persona = lit "chat-assistant"

abbrev pub fallback_system_prompt : Text
fallback_system_prompt =
    lit
      "You are a helpful research assistant. Be accurate, cite what you know and what you don't, and state your knowledge cutoff when asked about recent events."

unfoldable pub estimate_tokens : Text → ℕ
estimate_tokens text = max 1 (length text / 4)

-- messages.role
pub data Role : Type 0 where
  system user assistant tool : Role

-- What the window reads of a row of messages.
pub record Msg : Type 0 where
  pub role : Role
  pub content : Text
  pub prompt_tokens : Option ℕ

-- A message of the request.
pub record Sent : Type 0 where
  pub role : Role
  pub content : Text

-- `persona or DEFAULT_PERSONA`
abbrev pub persona_or_default : Option Text → Text
persona_or_default none = default_persona
persona_or_default (some []) = default_persona
persona_or_default (some (c ∷ p)) = c ∷ p

abbrev pub is_tool : Role → Bool
is_tool Role.tool = true
is_tool _ = false

-- `msg.get("prompt_tokens") or estimate_tokens(msg["content"])`
unfoldable pub cost : Msg → ℕ
cost m = counted m.prompt_tokens
  where
    counted : Option ℕ → ℕ
    counted none = estimate_tokens m.content
    counted (some n) = if n == 0 then estimate_tokens m.content else n

abbrev pub sent : Msg → Sent
sent m = record { role = m.role; content = m.content }

-- The loop over the messages, newest first, with `spent` = budget - remaining, which starts at the
-- cost of the system prompt, and whether a message has been kept.
unfoldable pub window : ℕ → ℕ → Bool → List Msg → List Msg
window budget spent kept [] = []
window budget spent kept (m ∷ ms) =
    let skipped = window budget spent kept ms in
    let rest = window budget (spent + cost m) true ms in
    if is_tool m.role then skipped else if ltb budget (spent + cost m) && kept then [] else m ∷ rest

-- The core tools and their descriptions.
abbrev pub tool_registry : Dict Text Text
tool_registry =
    (lit "web_search", lit "search the web: {\"query\": \"...\", \"max_results\": 5}")
    ∷ (lit "fetch_page", lit "read a web page: {\"url\": \"https://...\"}")
    ∷ []

module _ (settings : Settings) where
  -- `budget or settings.chat_context_budget`
  abbrev pub budget_or_default : Option ℕ → ℕ
  budget_or_default none = settings.chat_context_budget
  budget_or_default (some n) = if n == 0 then settings.chat_context_budget else n

  unfoldable pub build_context : Text → List Msg → Option ℕ → List Sent
  build_context system_prompt history budget =
      record { role = Role.system; content = system_prompt }
      ∷ reverse (
          map sent (
            window (budget_or_default budget) (estimate_tokens system_prompt) false
              (reverse history)))

  unfoldable pub routed_model_prefix : Text → Text → Text
  routed_model_prefix requested_model actual_model =
      if settings.chat_show_routed_model
        && ((requested_model == auto_model) && non_empty actual_model)
      then lit "`[" ++ actual_model ++ lit "]`" ++ 10 ∷ 10 ∷ []
      else []

  core_tools : List Text → List Text
  core_tools [] = []
  core_tools (t ∷ l) =
      let rest = core_tools l in if is_some (lookup t tool_registry) then t ∷ rest else rest

  tools_of : Option LoadedAgent → List Text
  unfolding core_tools
  tools_of none = []
  tools_of (some agent) = core_tools agent.manifest.tools

  unfoldable pub tools_for : Option Text → Dict Text LoadedAgent → List Text
  unfolding tools_of
  tools_for persona registry =
      if not settings.chat_tools_enabled
      then []
      else tools_of (lookup (persona_or_default persona) registry)

  -- `f"- {name}: {TOOL_REGISTRY[name]['description']}"` and a line feed, for the names of the registry
  tool_lines : List Text → Text
  tool_lines [] = []
  tool_lines (name ∷ l) =
      lit "- " ++ name ++ lit ": " ++ or_default (lookup name tool_registry) [] ++ 10 ∷ tool_lines l

  unfoldable pub tool_protocol_prompt : (ℕ → Text) → List Text → Text
  unfolding tool_lines
  tool_protocol_prompt show tool_names =
      10 ∷ 10 ∷ lit "## Tools"
      ++ 10 ∷ lit "You can use tools for anything recent, factual, or verifiable. To call one,"
      ++ 10 ∷ lit "reply with ONLY a single line (no other text):"
      ++ 10 ∷ lit "TOOL_CALL {\"tool\": \"<name>\", \"args\": {...}}"
      ++ 10 ∷ lit "Available tools:"
      ++ 10 ∷ tool_lines tool_names
      ++ lit "You may chain up to "
      ++ show settings.chat_max_tool_calls
      ++ lit " calls, one at a time."
      ++ 10 ∷ lit "After receiving results, either call another tool or give your final answer."
      ++ 10 ∷ lit "Final answers based on tool results MUST cite source URLs inline."
      ++ 10 ∷ lit "If tools fail, say so and answer from your knowledge, clearly labeled."

  prompt_of : Option LoadedAgent → Text
  prompt_of none = fallback_system_prompt
  prompt_of (some agent) = agent.prompt

  with_tools : (ℕ → Text) → Text → List Text → Text
  with_tools show base [] = base
  with_tools show base (t ∷ l) = base ++ tool_protocol_prompt show (t ∷ l)

  unfoldable pub system_prompt_for : (ℕ → Text) → Option Text → Dict Text LoadedAgent → Text
  unfolding prompt_of with_tools
  system_prompt_for show persona registry =
      with_tools show (prompt_of (lookup (persona_or_default persona) registry))
        (tools_for persona registry)
