-- ===== src/Tests/Chats.antt =====
-- Tokens, the context of a short conversation and a short stream.
use agentic_octopus.Prelude.{
  ◌+◌, ◌≡◌, ◌↔◌, ◌⊎◌, ◌≤◌, ◌<◌, refl, true, none, some, List, [], ◌∷◌, ◌++◌, map, reverse, lit,
  length,
}
use agentic_octopus.Config.{Settings, default_settings, non_empty}
use agentic_octopus.Providers.Claude.Replies.{
  Reply, StreamEvent, message_start, text_delta, sse_from_stream,
}
use agentic_octopus.Providers.Claude.Replies.Content.{
  read_stream, streamed, sse_from_stream-content,
}
use agentic_octopus.Auth.{granted, require_token, require_chat_token}
use agentic_octopus.Auth.Scopes.{tokens-granted}
use agentic_octopus.Chat.{
  Role, Msg, estimate_tokens, cost, sent, window, budget_or_default, build_context,
}
use agentic_octopus.Chat.Window.{dialogue, total, Stops, build_context-eq-newest}

abbrev scoped : Settings
scoped = record default_settings { octo_chat_token = lit "chat" }

tokens-granted_example :
    ((require_token scoped (some (lit "chat")) ≡ granted)
      ↔ (some (lit "chat") ≡ some (lit "change-me")))
    × ((require_chat_token scoped (some (lit "chat")) ≡ granted) ↔ (
        (some (lit "chat") ≡ some (lit "change-me"))
        ⊎ ((non_empty (lit "chat") ≡ true) × (some (lit "chat") ≡ some (lit "chat")))))
tokens-granted_example = tokens-granted scoped (some (lit "chat"))

abbrev history : List Msg
history =
    record { role = Role.user; content = lit "What is an octopus?"; prompt_tokens = none }
    ∷ record { role = Role.tool; content = lit "web_search({})"; prompt_tokens = none }
    ∷ record { role = Role.assistant; content = lit "A mollusc."; prompt_tokens = some 900 }
    ∷ record { role = Role.user; content = lit "How many arms?"; prompt_tokens = none }
    ∷ []

build_context-eq-newest_example :
    (kept dropped : List Msg) × (build_context scoped (lit "Be brief.") history (some 100)
      ≡ record { role = Role.system; content = lit "Be brief." } ∷ reverse (map sent kept))
    × (dialogue (reverse history) ≡ kept ++ dropped)
    × ((length kept ≤ 1)
        ⊎ (estimate_tokens (lit "Be brief.") + total kept ≤ budget_or_default scoped (some 100)))
    × Stops
        (budget_or_default scoped (some 100))
        (estimate_tokens (lit "Be brief.") + total kept)
        dropped
    × ((dialogue (reverse history) ≡ []) ⊎ (0 < length kept))
build_context-eq-newest_example =
    build_context-eq-newest scoped (lit "Be brief.") history (some 100)

-- The answer's 900 tokens do not fit, so that the last question is sent alone.
last_question :
    build_context scoped (lit "Be brief.") history (some 100)
    ≡ record { role = Role.system; content = lit "Be brief." }
      ∷ record { role = Role.user; content = lit "How many arms?" }
      ∷ []
unfolding build_context window cost estimate_tokens
last_question = refl

abbrev final : Reply
final = record {
  id = lit "msg_1";
  model = lit "claude-opus-4-8";
  content = [];
  stop_reason = some (lit "end_turn");
  tokens = record { input_tokens = some 12; output_tokens = some 3 };
}

abbrev deltas : List StreamEvent
deltas = message_start (lit "msg_1") ∷ text_delta (lit "Eight ") ∷ text_delta (lit "arms.") ∷ []

sse_from_stream-content_example :
    read_stream (sse_from_stream 5 (lit "octo/claude") deltas final) ≡ streamed deltas
sse_from_stream-content_example = sse_from_stream-content 5 (lit "octo/claude") deltas final
