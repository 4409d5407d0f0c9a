-- ===== src/Auth/Scopes.antt =====
-- Which token opens which surface.
use agentic_octopus.Prelude.{
  ◌≡◌, ◌↔◌, ◌⊎◌, true, Option, none, some, arith, Text, text_eq, text_beq_iff, contains,
}
use agentic_octopus.Config.{Settings, non_empty}
use agentic_octopus.Auth.{granted, require_token, require_chat_token}

-- The administration routes are open to the API token alone; the chat surfaces are open to the API
-- token and, if a chat token is set, to the chat token, and to nothing else.
pub tokens-granted :
    (settings : Settings) (c : Option Text)
    → ((require_token settings c ≡ granted) ↔ (c ≡ some settings.octo_api_token))
      × ((require_chat_token settings c ≡ granted) ↔ (
          (c ≡ some settings.octo_api_token)
          ⊎ ((non_empty settings.octo_chat_token ≡ true) × (c ≡ some settings.octo_chat_token))))
unfolding require_token require_chat_token contains
tokens-granted settings none = ground arith
tokens-granted settings (some t) =
    ground (arith, text_beq_iff t settings.octo_api_token, text_beq_iff t settings.octo_chat_token)
