-- ===== src/Auth.antt =====
-- src/octo/api/auth.py: the two token checks. The credentials of a request are the text behind
-- "Bearer", if the header is there.
pub mod Scopes
use agentic_octopus.Prelude.{
  Bool, true, false, Option, none, some, List, [], ◌∷◌, ◌++◌, ◌==◌, Text, text_eq, contains,
  if◌then◌else◌,
}
use agentic_octopus.Config.{Settings, non_empty}

-- A check returns, or raises HTTPException 401.
pub data Access : Type 0 where
  granted unauthorized : Access

module _ (settings : Settings) where
  unfoldable pub require_token : Option Text → Access
  require_token none = unauthorized
  require_token (some t) = if t == settings.octo_api_token then granted else unauthorized

  -- The set of the valid tokens.
  abbrev pub valid : List Text
  valid =
      settings.octo_api_token
      ∷ (if non_empty settings.octo_chat_token then settings.octo_chat_token ∷ [] else [])

  unfoldable pub require_chat_token : Option Text → Access
  require_chat_token none = unauthorized
  require_chat_token (some t) = if contains t valid then granted else unauthorized
