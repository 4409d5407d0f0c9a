-- ===== src/Providers/Base.antt =====
-- src/octo/providers/base.py: the routing of a requested model to a provider.
use agentic_octopus.Prelude.{
  ℕ, not, ◌||◌, Option, List, ◌==◌, Text, text_eq, lit, starts_with, if◌then◌else◌,
}
use agentic_octopus.Config.{Settings, anthropic_key_set}
use agentic_octopus.Providers.Errors.{
  Attempt, ok, err, ◌>>=◌, ◌>>◌, paid_model_refused, no_provider,
}
use agentic_octopus.Providers.Ollama.{TagsCache, local_prefix, resolve_local}
use agentic_octopus.Providers.Claude
use agentic_octopus.Providers.Claude.{claude_model}
use agentic_octopus.Providers.Openrouter

-- The classes that implement ChatProvider.
pub data Provider : Type 0 where
  openrouter anthropic ollama : Provider

pub record Route : Type 0 where
  pub provider : Provider
  pub model : Text
  pub provider_name : Text

unfoldable pub get_chat_provider : Text → Attempt Provider
get_chat_provider name = if name == lit "openrouter" then ok openrouter else err (no_provider name)

module _ (settings : Settings) where
  unfoldable pub to_ollama : Attempt Text → Attempt Route
  to_ollama tag = do
    t ← tag
    ok (record { provider = ollama; model = t; provider_name = lit "ollama" })

  unfoldable pub to_anthropic : Text → Attempt Route
  to_anthropic requested =
      if not (anthropic_key_set settings)
      then err (paid_model_refused requested)
      else ok (record {
        provider = anthropic;
        model = Claude.resolve_model settings requested;
        provider_name = lit "anthropic";
      })

  unfoldable pub to_default : Text → Attempt Route
  unfolding get_chat_provider
  to_default requested = do
    provider ← get_chat_provider settings.chat_provider
    Openrouter.enforce_free settings (Openrouter.resolve_model settings requested)
    ok (record {
      provider = provider;
      model = Openrouter.resolve_model settings requested;
      provider_name = settings.chat_provider;
    })

  unfoldable pub route_chat_model :
      Text → ℕ → Option (List Text) → TagsCache → Attempt Route × TagsCache
  route_chat_model requested now reply cache =
      if starts_with requested local_prefix
      then (let (tag, cache') = resolve_local settings requested now reply cache in
          (to_ollama tag, cache'))
      else if requested == claude_model || starts_with requested (lit "claude-")
      then (to_anthropic requested, cache)
      else (to_default requested, cache)
