-- ===== src/Config.antt =====
-- src/octo/config.py: the settings that the modelled code reads.
use agentic_octopus.Prelude.{ℕ, Bool, not, ◌&&◌, [], ◌∷◌, Text, lit, has_infix}

pub record Settings : Type 0 where
  pub anthropic_api_key : Text
  pub anthropic_default_model : Text
  pub openrouter_api_key : Text
  pub openrouter_default_model : Text
  pub openrouter_preferred_models : Text
  pub openrouter_allow_paid : Bool
  pub octo_api_token : Text
  pub octo_chat_token : Text
  pub chat_provider : Text
  pub chat_context_budget : ℕ
  pub chat_tools_enabled : Bool
  pub chat_show_routed_model : Bool
  pub ollama_base_url : Text
  pub chat_max_tool_calls : ℕ

-- `bool(s)` of a string
abbrev pub non_empty : Text → Bool
non_empty [] = Bool.false
non_empty (c ∷ s) = Bool.true

unfoldable pub anthropic_key_set : Settings → Bool
anthropic_key_set c =
    non_empty c.anthropic_api_key && not (has_infix (lit "REPLACE") c.anthropic_api_key)

-- The defaults of the class.
abbrev pub default_settings : Settings
default_settings = record {
  anthropic_api_key = [];
  anthropic_default_model = lit "claude-opus-4-8";
  openrouter_api_key = [];
  openrouter_default_model = lit "octo/auto";
  openrouter_preferred_models =
      lit
        "nvidia/nemotron-3-super-120b-a12b:free,google/gemma-4-26b-a4b-it:free,tencent/hy3:free,qwen/qwen3-next-80b-a3b-instruct:free,google/gemma-4-31b-it:free";
  openrouter_allow_paid = Bool.false;
  octo_api_token = lit "change-me";
  octo_chat_token = [];
  chat_provider = lit "openrouter";
  chat_context_budget = 8000;
  chat_tools_enabled = Bool.true;
  chat_show_routed_model = Bool.true;
  ollama_base_url = [];
  chat_max_tool_calls = 2;
}
