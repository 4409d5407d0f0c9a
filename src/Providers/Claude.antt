-- ===== src/Providers/Claude.antt =====
-- src/octo/providers/claude.py: the virtual model 'octo/claude'.
pub mod Replies
pub mod Requests
use agentic_octopus.Prelude.{◌||◌, ◌==◌, Text, text_eq, lit, if◌then◌else◌}
use agentic_octopus.Config.{Settings}

abbrev pub claude_model : Text
claude_model = lit "octo/claude"

unfoldable pub resolve_model : Settings → Text → Text
resolve_model settings model =
    if model == lit "default" || model == claude_model
    then settings.anthropic_default_model
    else model
