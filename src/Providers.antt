-- ===== src/Providers.antt =====
-- src/octo/providers: the chat providers and the routing between them.
pub mod Errors
pub mod Openrouter
pub mod Ollama
pub mod Claude
pub mod Base
pub mod Calls
pub mod Guard
