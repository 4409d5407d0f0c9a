-- ===== src/Providers/Errors.antt =====
-- The exceptions of the providers, and a call that may raise one.
use agentic_octopus.Prelude.{ℕ, Text}

pub data ProviderError : Type 0 where
  paid_model_refused : Text → ProviderError
  ollama_unavailable : Text → ProviderError
  quota_exceeded : ProviderError
  rejected : ℕ → Text → ProviderError
  -- ValueError of get_chat_provider
  no_provider : Text → ProviderError

pub data Attempt (A : Type 0) : Type 0 where
  ok : A → Attempt A
  err : ProviderError → Attempt A

infixl 5 ◌>>=◌ ◌>>◌
abbrev pub ◌>>=◌ : {A B : Type 0} → Attempt A → (A → Attempt B) → Attempt B
ok a >>= f = f a
err e >>= f = err e

abbrev pub ◌>>◌ : {A B : Type 0} → Attempt A → Attempt B → Attempt B
m >> k = m >>= λ _. k
