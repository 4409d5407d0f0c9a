-- ===== src/Providers/Openrouter.antt =====
-- src/octo/providers/openrouter.py: the free-model policy, the smart router and the requests.
use agentic_octopus.Prelude.{
  ℕ, Bool, true, false, not, ◌&&◌, Option, some, List, [], ◌∷◌, ◌++◌, ◌==◌, nat_eq, Text, text_eq,
  ◌+◌, ltb, sort, none, lit, take, strip, split, ends_with, if◌then◌else◌,
}
use agentic_octopus.Prelude.Dict.{Dict, lookup, insert, without}
use agentic_octopus.Prelude.Json.{Json, Items}
use agentic_octopus.Config.{Settings}
use agentic_octopus.Providers.Errors.{
  Attempt, ok, err, paid_model_refused, quota_exceeded, rejected,
}

abbrev pub auto_model : Text
auto_model = lit "octo/auto"

abbrev pub max_fallback_models : ℕ
max_fallback_models = 3

unfoldable pub is_free : Text → Bool
is_free m = ends_with m (lit ":free")

-- The comprehension of router_candidates.
unfoldable pub free_models : List Text → List Text
free_models [] = []
free_models (m ∷ l) = let rest = free_models l in if is_free (strip m) then strip m ∷ rest else rest

abbrev pub strings : List Text → Items
strings [] = Items.nil
strings (t ∷ l) = Items.cons (Json.str t) (strings l)

-- `payload.get("model") != AUTO_MODEL`
abbrev pub is_auto : Option Json → Bool
is_auto (some (Json.str m)) = m == auto_model
is_auto _ = false

abbrev pub models_cache_ttl : ℕ
models_cache_ttl = 3600000000

any_models : List Text → Bool
any_models [] = false
any_models (m ∷ l) = true

ids_free : List Text → List Text
ids_free [] = []
ids_free (m ∷ l) = let rest = ids_free l in if is_free m then m ∷ rest else rest

all_free : Option (List Text) → List Text
unfolding ids_free
all_free none = []
all_free (some ids) = sort (ids_free ids)

or_default_model : Text → List Text → List Text
or_default_model model [] = model ∷ []
or_default_model model (m ∷ l) = m ∷ l

module _ (settings : Settings) where
  unfoldable pub resolve_model : Text → Text
  resolve_model model = if model == lit "default" then settings.openrouter_default_model else model

  unfoldable pub router_candidates : List Text
  router_candidates =
      take max_fallback_models (free_models (split b',' settings.openrouter_preferred_models))

  unfoldable pub route_payload : Dict Text Json → Dict Text Json
  route_payload payload =
      if is_auto (lookup (lit "model") payload)
      then insert (lit "models") (Json.arr (strings router_candidates))
          (without (lit "model") payload)
      else payload

  unfoldable pub enforce_free : Text → Attempt Unit
  enforce_free model =
      if model == auto_model
      then ok tt
      else if not (is_free model) && not settings.openrouter_allow_paid
      then err (paid_model_refused model)
      else ok tt

  -- `_models_cache`: its time, in microseconds of the monotonic clock, and the models. `reply` is the
  -- list of the ids, or `none` for any exception; the clock is read before the request and after it.
  unfoldable pub list_models :
      ℕ → ℕ → Option (List Text) → ℕ × List Text → List Text × (ℕ × List Text)
  unfolding all_free or_default_model any_models
  list_models now later reply (ts, cached) =
      let models = or_default_model settings.openrouter_default_model (all_free reply) in
      if any_models cached && ltb now (ts + models_cache_ttl)
      then (cached, (ts, cached))
      else (models, (later, models))

  -- An HTTP response: the status and the body. `post` is the server, on the JSON body of the request.
  unfoldable pub complete : (Dict Text Json → ℕ × Text) → Dict Text Json → Attempt (ℕ × Text)
  complete post payload =
      let (status, body) = post (route_payload payload) in
      if status == 429 then err quota_exceeded else ok (status, body)

  join : List Text → Text
  join [] = []
  join (t ∷ l) = t ++ join l

  -- `body or "no detail"`
  or_no_detail : Text → Text
  or_no_detail [] = lit "no detail"
  or_no_detail (c ∷ t) = c ∷ t

  -- The context manager of stream: it raises, or hands on the chunks of the body.
  unfoldable pub stream : (Dict Text Json → ℕ × List Text) → Dict Text Json → Attempt (List Text)
  unfolding join or_no_detail
  stream post payload =
      let (status, chunks) =
        post (insert (lit "stream") (Json.bool true) (route_payload payload)) in
      if status == 429
      then err quota_exceeded
      else if status == 200
      then ok chunks
      else err (rejected status (or_no_detail (take 300 (join chunks))))
