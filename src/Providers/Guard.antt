-- ===== src/Providers/Guard.antt =====
-- The cost guard: what a routed request may be billed for.
use agentic_octopus.Prelude.{
  ap, text_beq, ℕ, ◌≡◌, ◌+◌, ◌<◌, ◌≤◌, ◌⊎◌, inl, inr, refl, true, false, ◌||◌, Option, none, some,
  List, [], ◌∷◌, ◌++◌, arith, ◌==◌, nat_eq, Text, text_eq, text_beq_iff, lit, length,
  length-take-le, All, All-take, strip, split, starts_with, take, if◌then◌else◌, Bool-cases,
  contains, contains-sort,
}
use agentic_octopus.Prelude.Dict.{Dict, lookup, insert, without, lookup-insert, lookup-without}
use agentic_octopus.Prelude.Json.{Json, Items}
use agentic_octopus.Config.{Settings, anthropic_key_set}
use agentic_octopus.Providers.Errors.{Attempt, ok}
use agentic_octopus.Providers.Openrouter.{
  auto_model, is_free, free_models, strings, router_candidates, route_payload, enforce_free,
  max_fallback_models, resolve_model,
}
use agentic_octopus.Providers.Ollama.{
  TagsCache, virtual_name, local_prefix, first_match, installed_tags, refresh, resolve_local,
}
use agentic_octopus.Providers.Claude.{claude_model}
use agentic_octopus.Providers.Base.{
  openrouter, anthropic, ollama, Route, to_ollama, to_anthropic, to_default, get_chat_provider,
  route_chat_model,
}

abbrev pub IsFree : Text → Type 0
IsFree m = is_free m ≡ true

free_models-IsFree : (l : List Text) → All IsFree (free_models l)
unfolding free_models
free_models-IsFree [] = tt
free_models-IsFree (m ∷ l) = elim (Bool-cases (is_free (strip m))) [
  | inl free ↦ rw free (free, free_models-IsFree l)
  | inr other ↦ rw other (free_models-IsFree l)
]

-- Whatever the setting lists, the router's candidates are free models, at most three of them.
pub router_candidates-IsFree :
    (settings : Settings)
    → All IsFree (router_candidates settings) × (length (router_candidates settings) ≤ 3)
unfolding router_candidates
router_candidates-IsFree settings =
    let free = free_models (split b',' settings.openrouter_preferred_models) in
    (
      All-take IsFree max_fallback_models free
          (free_models-IsFree (split b',' settings.openrouter_preferred_models)),
      length-take-le max_fallback_models free,
    )

-- The texts of a JSON array of strings.
abbrev pub texts : Items → List Text
texts Items.nil = []
texts (Items.cons (Json.str t) l) = t ∷ texts l
texts (Items.cons _ l) = texts l

texts-strings : (l : List Text) → texts (strings l) ≡ l
texts-strings [] = refl
texts-strings (t ∷ l) = ap (◌∷◌ t) (texts-strings l)

abbrev pub model_text : Option Json → List Text
model_text (some (Json.str m)) = m ∷ []
model_text _ = []

abbrev pub models_texts : Option Json → List Text
models_texts (some (Json.arr l)) = texts l
models_texts _ = []

-- The models that a request body names, in its key "model" and its key "models".
unfoldable pub named_models : Dict Text Json → List Text
named_models body =
    model_text (lookup (lit "model") body) ++ models_texts (lookup (lit "models") body)

-- With paid models off, a body whose model passed the guard and that names no fallback models of its
-- own is posted to OpenRouter with free models alone: the model itself, or if that is the router's,
-- the first three free ones of the preferred models in their order.
pub posted-IsFree :
    (settings : Settings) (payload : Dict Text Json) (model : Text)
    → settings.openrouter_allow_paid ≡ false
    → lookup (lit "model") payload ≡ some (Json.str model)
    → lookup (lit "models") payload ≡ none
    → enforce_free settings model ≡ ok tt
    → All IsFree (named_models (route_payload settings payload))
      × (named_models (route_payload settings payload) ≡ (
          if model == lit "octo/auto"
          then take 3 (free_models (split b',' settings.openrouter_preferred_models))
          else model ∷ []))
unfolding named_models route_payload enforce_free text_beq router_candidates
posted-IsFree settings payload model unpaid at alone passed =
    let arrays = Json.arr (strings (router_candidates settings)) in
    let rest = without (lit "model") payload in
    elim (Bool-cases (model == auto_model)) [
      | inl auto ↦
          let gone : lookup (lit "model") (insert (lit "models") arrays rest) ≡ none =
            rw (lookup-insert (lit "models") (lit "model") arrays rest)
              (rw (lookup-without (lit "model") (lit "model") payload)) in
          let there : lookup (lit "models") (insert (lit "models") arrays rest) ≡ some arrays =
            rw (lookup-insert (lit "models") (lit "models") arrays rest) in
          rw (at, auto)
            (rw (gone, there, texts-strings) ((router_candidates-IsFree settings).0, refl))
      | inr other ↦ rw (at, other) (rw (at, alone) ((ground (arith, other), tt), refl))
    ]

-- A tag that Ollama has installed, as far as the program knows: it is among those that it read less
-- than a minute ago, or among those that the server answers now.
abbrev pub Installed : ℕ → Option (List Text) → TagsCache → Text → Type 0
Installed now reply cache tag =
    ((now < cache.ts + 60000000) × (contains tag cache.tags ≡ true))
    ⊎ ((names : List Text) × (reply ≡ some names) × (contains tag names ≡ true))

-- What a request may be routed to.
abbrev pub Guarded : Settings → Text → ℕ → Option (List Text) → TagsCache → Route → Type 0
Guarded settings requested now reply cache r =
    ((r.provider ≡ ollama)
      × (starts_with requested local_prefix ≡ true)
      × (virtual_name r.model ≡ requested)
      × Installed now reply cache r.model)
    ⊎ ((r.provider ≡ anthropic)
        × ((requested == lit "octo/claude" || starts_with requested (lit "claude-")) ≡ true)
        × (anthropic_key_set settings ≡ true))
    ⊎ ((r.provider ≡ openrouter)
        × ((r.model ≡ auto_model) ⊎ (IsFree r.model) ⊎ (settings.openrouter_allow_paid ≡ true)))

pub first_match-eq-ok :
    (requested : Text) (tags : List Text) {t : Text}
    → first_match requested tags ≡ ok t
    → (virtual_name t ≡ requested) × (contains t tags ≡ true)
unfolding first_match contains
first_match-eq-ok requested [] e = absurd (cc)
first_match-eq-ok requested (tag ∷ tags) {t} e = ground (
  arith,
  text_beq_iff (virtual_name tag) requested,
  text_beq_iff t tag,
  first_match-eq-ok requested tags {t = t},
)

installed_tags-Installed :
    (settings : Settings) (now : ℕ) (reply : Option (List Text)) (cache : TagsCache) (t : Text)
    → contains t (installed_tags settings now reply cache).0 ≡ true
    → Installed now reply cache t
unfolding installed_tags refresh contains
installed_tags-Installed settings now none cache t h = ground arith
installed_tags-Installed settings now (some names) cache t h =
    elim (Bool-cases (contains t names)) [
      | inl among ↦ inr (names, refl, among)
      | inr not_among ↦ inl (ground (arith, contains-sort t names))
    ]

resolve_local-eq-ok :
    (settings : Settings) (requested : Text) (now : ℕ) (reply : Option (List Text))
    (cache : TagsCache) {t : Text}
    → (resolve_local settings requested now reply cache).0 ≡ ok t
    → (virtual_name t ≡ requested) × Installed now reply cache t
unfolding resolve_local
resolve_local-eq-ok settings requested now reply cache {t} e =
    let found : (virtual_name t ≡ requested)
        × (contains t (installed_tags settings now reply cache).0 ≡ true) =
      ground
        (arith, first_match-eq-ok requested (installed_tags settings now reply cache).0 {t = t}) in
    (found.0, installed_tags-Installed settings now reply cache t found.1)

to_ollama-Guarded :
    (settings : Settings) (requested : Text) (tag : Attempt Text) {r : Route}
    → to_ollama settings tag ≡ ok r
    → (r.provider ≡ ollama) × (tag ≡ ok r.model)
unfolding to_ollama
to_ollama-Guarded settings requested tag e = ground arith

to_anthropic-Guarded :
    (settings : Settings) (requested : Text) {r : Route}
    → to_anthropic settings requested ≡ ok r
    → (r.provider ≡ anthropic) × (anthropic_key_set settings ≡ true)
unfolding to_anthropic
to_anthropic-Guarded settings requested e = ground arith

to_default-Guarded :
    (settings : Settings) (requested : Text) {r : Route}
    → to_default settings requested ≡ ok r
    → (r.provider ≡ openrouter)
      × ((r.model ≡ auto_model) ⊎ (IsFree r.model) ⊎ (settings.openrouter_allow_paid ≡ true))
unfolding to_default get_chat_provider enforce_free
to_default-Guarded settings requested e =
    ground (arith, text_beq_iff (resolve_model settings requested) auto_model)

-- A request that is routed goes to a local model of the name asked for that Ollama has installed,
-- by tags read less than a minute ago or now; or, if it asks for octo/claude or a name that starts
-- with claude-, to Anthropic with a key set; or to OpenRouter with the router's model, a free one,
-- or paid models allowed.
pub route-Guarded :
    (settings : Settings) (requested : Text) (now : ℕ) (reply : Option (List Text))
    (cache : TagsCache) (r : Route)
    → (route_chat_model settings requested now reply cache).0 ≡ ok r
    → Guarded settings requested now reply cache r
unfolding route_chat_model
route-Guarded settings requested now reply cache r e =
    elim (Bool-cases (starts_with requested local_prefix)) [
      | inl is_local ↦
          let (by, tag) =
            to_ollama-Guarded settings requested
              (resolve_local settings requested now reply cache).0 {r = r} (rw is_local at e) in
          let found = resolve_local-eq-ok settings requested now reply cache {t = r.model} tag in
          inl (by, is_local, found.0, found.1)
      | inr not_local ↦
          elim (Bool-cases (requested == claude_model || starts_with requested (lit "claude-"))) [
            | inl is_claude ↦
                let (by, key) =
                  to_anthropic-Guarded settings requested {r = r}
                    (rw (not_local, is_claude) at e) in
                inr (inl (by, is_claude, key))
            | inr other ↦
                inr (inr (to_default-Guarded settings requested (rw (not_local, other) at e)))
          ]
    ]
