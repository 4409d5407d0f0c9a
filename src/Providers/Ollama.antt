-- ===== src/Providers/Ollama.antt =====
-- src/octo/providers/ollama.py: local models, their tags and the cache of the tags.
-- The reply of the Ollama server is an argument, `none` when it cannot be reached.
use agentic_octopus.Prelude.{
  ℕ, ◌+◌, map, take, Bool, true, false, not, ◌&&◌, Option, none, some, List, [], ◌∷◌, ◌++◌, ◌==◌,
  nat_eq, Text, text_eq, lit, ltb, sort, replace_char, if◌then◌else◌,
}
use agentic_octopus.Config.{Settings, non_empty}
use agentic_octopus.Prelude.Dict.{Dict, insert}
use agentic_octopus.Prelude.Json.{Json}
use agentic_octopus.Providers.Errors.{Attempt, ok, err, ollama_unavailable, rejected}

abbrev pub local_prefix : Text
local_prefix = lit "octo/local-"

-- `_tags_cache`, times in microseconds of the monotonic clock
pub record TagsCache : Type 0 where
  pub ts : ℕ
  pub tags : List Text

abbrev pub tags_cache_ttl : ℕ
tags_cache_ttl = 60000000

unfoldable pub virtual_name : Text → Text
virtual_name tag = local_prefix ++ replace_char b':' b'-' tag

abbrev pub any_tags : List Text → Bool
any_tags [] = false
any_tags (t ∷ l) = true

-- The first tag whose virtual name is asked for.
unfoldable pub first_match : Text → List Text → Attempt Text
first_match requested [] = err (ollama_unavailable requested)
first_match requested (tag ∷ tags) =
    let rest = first_match requested tags in if virtual_name tag == requested then ok tag else rest

module _ (settings : Settings) where
  unfoldable pub enabled : Bool
  enabled = non_empty settings.ollama_base_url

  unfoldable pub refresh : ℕ → TagsCache → Option (List Text) → List Text × TagsCache
  refresh now cache none = ([], cache)
  refresh now cache (some names) = (sort names, record { ts = now; tags = sort names })

  unfoldable pub installed_tags : ℕ → Option (List Text) → TagsCache → List Text × TagsCache
  unfolding refresh enabled
  installed_tags now reply cache =
      if not enabled
      then ([], cache)
      else if any_tags cache.tags && ltb now (cache.ts + tags_cache_ttl)
      then (cache.tags, cache)
      else refresh now cache reply

  unfoldable pub resolve_local :
      Text → ℕ → Option (List Text) → TagsCache → Attempt Text × TagsCache
  unfolding first_match enabled
  resolve_local requested now reply cache =
      if not enabled
      then (err (ollama_unavailable requested), cache)
      else (let (tags, cache') = installed_tags now reply cache in
          (
            if any_tags tags
                then first_match requested tags
                else err (ollama_unavailable requested),
            cache',
          ))

  -- The names of the virtual models.
  unfoldable pub list_models : ℕ → Option (List Text) → TagsCache → List Text × TagsCache
  list_models now reply cache =
      let (tags, cache') = installed_tags now reply cache in (map virtual_name tags, cache')

-- OllamaProvider: `post` is the server, on the JSON body of the request.
unfoldable pub complete : (Dict Text Json → ℕ × Text) → Dict Text Json → Attempt (ℕ × Text)
complete post payload = ok (post payload)

join : List Text → Text
join [] = []
join (t ∷ l) = t ++ join l

or_no_detail : Text → Text
or_no_detail [] = lit "no detail"
or_no_detail (c ∷ t) = c ∷ t

unfoldable pub stream : (Dict Text Json → ℕ × List Text) → Dict Text Json → Attempt (List Text)
unfolding join or_no_detail
stream post payload =
    let (status, chunks) = post (insert (lit "stream") (Json.bool true) payload) in
    if status == 200
    then ok chunks
    else err (rejected status (lit "ollama: " ++ or_no_detail (take 300 (join chunks))))
