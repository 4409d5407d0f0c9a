-- ===== src/Telemetry.antt =====
-- src/octo/telemetry.py: the tags of a request. `py_str` is Python's `str` of a JSON value. The
-- spans of llm_span are output alone and are not modelled.
pub mod Laws
use agentic_octopus.Prelude.{
  ℕ, Bool, true, false, ◌&&◌, Option, none, some, List, [], ◌∷◌, ◌==◌, Text, text_eq, take,
  or_default, strip, split, partition, if◌then◌else◌,
}
use agentic_octopus.Prelude.Dict.{Dict, insert}
use agentic_octopus.Prelude.Json.{Json, null}

-- `{**a, **b}`
unfoldable pub update : Dict Text Json → Dict Text Json → Dict Text Json
update a [] = a
update a ((k, v) ∷ b) = update (insert k v a) b

-- `v is not None`
abbrev pub not_null : Json → Bool
not_null null = false
not_null _ = true

abbrev pub max_key : ℕ
max_key = 64

abbrev pub max_value : ℕ
max_value = 200

module _ (py_str : Json → Text) where
  -- The comprehension, with the entries so far: a later key overwrites one that it collides with.
  unfoldable pub shorten : Dict Text Json → Dict Text Text → Dict Text Text
  shorten [] out = out
  shorten ((k, v) ∷ d) out =
      shorten d
        (if not_null v then insert (take max_key k) (take max_value (py_str v)) out else out)

  unfoldable pub merge_tags : Dict Text Json → Option (Dict Text Json) → Dict Text Text
  unfolding shorten update
  merge_tags auto manual = shorten (update auto (or_default manual [])) []

-- The loop over the pairs of the header.
unfoldable pub parse_pairs : List Text → Dict Text Text → Dict Text Text
parse_pairs [] tags = tags
parse_pairs (pair ∷ pairs) tags =
    let (k, sep, v) = partition b'=' pair in
    parse_pairs pairs (if sep && truthy (strip k) then insert (strip k) (strip v) tags else tags)
  where
    truthy : Text → Bool
    truthy [] = false
    truthy (c ∷ s) = true

-- A missing header and an empty one give no tags.
unfoldable pub parse_tags_header : Option Text → Dict Text Text
unfolding parse_pairs
parse_tags_header none = []
parse_tags_header (some []) = []
parse_tags_header (some (c ∷ raw)) = parse_pairs (split b',' (c ∷ raw)) []
