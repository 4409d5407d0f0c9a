-- ===== src/Telemetry/Laws.antt =====
-- src/octo/telemetry.py, merge_tags: the lengths of the tags of a request.
use agentic_octopus.Prelude.{
  ◌≤◌, Option, [], ◌∷◌, Text, text_eq, length, length-take-le, take, All, Bool-cases, inl, inr,
  or_default,
}
use agentic_octopus.Prelude.Dict.{Dict, insert, All-insert}
use agentic_octopus.Prelude.Json.{Json}
use agentic_octopus.Telemetry.{update, not_null, max_key, max_value, shorten, merge_tags}

-- A tag fits the store.
abbrev pub IsShort : Text × Text → Type 0
IsShort (k, v) = (length k ≤ 64) × (length v ≤ 200)

module _ (py_str : Json → Text) where
  shorten-IsShort :
      (d : Dict Text Json) (out : Dict Text Text)
      → All IsShort out
      → All IsShort (shorten py_str d out)
  unfolding shorten
  shorten-IsShort [] out h = h
  shorten-IsShort ((k, v) ∷ d) out h = elim (Bool-cases (not_null v)) [
    | inl given ↦ rw given (
        shorten-IsShort d (insert (take max_key k) (take max_value (py_str v)) out) (
          All-insert IsShort (take max_key k) (take max_value (py_str v)) out
            (length-take-le max_key k, length-take-le max_value (py_str v)) h))
    | inr null ↦ rw null (shorten-IsShort d out h)
  ]

  -- Whatever the automatic and the client's tags are, no merged key is longer than 64 characters and
  -- no merged value longer than 200.
  pub merge_tags-IsShort :
      (auto : Dict Text Json) (manual : Option (Dict Text Json))
      → All IsShort (merge_tags py_str auto manual)
  unfolding merge_tags
  merge_tags-IsShort auto manual = shorten-IsShort (update auto (or_default manual [])) [] tt
