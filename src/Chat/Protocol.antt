-- ===== src/Chat/Protocol.antt =====
-- src/octo/chat.py, parse_tool_call: the prompted protocol of the tools. `loads` is json.loads,
-- `py_str` is `str` of a JSON value, `show` of a number.
use agentic_octopus.Prelude.{
  ℕ, Bool, true, false, ◌&&◌, ◌||◌, Option, none, some, List, [], ◌∷◌, ◌==◌, nat_eq, Text, text_eq,
  nat_beq, leb, lit, length, drop, strip, starts_with, if◌then◌else◌,
}
use agentic_octopus.Prelude.Json.{
  Json, Items, Fields, null, bool, num, str, arr, obj, nil, cons, end, field,
}
use agentic_octopus.Prelude.Python.{
  Py, value, throws, Exc, ◌>>=◌, get, subscript, if_truthy, type_error, value_error,
  attribute_error,
}

abbrev pub tool_marker : Text
tool_marker = lit "TOOL_CALL"

-- `str.splitlines`: the line boundaries, and the lines behind a character that was a carriage return
-- or not.
unfoldable pub is_line_break : ℕ → Bool
is_line_break c =
    (leb 10 c && leb c 13)
    || ((leb 28 c && leb c 30) || (nat_beq c 133 || (nat_beq c 8232 || nat_beq c 8233)))

abbrev pub to_first : ℕ → List Text → List Text
to_first c [] = (c ∷ []) ∷ []
to_first c (t ∷ ts) = (c ∷ t) ∷ ts

unfoldable pub lines_behind : Bool → Text → List Text
unfolding is_line_break
lines_behind cr [] = []
lines_behind cr (c ∷ s) =
    let rest = lines_behind (nat_beq c 13) s in
    if cr && nat_beq c 10 then rest else if is_line_break c then [] ∷ rest else to_first c rest

unfoldable pub splitlines : Text → List Text
splitlines s = lines_behind false s

-- `d[k] = v`
set_field : Text → Json → Fields → Fields
set_field k v end = field k v end
set_field k v (field j w fs) =
    let rest = set_field k v fs in if k == j then field j v fs else field j w rest

module _ (show : ℕ → Text) where
  -- A key as json.dumps writes it; a list or a dict is not hashable.
  key_of : Json → Py Text
  key_of null = value (lit "null")
  key_of (bool true) = value (lit "true")
  key_of (bool false) = value (lit "false")
  key_of (num n) = value (show n)
  key_of (str t) = value t
  key_of _ = throws type_error

  -- An element of the sequence that `dict` is called with, which has to have two elements.
  pair_of : Json → Py (Text × Json)
  unfolding key_of
  pair_of (arr (cons k (cons v nil))) = do key ← key_of k; value (key, v)
  pair_of (arr _) = throws value_error
  pair_of (str (c ∷ d ∷ [])) = value (c ∷ [], str (d ∷ []))
  pair_of (str _) = throws value_error
  pair_of (obj (field k v (field j w end))) = value (k, str j)
  pair_of (obj _) = throws value_error
  pair_of _ = throws type_error

  pairs_into : Fields → Items → Py Fields
  unfolding pair_of set_field
  pairs_into fs nil = value fs
  pairs_into fs (cons j l) = do (k, v) ← pair_of j; pairs_into (set_field k v fs) l

  -- `dict(j)`
  unfoldable pub dict_of : Json → Py Fields
  unfolding pairs_into
  dict_of (obj fs) = value fs
  dict_of (arr l) = pairs_into end l
  dict_of (str []) = value end
  dict_of (str (c ∷ s)) = throws value_error
  dict_of _ = throws type_error

  or_empty : Option Json → Json
  or_empty none = obj end
  or_empty (some j) = j

  module _ (loads : Text → Py Json) (py_str : Json → Text) where
    -- `str(j)`
    text_of : Json → Text
    text_of (str t) = t
    text_of j = py_str j

    unfoldable pub read_call : Text → Py (Text × Fields)
    unfolding dict_of or_empty text_of
    read_call payload = do
      data_ ← loads payload
      tool ← subscript data_ (lit "tool")
      args ← get data_ (lit "args")
      fields ← dict_of (or_empty (if_truthy args))
      value (text_of tool, fields)

    -- The exceptions that the handler lists are no call; a ValueError or an AttributeError leaves it.
    unfoldable pub or_no_call : Py (Text × Fields) → Py (Option (Text × Fields))
    or_no_call (value call) = value (some call)
    or_no_call (throws Exc.json_error) = value none
    or_no_call (throws Exc.key_error) = value none
    or_no_call (throws Exc.type_error) = value none
    or_no_call (throws x) = throws x

    unfoldable pub call_in_lines : List Text → Py (Option (Text × Fields))
    unfolding read_call or_no_call
    call_in_lines [] = value none
    call_in_lines (line ∷ lines) =
        let later = call_in_lines lines in
        if starts_with (strip line) tool_marker
        then or_no_call (read_call (strip (drop (length tool_marker) (strip line))))
        else later

    -- The content of a reply may be no string, which has no `splitlines`.
    unfoldable pub parse_tool_call : Json → Py (Option (Text × Fields))
    unfolding call_in_lines splitlines
    parse_tool_call (str text) = call_in_lines (splitlines text)
    parse_tool_call _ = throws attribute_error
