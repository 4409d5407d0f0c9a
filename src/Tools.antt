-- ===== src/Tools.antt =====
-- src/octo/tools/web.py: the search and the page reader that chat personas call.
-- The search engine, the HTTP client and BeautifulSoup are arguments, and so are Python's `str` of a
-- JSON value and `int` of a string. Logging is not modelled.
use agentic_octopus.Prelude.{
  ℕ, min, true, false, ◌||◌, Option, none, some, List, [], ◌∷◌, ◌++◌, Text, text_eq, ◌==◌, nat_beq,
  lit, length, ltb, take, strip, starts_with, is_space, if◌then◌else◌,
}
use agentic_octopus.Prelude.Json.{
  Json, Items, Fields, bool, num, str, arr, obj, nil, cons, end, field,
}
use agentic_octopus.Prelude.Python.{Py, value, throws, ◌>>=◌, type_error, field_of}

-- A call that may raise any Exception, which is caught: its text.
pub data Caught (A : Type 0) : Type 0 where
  returned : A → Caught A
  raised : Text → Caught A

-- A result of DDGS.text: its keys "title", "href" and "body".
pub record Hit : Type 0 where
  pub title : Option Text
  pub href : Option Text
  pub body : Option Text

-- The web: DDGS.text, client.get as the status and the text, and get_text(separator=" ") of the page
-- without its scripts, styles and frames.
pub record Web : Type 0 where
  pub search : Text → ℕ → Caught (List Hit)
  pub get : Text → Caught (ℕ × Text)
  pub page_text : Text → Caught Text

abbrev pub search_max_results : ℕ
search_max_results = 6

abbrev pub fetch_max_chars : ℕ
fetch_max_chars = 6000

or_empty : Option Text → Text
or_empty none = []
or_empty (some t) = t

-- An element of the list that _search_sync returns.
unfoldable pub found : Hit → Json
unfolding or_empty
found r = obj (
    field (lit "title") (str (or_empty r.title)) (
      field (lit "url") (str (or_empty r.href))
        (field (lit "snippet") (str (take 300 (or_empty r.body))) end)))

unfoldable pub all_found : List Hit → Items
all_found [] = nil
all_found (r ∷ rs) = cons (found r) (all_found rs)

abbrev pub error : Text → Json
error message = obj (field (lit "error") (str message) end)

-- `text.split()`: the pieces between white space that are not empty
extend : ℕ → List Text → List Text
extend c [] = (c ∷ []) ∷ []
extend c (t ∷ ts) = (c ∷ t) ∷ ts

pieces : Text → List Text
pieces [] = [] ∷ []
pieces (c ∷ s) = let rest = pieces s in if is_space c then [] ∷ rest else extend c rest

spaced : List Text → Text
spaced [] = []
spaced ([] ∷ ts) = spaced ts
spaced ((c ∷ t) ∷ ts) = 32 ∷ c ∷ t ++ spaced ts

without_first : Text → Text
without_first [] = []
without_first (c ∷ s) = s

-- `" ".join(text.split())`
unfoldable pub joined_words : Text → Text
unfolding extend pieces spaced without_first
joined_words text = without_first (spaced (pieces text))

unfoldable pub search_result : Caught (List Hit) → Json
search_result (raised e) = error (lit "search failed: " ++ e)
search_result (returned []) = obj (
    field (lit "results") (arr nil)
      (field (lit "note") (str (lit "no results — try different keywords")) end))
search_result (returned (r ∷ rs)) = obj (field (lit "results") (arr (all_found (r ∷ rs))) end)

abbrev pub with_url : Text → Text → Json
with_url message url = obj (field (lit "error") (str message) (field (lit "url") (str url) end))

read_text : Text → Caught Text → Json
read_text url (raised e) = with_url (lit "fetch failed: " ++ e) url
read_text url (returned page) =
    let text = joined_words page in
    obj (
      field (lit "url") (str url) (
        field (lit "text") (str (take fetch_max_chars text))
          (field (lit "truncated") (bool (ltb fetch_max_chars (length text))) end)))

module _ (show : ℕ → Text) (py_str : Json → Text) (int_text : Text → Py ℕ) (web : Web) where
  read_page : Text → Caught (ℕ × Text) → Json
  unfolding read_text
  read_page url (raised e) = with_url (lit "fetch failed: " ++ e) url
  read_page url (returned (status, html)) =
      if nat_beq status 200
      then read_text url (web.page_text html)
      else with_url (lit "fetch failed: HTTP " ++ show status) url

  -- `str(args.get(key, ""))`
  text_arg : Option Json → Text
  text_arg none = []
  text_arg (some (str t)) = t
  text_arg (some j) = py_str j

  -- `int(args.get("max_results", SEARCH_MAX_RESULTS))`
  unfoldable pub int_arg : Option Json → Py ℕ
  int_arg none = value search_max_results
  int_arg (some (num n)) = value n
  int_arg (some (bool true)) = value 1
  int_arg (some (bool false)) = value 0
  int_arg (some (str t)) = int_text t
  int_arg (some j) = throws type_error

  search_for : Text → Fields → Py Json
  unfolding int_arg
  search_for [] args = value (error (lit "web_search requires a 'query'"))
  search_for (c ∷ query) args = do
    n ← int_arg (field_of (lit "max_results") args)
    value (search_result (web.search (c ∷ query) (min n 10)))

  unfoldable pub web_search : Fields → Py Json
  unfolding text_arg search_for
  web_search args = search_for (strip (text_arg (field_of (lit "query") args))) args

  unfoldable pub fetch_page : Fields → Json
  unfolding text_arg read_page
  fetch_page args =
      let url = strip (text_arg (field_of (lit "url") args)) in
      if starts_with url (lit "http://") || starts_with url (lit "https://")
      then read_page url (web.get url)
      else error (lit "fetch_page requires an http(s) 'url'")

  -- The entries of TOOL_REGISTRY by their names.
  unfoldable pub run_tool : Text → Fields → Py Json
  unfolding web_search fetch_page
  run_tool name args =
      if name == lit "web_search"
      then web_search args
      else if name == lit "fetch_page"
      then value (fetch_page args)
      else value (
          error (lit "unknown tool '" ++ name ++ lit "' (available: ['fetch_page', 'web_search'])"))
