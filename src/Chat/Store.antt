-- ===== src/Chat/Store.antt =====
-- src/octo/chat.py, the conversations and their messages, over the tables of
-- db/migrations/0002_chat.sql. Ids of conversations are UUIDs that the database draws, arguments of
-- the INSERT; ids of messages are of a sequence. Times are arguments.
pub mod Laws
use agentic_octopus.Prelude.{
  ℕ, suc, ◌+◌, Bool, true, false, not, ◌&&◌, Option, none, some, List, [], ◌∷◌, ◌==◌, nat_eq, Text,
  take, leb, ltb, coalesce, is_some, if◌then◌else◌,
}
use agentic_octopus.Prelude.Dict.{Dict}
use agentic_octopus.Prelude.Json.{Json, obj, end}
use agentic_octopus.Table.{Table, find, append, update_where, count_where}
use agentic_octopus.Chat.{Role, persona_or_default}

-- A row of conversations; its column `summary` is never written.
pub record Conversation : Type 0 where
  pub title : Option Text
  pub persona : Text
  pub model : Text
  pub created_at : ℕ
  pub updated_at : ℕ

pub record Message : Type 0 where
  pub conversation_id : ℕ
  pub role : Role
  pub content : Text
  pub model : Option Text
  pub metadata : Json
  pub prompt_tokens : Option ℕ
  pub completion_tokens : Option ℕ
  pub duration_ms : Option ℕ
  pub tags : Dict Text Text
  pub created_at : ℕ

-- A row of chat_completions.
pub record Completion : Type 0 where
  pub ts : ℕ
  pub model : Text
  pub prompt_tokens : Option ℕ
  pub completion_tokens : Option ℕ
  pub total_tokens : Option ℕ
  pub duration_ms : ℕ
  pub stream : Bool
  pub tags : Dict Text Text

pub record ChatDb : Type 0 where
  pub conversations : Table Conversation
  pub messages : Table Message
  -- the next value of the sequence of messages.id
  pub next_id : ℕ
  pub completions : List Completion

-- The keyword arguments of _append.
pub record Columns : Type 0 where
  pub model : Option Text
  pub metadata : Json
  pub prompt_tokens : Option ℕ
  pub completion_tokens : Option ℕ
  pub duration_ms : Option ℕ
  pub tags : Dict Text Text

-- None given: the defaults of the columns.
abbrev pub no_columns : Columns
no_columns = record {
  model = none;
  metadata = obj end;
  prompt_tokens = none;
  completion_tokens = none;
  duration_ms = none;
  tags = [];
}

abbrev pub title_max : ℕ
title_max = 40

unfoldable pub create_conversation : ℕ → ℕ → Text → Option Text → ChatDb → Conversation × ChatDb
create_conversation id now model persona db =
    let row : Conversation = record {
      title = none;
      persona = persona_or_default persona;
      model = model;
      created_at = now;
      updated_at = now;
    } in
    (row, record db { conversations = append id row db.conversations })

unfoldable pub get_conversation : ℕ → ChatDb → Option Conversation
get_conversation id db = find id db.conversations

unfoldable pub rows_where : {R : Type 0} → (ℕ → R → Bool) → Table R → Table R
rows_where p [] = []
rows_where p ((j, r) ∷ t) = let rest = rows_where p t in if p j r then (j, r) ∷ rest else rest

abbrev pub is_in : ℕ → ℕ → Message → Bool
is_in id j m = m.conversation_id == id

-- SELECT … ORDER BY id: the sequence gives the ids in the order of the rows.
unfoldable pub get_messages : ℕ → ChatDb → Table Message
get_messages id db = rows_where (is_in id) db.messages

-- DELETE, with the CASCADE of messages; whether a row was deleted.
unfoldable pub delete_conversation : ℕ → ChatDb → Bool × ChatDb
delete_conversation id db = (
  is_some (find id db.conversations),
  record db {
    conversations = rows_where (λ j r. not (j == id)) db.conversations;
    messages = rows_where (λ j m. not (is_in id j m)) db.messages;
  },
)

-- A conversation with its message_count.
abbrev pub Listed : Type 0
Listed = (ℕ × Conversation) × ℕ

unfoldable pub place : Listed → List Listed → List Listed
place c [] = c ∷ []
place c (d ∷ l) =
    let rest = place c l in
    if ltb (c.0.1).updated_at (d.0.1).updated_at then d ∷ rest else c ∷ d ∷ l

unfoldable pub newest_first : Table Message → Table Conversation → List Listed
unfolding place
newest_first messages [] = []
newest_first messages ((id, c) ∷ t) =
    place ((id, c), count_where (is_in id) messages) (newest_first messages t)

unfoldable pub list_conversations : ℕ → ChatDb → List Listed
unfolding newest_first
list_conversations limit db = take limit (newest_first db.messages db.conversations)

-- `content[:TITLE_MAX] if role == "user" else None`
unfoldable pub title_of : Role → Text → Option Text
title_of Role.user content = some (take title_max content)
title_of _ content = none

unfoldable pub new_message : ℕ → ℕ → Role → Text → Columns → Message
new_message now id role content cols = record {
  conversation_id = id;
  role = role;
  content = content;
  model = cols.model;
  metadata = cols.metadata;
  prompt_tokens = cols.prompt_tokens;
  completion_tokens = cols.completion_tokens;
  duration_ms = cols.duration_ms;
  tags = cols.tags;
  created_at = now;
}

unfoldable pub touched : ℕ → Option Text → Conversation → Conversation
touched now title c = record c { updated_at = now; title = coalesce c.title title }

unfoldable pub inserted : ℕ → ℕ → Role → Text → Columns → ChatDb → ChatDb
inserted now id role content cols db = record db {
  conversations =
      update_where (λ j c. j == id) (touched now (title_of role content)) db.conversations;
  messages = append db.next_id (new_message now id role content cols) db.messages;
  next_id = suc db.next_id;
}

-- `_append`: the id of the new message, or `none` for the ForeignKeyViolation of a conversation that
-- is not there.
unfoldable pub append_message : ℕ → ℕ → Role → Text → Columns → ChatDb → Option (ℕ × ChatDb)
unfolding inserted
append_message now id role content cols db =
    if is_some (find id db.conversations)
    then some (db.next_id, inserted now id role content cols db)
    else none

pub record UsageToday : Type 0 where
  pub native_requests_today : ℕ
  pub openai_compat_requests_today : ℕ
  pub free_tier_daily_limit : ℕ

abbrev pub is_assistant : Role → Bool
is_assistant Role.assistant = true
is_assistant _ = false

abbrev pub is_tool_row : Role → Bool
is_tool_row Role.tool = true
is_tool_row _ = false

unfoldable pub completions_since : ℕ → List Completion → ℕ
completions_since day [] = 0
completions_since day (c ∷ l) = let n = completions_since day l in if leb day c.ts then suc n else n

-- `day` is date_trunc('day', now()).
unfoldable pub usage_today : ℕ → ChatDb → UsageToday
unfolding completions_since
usage_today day db = record {
  native_requests_today =
      count_where (λ j m. is_assistant m.role && leb day m.created_at) db.messages
      + count_where (λ j m. is_tool_row m.role && leb day m.created_at) db.messages;
  openai_compat_requests_today = completions_since day db.completions;
  free_tier_daily_limit = 50;
}
