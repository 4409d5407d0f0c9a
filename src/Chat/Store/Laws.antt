-- ===== src/Chat/Store/Laws.antt =====
-- The tables of the chat: every message belongs to a conversation, and a deletion takes the messages
-- of its conversation along and no others.
use mathlib.Core.Path.{subst}
use agentic_octopus.Prelude.{
  ℕ, ◌≡◌, refl, ◌∙◌, Bool, true, not, Option, none, some, [], ◌∷◌, arith, Text, is_some, ◌==◌,
  nat_eq, if◌then◌else◌, Bool-cases, inl, inr,
}
use agentic_octopus.Table.{Table, find, update_where}
use agentic_octopus.Table.Laws.{AllRows, AllRows-append, find-append}
use agentic_octopus.Chat.{Role}
use agentic_octopus.Chat.Store.{
  Conversation, Message, ChatDb, Columns, create_conversation, get_conversation, get_messages,
  rows_where, is_in, delete_conversation, append_message, inserted, new_message,
}

module _ {R : Type 0} where
  pub find-rows_where :
      (k i : ℕ) (t : Table R)
      → find k (rows_where (λ j r. not (j == i)) t) ≡ (if k == i then none else find k t)
  unfolding find rows_where
  find-rows_where k i [] = ground arith
  find-rows_where k i ((j, r) ∷ t) = ground (arith, find-rows_where k i t)

  AllRows-rows_where :
      (P Q : R → Type 0) (p : ℕ → R → Bool) (t : Table R)
      → ((j : ℕ) (r : R) → p j r ≡ true → P r → Q r)
      → AllRows P t
      → AllRows Q (rows_where p t)
  unfolding rows_where
  AllRows-rows_where P Q p [] f h = tt
  AllRows-rows_where P Q p ((j, r) ∷ t) f h = elim (Bool-cases (p j r)) [
    | inl kept ↦ rw kept (f j r kept h.0, AllRows-rows_where P Q p t f h.1)
    | inr gone ↦ rw gone (AllRows-rows_where P Q p t f h.1)
  ]

  AllRows-map : (P Q : R → Type 0) (t : Table R) → ((r : R) → P r → Q r) → AllRows P t → AllRows Q t
  AllRows-map P Q [] f h = tt
  AllRows-map P Q ((j, r) ∷ t) f h = (f r h.0, AllRows-map P Q t f h.1)

get_messages_of :
    (i k : ℕ) (t : Table Message)
    → rows_where (is_in k) (rows_where (λ j m. not (is_in i j m)) t)
      ≡ (if k == i then [] else rows_where (is_in k) t)
unfolding rows_where
get_messages_of i k [] = ground arith
get_messages_of i k ((j, m) ∷ t) = ground (arith, get_messages_of i k t)

-- A deletion says whether the conversation was there; after it, the conversation and its messages are
-- gone, and every other conversation is as it was, and so are its messages.
pub delete_conversation-eq-outcome :
    (i : ℕ) (db : ChatDb) (k : ℕ)
    → ((delete_conversation i db).0 ≡ is_some (get_conversation i db))
      × (get_conversation k (delete_conversation i db).1
          ≡ (if k == i then none else get_conversation k db))
      × (get_messages k (delete_conversation i db).1 ≡ (if k == i then [] else get_messages k db))
unfolding delete_conversation get_conversation get_messages
delete_conversation-eq-outcome i db k =
    (refl, find-rows_where k i db.conversations, get_messages_of i k db.messages)

-- The message's conversation is there.
abbrev pub HasOwner : ChatDb → Message → Type 0
HasOwner db m = is_some (get_conversation m.conversation_id db) ≡ true

abbrev pub IsOwned : ChatDb → Type 0
IsOwned db = AllRows (HasOwner db) db.messages

create_conversation-IsOwned :
    (i now : ℕ) (model : Text) (persona : Option Text) (db : ChatDb)
    → get_conversation i db ≡ none
    → IsOwned db
    → IsOwned (create_conversation i now model persona db).1
unfolding create_conversation get_conversation
create_conversation-IsOwned i now model persona db fresh owned =
    AllRows-map (HasOwner db) (HasOwner (create_conversation i now model persona db).1) db.messages
      (λ m h. rw (find-append i m.conversation_id _ db.conversations fresh) (ground arith)) owned

is_some-update_where :
    (k : ℕ) (p : ℕ → Conversation → Bool) (f : Conversation → Conversation) (t : Table Conversation)
    → is_some (find k (update_where p f t)) ≡ is_some (find k t)
unfolding find update_where
is_some-update_where k p f [] = refl
is_some-update_where k p f ((j, c) ∷ t) = ground (arith, is_some-update_where k p f t)

inserted-IsOwned :
    (now i : ℕ) (role : Role) (content : Text) (cols : Columns) (db : ChatDb)
    → is_some (find i db.conversations) ≡ true
    → IsOwned db
    → IsOwned (inserted now i role content cols db)
unfolding get_conversation inserted new_message
inserted-IsOwned now i role content cols db there owned =
    AllRows-append (HasOwner (inserted now i role content cols db)) db.next_id
      (new_message now i role content cols) db.messages
      (is_some-update_where i _ _ db.conversations ∙ there)
      (AllRows-map (HasOwner db) (HasOwner (inserted now i role content cols db)) db.messages
        (λ m h. is_some-update_where m.conversation_id _ _ db.conversations ∙ h) owned)

append_message-IsOwned :
    (now i : ℕ) (role : Role) (content : Text) (cols : Columns) (db : ChatDb) {n : ℕ} {db' : ChatDb}
    → append_message now i role content cols db ≡ some (n, db')
    → IsOwned db
    → IsOwned db'
unfolding append_message
append_message-IsOwned now i role content cols db {n} {db'} e owned =
    elim (Bool-cases (is_some (find i db.conversations))) [
      | inl there ↦
          subst IsOwned (ground (arith, there))
            (inserted-IsOwned now i role content cols db there owned)
      | inr absent ↦ absurd (ground (arith, absent))
    ]

delete_conversation-IsOwned :
    (i : ℕ) (db : ChatDb) → IsOwned db → IsOwned (delete_conversation i db).1
unfolding delete_conversation get_conversation
delete_conversation-IsOwned i db owned =
    AllRows-rows_where (HasOwner db) (HasOwner (delete_conversation i db).1)
      (λ j m. not (is_in i j m)) db.messages
      (λ j m kept h. rw (find-rows_where m.conversation_id i db.conversations) (ground arith)) owned

-- A statement of the chat: a conversation with an id that is not taken, a message, a deletion.
pub data ChatStep : ChatDb → ChatDb → Type 0 where
  created :
      (i now : ℕ) (model : Text) (persona : Option Text) (db : ChatDb)
      → get_conversation i db ≡ none
      → ChatStep db (create_conversation i now model persona db).1
  appended :
      (now i : ℕ) (role : Role) (content : Text) (cols : Columns) (db : ChatDb) {n : ℕ}
      {db' : ChatDb}
      → append_message now i role content cols db ≡ some (n, db')
      → ChatStep db db'
  deleted : (i : ℕ) (db : ChatDb) → ChatStep db (delete_conversation i db).1

-- The operations of the chat keep it true that every message belongs to a conversation that is there.
pub ChatStep-IsOwned : {db db' : ChatDb} → ChatStep db db' → IsOwned db → IsOwned db'
ChatStep-IsOwned (created i now model persona db fresh) owned =
    create_conversation-IsOwned i now model persona db fresh owned
ChatStep-IsOwned (appended now i role content cols db e) owned =
    append_message-IsOwned now i role content cols db e owned
ChatStep-IsOwned (deleted i db) owned = delete_conversation-IsOwned i db owned
