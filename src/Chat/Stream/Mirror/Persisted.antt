-- ===== src/Chat/Stream/Mirror/Persisted.antt =====
-- src/octo/chat.py, send_stream: the message that its `finally` block leaves.
use agentic_octopus.Prelude.{
  ℕ, zero, suc, ◌≡◌, ◌⊎◌, inl, inr, refl, sym, ap, ◌∙◌, Bool, Option, none, some, List, [], ◌∷◌,
  ◌++◌, Text, Option-cases, Bool-cases, nat_eq,
}
use agentic_octopus.Prelude.Dict.{Dict}
use agentic_octopus.Prelude.Json.{Json, str, num, null, bool, obj, arr}
use agentic_octopus.Prelude.Python.{Py, value, throws}
use agentic_octopus.Providers.Claude.Requests.{join_with}
use agentic_octopus.Providers.Errors.{ok}
use agentic_octopus.Providers.Base.{Route}
use agentic_octopus.Table.{Table, find, append}
use agentic_octopus.Chat.{Role}
use agentic_octopus.Chat.Store.{
  ChatDb, Message, Conversation, Columns, new_message, append_message, get_conversation,
}
use agentic_octopus.Chat.Turn
use agentic_octopus.Chat.Turn.Prepare.{prepare-eq-ready}
use agentic_octopus.Chat.Turn.{
  Failure, closed, Session, Locals, Result, Do, done, fail, bind, ◌>>=◌, ◌>>◌, pure, of_py,
  int_column, of_cast, stored, World, Prepared, ready, context_of, routed, append_to, prepare,
  prepared, conversation, found, of_attempt, history, history_of,
}
use agentic_octopus.Chat.Stream.{
  set_locals, taken, emit, after, try_finally, rounds, announce, persist, finally, stream_metadata,
  first_locals, send_stream,
}
use agentic_octopus.Chat.Stream.Mirror.{shown, rounds-Mirroring}

-- The stream ends, or the client closes it; no other exception leaves it.
abbrev pub Quits : Result Unit → Type 0
Quits r = (r ≡ done tt) ⊎ (r ≡ fail closed)

-- A step of a computation that quits has given a value: what holds of the rest holds of the whole.
module _ (P : Result Unit × Session → Type 0) where
  of_py-then :
      {A : Type 0} (r : Py A) (f : A → Do Unit) (s : Session)
      → Quits ((of_py r >>= f) s).0
      → ((a : A) → r ≡ value a → Quits (f a s).0 → P (f a s))
      → P ((of_py r >>= f) s)
  unfolding of_py ◌>>=◌
  of_py-then (value a) f s q k = k a refl q
  of_py-then (throws x) f s (inl e) k = absurd (cc)
  of_py-then (throws x) f s (inr e) k = absurd (cc)

  of_cast-then :
      (o : Option ℕ) (f : Option ℕ → Do Unit) (s : Session)
      → Quits ((of_cast o >>= f) s).0
      → ((n : Option ℕ) → Quits (f n s).0 → P (f n s))
      → P ((of_cast o >>= f) s)
  unfolding of_cast ◌>>=◌
  of_cast-then none f s (inl e) k = absurd (cc)
  of_cast-then none f s (inr e) k = absurd (cc)
  of_cast-then (some n) f s q k = k (some n) q

  int_column-then :
      (cast : Text → Option ℕ) (j : Option Json) (f : Option ℕ → Do Unit) (s : Session)
      → Quits ((int_column cast j >>= f) s).0
      → ((n : Option ℕ) → Quits (f n s).0 → P (f n s))
      → P ((int_column cast j >>= f) s)
  unfolding int_column ◌>>=◌
  int_column-then cast none f s q k = k none q
  int_column-then cast (some null) f s q k = k none q
  int_column-then cast (some (num n)) f s q k = k (some n) q
  int_column-then cast (some (str t)) f s q k = of_cast-then (cast t) f s q k
  int_column-then cast (some (bool b)) f s (inl e) k = absurd (cc)
  int_column-then cast (some (bool b)) f s (inr e) k = absurd (cc)
  int_column-then cast (some (arr l)) f s (inl e) k = absurd (cc)
  int_column-then cast (some (arr l)) f s (inr e) k = absurd (cc)
  int_column-then cast (some (obj fs)) f s (inl e) k = absurd (cc)
  int_column-then cast (some (obj fs)) f s (inr e) k = absurd (cc)

  append_to-then :
      (w : World) (id : ℕ) (role : Role) (t : Text) (cols : Columns) (f : ℕ → Do Unit) (s : Session)
      → Quits ((append_to w id role t cols >>= f) s).0
      → ((db : ChatDb)
          → db.messages
            ≡ append
                (s.db).next_id
                (new_message (w.clock (s.db).next_id) id role t cols)
                (s.db).messages
          → Quits (f (s.db).next_id (record s { db = db })).0
          → P (f (s.db).next_id (record s { db = db })))
      → P ((append_to w id role t cols >>= f) s)
  unfolding append_to stored append_message ◌>>=◌
  append_to-then w id role t cols f s q k = elim (Option-cases (find id (s.db).conversations)) [
    | inl absent ↦ absurd (elim (rw (absent, stored) at q) [ inl e ↦ cc | inr e ↦ cc ])
    | inr (c, there) ↦ rw there (k _ refl (rw there at q))
  ]

-- The last row of the messages, where it is the one that a stream leaves.
pub record Persisted (id : ℕ) (text : Text) (completed : Bool) (t : Session) : Type 0 where
  pub before : Table Message
  pub row_id : ℕ
  pub row : Message
  pub messages_eq : (t.db).messages ≡ append row_id row before
  pub in_conversation : row.conversation_id ≡ id
  pub by_assistant : row.role ≡ Role.assistant
  pub whole_content : row.content ≡ text
  pub truncated_mark : row.metadata ≡ stream_metadata completed

-- The same tables, variables and shown texts.
abbrev Same : Session → Session → Type 0
Same s t = (t.db ≡ s.db) × (shown t.events ≡ shown s.events) × (t.locals ≡ s.locals)

emit_finished-Same : (n : ℕ) (u : Json) (s : Session) → Same s (emit (Turn.finished n u) s).1
unfolding emit shown
emit_finished-Same n u s = met s.patience
  where
    met :
        (patience : Option ℕ)
        → Same s (taken patience (record s { events = Turn.finished n u ∷ s.events })).1
    met none = (refl, refl, refl)
    met (some zero) = (refl, refl, refl)
    met (some (suc zero)) = (refl, refl, refl)
    met (some (suc (suc k))) = (refl, refl, refl)

announce-Same :
    (w : World) (id : ℕ) (p : Prepared) (l : Locals) (n : ℕ) (s : Session)
    → Same s (announce w id p l n s).1
unfolding announce
announce-Same w id p l n s = elim (Bool-cases l.completed) [
  | inl whole ↦ rw whole (emit_finished-Same n l.usage s)
  | inr cut ↦ rw cut (refl, refl, refl)
]

module _ (w : World) (id : ℕ) (p : Prepared) (tags : Option (Dict Text Json)) where
  -- Text is persisted, or there is none.
  abbrev Left : Text → Bool → Session → Session → Type 0
  Left text completed s t =
      ((text ≡ []) ⊎ Persisted id text completed t)
      × (shown t.events ≡ shown s.events)
      × (t.locals ≡ s.locals)

  persist-Left :
      (l : Locals) (text : Text) (s : Session)
      → Quits (persist w id p tags l text s).0
      → Left text l.completed s (persist w id p tags l text s).1
  unfolding persist new_message
  persist-Left l [] s q = (inl refl, refl, refl)
  persist-Left l (c ∷ text) s q =
      let P : Result Unit × Session → Type 0 = λ r. Left (c ∷ text) l.completed s r.1 in
      of_py-then P _ _ s q (λ prompt _ q1. of_py-then P _ _ s q1 (λ completion _ q2.
        int_column-then P w.int_cast prompt _ s q2 (λ m q3.
          int_column-then P w.int_cast completion _ s q3 (λ n q4.
            append_to-then P w id Role.assistant (c ∷ text) _ _ s q4 (λ db appended q5.
              let (same_db, same_shown, same_locals) =
                announce-Same w id p l (s.db).next_id (record s { db = db }) in
              (
                inr (record {
                  before = (s.db).messages;
                  row_id = (s.db).next_id;
                  row = _;
                  messages_eq = ap (λ (d : ChatDb). d.messages) same_db ∙ appended;
                  in_conversation = refl;
                  by_assistant = refl;
                  whole_content = refl;
                  truncated_mark = refl;
                }),
                same_shown,
                same_locals,
              ))))))

  finally-Left :
      (s : Session)
      → Quits (finally w id p tags s).0
      → (text : Text) × (join_with [] (s.locals).parts ≡ value text)
        × Left text (s.locals).completed s (finally w id p tags s).1
  unfolding finally ◌>>=◌
  finally-Left s q =
      of_py-then
        (λ r.
          (text : Text) × (join_with [] (s.locals).parts ≡ value text)
          × Left text (s.locals).completed s r.1)
        (join_with [] (s.locals).parts) (persist w id p tags s.locals) s q
        (λ text e q1. (text, e, persist-Left s.locals text s q1))

after-Quits : (r e : Result Unit) → Quits (after r e) → Quits e
unfolding after
after-Quits r (done u) q = inl refl
after-Quits r (fail e) q = q

-- What a client was shown, and what is stored of it.
abbrev pub Stored : ℕ → Session → Session → Type 0
Stored id s t =
    (js : List Json) × (text : Text) × (shown t.events ≡ shown s.events ++ js)
    × (join_with [] js ≡ value text)
    × ((text ≡ []) ⊎ Persisted id text (t.locals).completed t)

streamed-Stored :
    (w : World) (id : ℕ) (tags : Option (Dict Text Json)) (p : Prepared) (s : Session)
    → Quits
        ((set_locals (λ l. first_locals (p.route).model) >>= λ u.
            try_finally
              (rounds w id p (suc (w.settings).chat_max_tool_calls) 0 p.context)
              (finally w id p tags))
          s).0
    → Stored id s
        ((set_locals (λ l. first_locals (p.route).model) >>= λ u.
            try_finally
              (rounds w id p (suc (w.settings).chat_max_tool_calls) 0 p.context)
              (finally w id p tags))
          s).1
unfolding ◌>>=◌ try_finally
streamed-Stored w id tags p s q =
    let s1 : Session = record s { locals = first_locals (p.route).model } in
    let round : Result Unit × Session =
      rounds w id p (suc (w.settings).chat_max_tool_calls) 0 p.context s1 in
    let (js, shown_js, parts_js) =
      (rounds-Mirroring w id p (suc (w.settings).chat_max_tool_calls) 0 p.context).keeps s1 in
    let (text, e, (left, same_shown, same_locals)) =
      finally-Left w id p tags round.1 (after-Quits round.0 (finally w id p tags round.1).0 q) in
    (js, text, same_shown ∙ shown_js, ap (join_with []) (sym parts_js) ∙ e, rw same_locals left)

-- A streamed turn of a conversation that is there and routed, that ends or that the client closes
-- anywhere: the texts that the client was shown, the lead-in included, join to the content of an
-- assistant's message, the last one of the messages, which is marked as truncated unless the answer
-- was complete; or they are empty.
pub send_stream-Stored :
    (w : World) (id : ℕ) (text : Text) (tags : Option (Dict Text Json)) (s : Session)
    (convo : Conversation) (route : Route)
    → get_conversation id s.db ≡ some convo
    → routed w convo ≡ ok route
    → Quits (send_stream w id text tags s).0
    → Stored id s (send_stream w id text tags s).1
unfolding send_stream
send_stream-Stored w id text tags s convo route there way q =
    let (context, db, e) =
      prepare-eq-ready w id text
        (λ p. set_locals (λ l. first_locals (p.route).model) >>= λ u.
          try_finally (rounds w id p (suc (w.settings).chat_max_tool_calls) 0 p.context)
            (finally w id p tags))
        s there way in
    rw e
      (streamed-Stored w id tags (ready w convo route context) (record s { db = db }) (rw e at q))
