-- ===== src/Chat/Turn/Prepare.antt =====
-- src/octo/chat.py, _prepare: what a turn does before it asks a provider.
use agentic_octopus.Prelude.{ℕ, ◌+◌, arith, ◌≡◌, refl, some, List, Text, []}
use agentic_octopus.Providers.Errors.{ok}
use agentic_octopus.Providers.Base.{Provider, Route}
use agentic_octopus.Providers.Calls.{Payload}
use agentic_octopus.Chat.{Role, Sent}
use agentic_octopus.Chat.Store.{
  ChatDb, Columns, Message, Conversation, no_columns, new_message, inserted, get_conversation,
  get_messages, append_message,
}
use agentic_octopus.Chat.Turn.{
  Session, Result, Do, done, fail, bind, ◌>>=◌, pure, stored, World, append_to, ready, context_of,
  routed, prepare, conversation, of_attempt, found, prepared, history, history_of,
}
use agentic_octopus.Chat.Turn.Works.{Works, Works-weaken, Works-trans, Bounded, Bounded-append_to}

-- A turn of a conversation that is there, routed: what it does is bounded by what it does with the
-- conversation's route and tools, whatever the context.
pub prepare-Works :
    {B : Type 0} {k l : ℕ} (Ok : Provider × Payload → Type 0) (Row : Message → Type 0) (w : World)
    (id : ℕ) (text : Text) (f : _ → Do B) {convo : Conversation} {route : Route} (s : Session)
    → get_conversation id s.db ≡ some convo
    → routed w convo ≡ ok route
    → ((now : ℕ) → Row (new_message now id Role.user text no_columns))
    → ((context : List Sent)
        → Bounded Ok (ready w convo route context).tools Row k l (f (ready w convo route context)))
    → Works Ok (ready w convo route []).tools Row k l s ((prepare w id text >>= f) s).1
unfolding ◌>>=◌ prepare conversation found of_attempt prepared history
prepare-Works {k} {l} Ok Row w id text f {convo} {route} s there way row then_ =
    rw (there, way, found, of_attempt)
      (behind (append_to w id Role.user text no_columns s) (
        (Bounded-append_to Ok (ready w convo route []).tools Row w id Role.user text no_columns
            row).works
          s))
  where
    behind :
        (r : Result ℕ × Session)
        → Works Ok (ready w convo route []).tools Row 0 0 s r.1
        → Works Ok
            (ready w convo route []).tools
            Row
            k
            l
            s
            (bind
              (bind r (λ n. history w id >>= λ messages.
                pure (ready w convo route (context_of w convo messages))))
              f).1
    behind (done n, t) h =
        Works-weaken Ok (ready w convo route []).tools Row {k = 0 + k} {l = 0 + l} (omega arith)
          (omega arith)
          (Works-trans Ok (ready w convo route []).tools Row h
            ((then_ (context_of w convo (history_of (get_messages id t.db)))).works t))
    behind (fail e, t) h =
        Works-weaken Ok (ready w convo route []).tools Row {k = 0} {l = 0} (omega arith)
          (omega arith) h

append_to-eq-done :
    (w : World) (id : ℕ) (role : Role) (text : Text) (cols : Columns) {convo : Conversation}
    (s : Session)
    → get_conversation id s.db ≡ some convo
    → append_to w id role text cols s ≡ (
      done (s.db).next_id,
      record s { db = inserted (w.clock (s.db).next_id) id role text cols s.db },
    )
unfolding append_to append_message get_conversation stored
append_to-eq-done w id role text cols s there = rw (there, stored) refl

-- Where nothing stands in its way, the user's message is stored and the turn goes on.
pub prepare-eq-ready :
    {B : Type 0} (w : World) (id : ℕ) (text : Text) (f : _ → Do B) {convo : Conversation}
    {route : Route} (s : Session)
    → get_conversation id s.db ≡ some convo
    → routed w convo ≡ ok route
    → (context : List Sent) × (db : ChatDb) × ((prepare w id text >>= f) s
        ≡ f (ready w convo route context) (record s { db = db }))
unfolding ◌>>=◌ prepare conversation found of_attempt prepared history
prepare-eq-ready w id text f {convo} {route} s there way =
    let db = inserted (w.clock (s.db).next_id) id Role.user text no_columns s.db in
    (
      context_of w convo (history_of (get_messages id db)),
      db,
      rw
          (
            there,
            way,
            found,
            of_attempt,
            prepared,
            append_to-eq-done w id Role.user text no_columns s there,
          )
          refl,
    )
