-- ===== src/Chat/Send/Bounds.antt =====
-- src/octo/chat.py, send: how often a turn asks a provider and runs a tool, and what it writes.
use agentic_octopus.Prelude.{
  ℕ, zero, suc, ◌+◌, ◌-◌, ◌≡◌, refl, Option, none, some, List, ◌∷◌, arith, Text, length, leb,
  text_beq, text_eq, lit, Bool-cases, Option-cases, inl, inr, nat_eq,
}
use agentic_octopus.Prelude.Dict.{Dict, lookup}
use agentic_octopus.Prelude.Json.{Json, str, obj}
use agentic_octopus.Prelude.Python.{Py}
use agentic_octopus.Providers.Errors.{ok}
use agentic_octopus.Providers.Base.{Provider, Route}
use agentic_octopus.Providers.Calls
use agentic_octopus.Providers.Calls.{Payload}
use agentic_octopus.Chat.{Role, Sent, tools_for}
use agentic_octopus.Chat.Store.{Message, Conversation, Columns, new_message, get_conversation}
use agentic_octopus.Chat.Turn.{
  Session, Do, ◌>>=◌, of_py, World, payload_of, Prepared, ready, routed,
}
use agentic_octopus.Chat.Turn.Works.{
  Works, Works-asked, Works-trans, Bounded, Bounded-within, Bounded-behind, Bounded-if,
  Bounded-pure, Bounded-raise, Bounded-of_py, Bounded-of_answer, Bounded-int_column,
  Bounded-append_to, Bounded-execute_tool_round,
}
use agentic_octopus.Chat.Turn.Prepare.{prepare-Works}
use agentic_octopus.Chat.Send.{
  Answer, no_error, asked, read_answer, with_status, ask, rounds, with_prefix, conclude, no_answer,
  send,
}

module _ (Ok : Provider × Payload → Type 0) (Row : Message → Type 0) (w : World) (id : ℕ)
    (p : Prepared)
    (routed_ok : (context : List Sent)
      → Ok ((p.route).provider, payload_of (p.route).model context))
    (row_ok : (now : ℕ) (role : Role) (content : Text) (cols : Columns)
      → Row (new_message now id role content cols)) where
  asked-Works :
      (context : List Sent) (s : Session) → Works Ok p.tools Row 1 0 s (asked w p context s).1
  unfolding asked
  asked-Works context s =
      let r : Provider × Payload = ((p.route).provider, payload_of (p.route).model context) in
      Works-trans Ok p.tools Row (Works-asked Ok p.tools Row r s (routed_ok context)) (
        (Bounded-of_answer Ok p.tools Row
            (Calls.complete w.settings w.dumps (w.servers (length s.requests)) r.0 r.1)).works
          (record s { requests = r ∷ s.requests }))

  no_error-Bounded : (e : Option Json) → Bounded Ok p.tools Row 0 0 (no_error e)
  no_error-Bounded none = Bounded-pure Ok p.tools Row 0 0 tt
  no_error-Bounded (some e) = Bounded-raise Ok p.tools Row 0 0 _

  abbrev quiet :
      {A B : Type 0} {m : Do A} {f : A → Do B}
      → Bounded Ok p.tools Row 0 0 m
      → ((a : A) → Bounded Ok p.tools Row 0 0 (f a))
      → Bounded Ok p.tools Row 0 0 (m >>= f)
  quiet = Bounded-behind Ok p.tools Row

  abbrev py : {A : Type 0} (r : Py A) → Bounded Ok p.tools Row 0 0 (of_py r)
  py = Bounded-of_py Ok p.tools Row

  read_answer-Bounded :
      (old : Answer) (data_ : Json) → Bounded Ok p.tools Row 0 0 (read_answer w old data_)
  unfolding read_answer
  read_answer-Bounded old data_ = quiet (py _) (λ e. quiet (no_error-Bounded _) (λ u.
      quiet (py _) (λ choices. quiet (py _) (λ choice. quiet (py _) (λ message.
        quiet (py _) (λ content.
          quiet (py _) (λ usage. quiet (py _) (λ model. Bounded-pure Ok p.tools Row 0 0 _))))))))

  with_status-Bounded :
      (old : Answer) (r : ℕ × Text) → Bounded Ok p.tools Row 0 0 (with_status w old r)
  unfolding with_status
  with_status-Bounded old (status, text) =
      Bounded-if Ok p.tools Row _ (quiet (py _) (read_answer-Bounded old))
        (Bounded-raise Ok p.tools Row 0 0 _)

  ask-Bounded :
      (context : List Sent) (old : Answer) → Bounded Ok p.tools Row 1 0 (ask w p context old)
  unfolding ask
  ask-Bounded context old =
      Bounded-within Ok p.tools Row {k' = 0} {l' = 0} (omega arith) (omega arith)
        (record { works = asked-Works context }) (with_status-Bounded old)

  pub rounds-Bounded :
      (left round_no : ℕ) (context : List Sent) (old : Answer)
      → left + round_no ≡ suc (w.settings).chat_max_tool_calls
      → Bounded Ok p.tools Row left (left - 1) (rounds w left round_no id p context old)
  unfolding rounds
  rounds-Bounded zero round_no context old e = Bounded-pure Ok p.tools Row 0 0 old
  rounds-Bounded (suc left) round_no context old e =
      Bounded-within Ok p.tools Row {k' = left} {l' = left} (omega arith) (omega arith)
        (ask-Bounded context old)
        (λ answer. Bounded-behind Ok p.tools Row (py _) (λ call. elim (Option-cases call) [
          | inl no_call ↦ rw no_call (Bounded-pure Ok p.tools Row left left answer)
          | inr ((tool, args), e_call) ↦
              rw e_call (elim (Bool-cases (leb (w.settings).chat_max_tool_calls round_no)) [
                | inl last ↦ rw last (Bounded-pure Ok p.tools Row left left answer)
                | inr more ↦ rw more (
                    Bounded-within Ok p.tools Row {k' = left} {l' = left - 1} (omega arith)
                      (ground arith)
                      (Bounded-execute_tool_round Ok p.tools Row w id context _ tool args
                        (λ now. row_ok now Role.tool))
                      (λ longer.
                        rounds-Bounded left (suc round_no) longer answer (omega (arith, e))))
              ])
        ]))

  with_prefix-Bounded :
      (model actual : Text) (content : Json)
      → Bounded Ok p.tools Row 0 0 (with_prefix w model actual content)
  unfolding with_prefix
  with_prefix-Bounded model actual (str t) = Bounded-pure Ok p.tools Row 0 0 _
  with_prefix-Bounded model actual Json.null = Bounded-raise Ok p.tools Row 0 0 _
  with_prefix-Bounded model actual (Json.bool b) = Bounded-raise Ok p.tools Row 0 0 _
  with_prefix-Bounded model actual (Json.num n) = Bounded-raise Ok p.tools Row 0 0 _
  with_prefix-Bounded model actual (Json.arr l) = Bounded-raise Ok p.tools Row 0 0 _
  with_prefix-Bounded model actual (obj fs) = Bounded-raise Ok p.tools Row 0 0 _

  pub conclude-Bounded :
      (tags : Option (Dict Text Json)) (answer : Answer)
      → Bounded Ok p.tools Row 0 0 (conclude w id p tags answer)
  unfolding conclude
  conclude-Bounded tags answer = quiet (py _) (λ prompt. quiet (py _) (λ completion.
      quiet (with_prefix-Bounded _ _ _) (λ content.
        quiet (Bounded-int_column Ok p.tools Row w.int_cast _) (λ m.
          quiet (Bounded-int_column Ok p.tools Row w.int_cast _) (λ n.
            Bounded-append_to Ok p.tools Row w id Role.assistant _ _
              (λ now. row_ok now Role.assistant _ _))))))

-- The provider and the model of a request.
abbrev pub AskedOf : Route → Provider × Payload → Type 0
AskedOf route r = (r.0 ≡ route.provider) × (lookup (lit "model") r.1 ≡ some (str route.model))

pub send-Works_of :
    (Ok : Provider × Payload → Type 0) (w : World) (id : ℕ) (text : Text)
    (tags : Option (Dict Text Json)) (s : Session) (convo : Conversation) (route : Route)
    → get_conversation id s.db ≡ some convo
    → routed w convo ≡ ok route
    → ((context : List Sent) → Ok (route.provider, payload_of route.model context))
    → Works Ok
        (tools_for w.settings (some convo.persona) w.registry)
        (λ m. m.conversation_id ≡ id)
        (suc (w.settings).chat_max_tool_calls)
        (w.settings).chat_max_tool_calls
        s
        (send w id text tags s).1
unfolding send new_message
send-Works_of Ok w id text tags s convo route there way asks =
    let max = (w.settings).chat_max_tool_calls in
    prepare-Works {k = suc max} {l = max} Ok (λ m. m.conversation_id ≡ id) w id text
      (λ p. rounds w (suc max) 0 id p p.context (no_answer w p) >>= conclude w id p tags) s there
      way (λ now. refl)
      (λ context.
        let p : Prepared = ready w convo route context in
        Bounded-within Ok p.tools (λ m. m.conversation_id ≡ id) {k' = 0} {l' = 0} (omega arith)
          (omega arith)
          (rounds-Bounded Ok (λ m. m.conversation_id ≡ id) w id p asks
            (λ now role content cols. refl) (suc max) 0 context (no_answer w p) (omega arith))
          (conclude-Bounded Ok (λ m. m.conversation_id ≡ id) w id p asks
            (λ now role content cols. refl) tags))

-- A turn of a conversation that is there and routed, however the provider and the web answer and
-- whatever is raised: at most one request more than there may be tool calls, all to the provider and
-- for the model of the route; at most that many tool calls, all of tools that the persona has; and no
-- message is written, taken away or changed but new ones of the conversation itself.
pub send-Works :
    (w : World) (id : ℕ) (text : Text) (tags : Option (Dict Text Json)) (s : Session)
    (convo : Conversation) (route : Route)
    → get_conversation id s.db ≡ some convo
    → routed w convo ≡ ok route
    → Works
        (AskedOf route)
        (tools_for w.settings (some convo.persona) w.registry)
        (λ m. m.conversation_id ≡ id)
        (suc (w.settings).chat_max_tool_calls)
        (w.settings).chat_max_tool_calls
        s
        (send w id text tags s).1
unfolding text_beq lookup
send-Works w id text tags s convo route there way =
    send-Works_of (AskedOf route) w id text tags s convo route there way (λ context. (refl, refl))
