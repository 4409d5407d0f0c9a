-- ===== src/Chat/Stream/Bounds/Turns.antt =====
-- src/octo/chat.py, send_stream: the bounds of the whole turn.
use agentic_octopus.Prelude.{
  ℕ, zero, suc, ◌+◌, ◌-◌, ◌≡◌, refl, Option, some, List, [], ◌∷◌, arith, Text, leb, Bool-cases,
  Option-cases, inl, inr, text_beq,
}
use agentic_octopus.Prelude.Dict.{Dict, lookup}
use agentic_octopus.Prelude.Json.{Json}
use agentic_octopus.Providers.Errors.{ok}
use agentic_octopus.Providers.Base.{Provider, Route}
use agentic_octopus.Providers.Calls.{Payload}
use agentic_octopus.Chat.{Role, Sent, tools_for}
use agentic_octopus.Chat.Store.{Message, Conversation, Columns, new_message, get_conversation}
use agentic_octopus.Chat.Turn.{
  Session, Locals, Do, ◌>>=◌, World, payload_of, Prepared, ready, routed,
}
use agentic_octopus.Chat.Turn.Works.{
  Works, Works-trans, Works-weaken, Bounded, Bounded-within, Bounded-behind, Bounded-if,
  Bounded-weaken, Bounded-pure, Bounded-of_py, Bounded-int_column, Bounded-append_to,
  Bounded-execute_tool_round,
}
use agentic_octopus.Chat.Turn.Prepare.{prepare-Works}
use agentic_octopus.Chat.Send.Bounds.{AskedOf}
use agentic_octopus.Chat.Stream.{
  set_locals, try_finally, rounds, announce, persist, finally, first_locals, send_stream,
}
use agentic_octopus.Chat.Stream.Bounds.{
  set_locals-Quiet, locals-Quiet, emit-Quiet, read_round-Bounded, decide_now-Quiet, complete-Quiet,
  as_is-Quiet,
}

module _ (Ok : Provider × Payload → Type 0) (Row : Message → Type 0) (w : World) (id : ℕ)
    (p : Prepared)
    (routed_ok : (context : List Sent)
      → Ok ((p.route).provider, payload_of (p.route).model context))
    (row_ok : (now : ℕ) (role : Role) (content : Text) (cols : Columns)
      → Row (new_message now id role content cols)) where
  still : (k : ℕ) {m : Do Unit} → Bounded Ok p.tools Row 0 0 m → Bounded Ok p.tools Row k k m
  still k h = Bounded-weaken Ok p.tools Row (omega arith) (omega arith) h

  rounds-Bounded :
      (left round_no : ℕ) (context : List Sent)
      → left + round_no ≡ suc (w.settings).chat_max_tool_calls
      → Bounded Ok p.tools Row left (left - 1) (rounds w id p left round_no context)
  unfolding rounds
  rounds-Bounded zero round_no context e = Bounded-pure Ok p.tools Row 0 0 tt
  rounds-Bounded (suc left) round_no context e =
      Bounded-within Ok p.tools Row {k' = left} {l' = left} (omega arith) (omega arith)
        (read_round-Bounded Ok Row w id p routed_ok row_ok context)
        (λ r. Bounded-behind Ok p.tools Row (Bounded-of_py Ok p.tools Row _) (λ full.
          Bounded-behind Ok p.tools Row (decide_now-Quiet Ok Row w id p routed_ok row_ok full r)
            (λ tool_round.
              Bounded-if Ok p.tools Row _
                (still left (complete-Quiet Ok Row w id p routed_ok row_ok))
                (Bounded-behind Ok p.tools Row (Bounded-of_py Ok p.tools Row _) (λ call.
                  elim (Option-cases call) [
                    | inl no_call ↦
                        rw no_call (still left (as_is-Quiet Ok Row w id p routed_ok row_ok full))
                    | inr ((tool, args), e_call) ↦
                        rw e_call
                          (elim (Bool-cases (leb (w.settings).chat_max_tool_calls round_no)) [
                            | inl last ↦
                                rw last
                                  (still left (as_is-Quiet Ok Row w id p routed_ok row_ok full))
                            | inr more ↦ rw more (
                                Bounded-behind Ok p.tools Row
                                  (emit-Quiet Ok Row w id p routed_ok row_ok _)
                                  (λ u.
                                    Bounded-within Ok p.tools Row {k' = left} {l' = left - 1}
                                      (omega arith) (ground arith)
                                      (Bounded-execute_tool_round Ok p.tools Row w id context _ tool
                                        args (λ now. row_ok now Role.tool))
                                      (λ longer.
                                        rounds-Bounded left (suc round_no) longer
                                          (omega (arith, e)))))
                          ])
                  ])))))

  announce-Quiet : (l : Locals) (n : ℕ) → Bounded Ok p.tools Row 0 0 (announce w id p l n)
  unfolding announce
  announce-Quiet l n =
      Bounded-if Ok p.tools Row _ (emit-Quiet Ok Row w id p routed_ok row_ok _)
        (Bounded-pure Ok p.tools Row 0 0 tt)

  persist-Quiet :
      (tags : Option (Dict Text Json)) (l : Locals) (t : Text)
      → Bounded Ok p.tools Row 0 0 (persist w id p tags l t)
  unfolding persist
  persist-Quiet tags l [] = Bounded-pure Ok p.tools Row 0 0 tt
  persist-Quiet tags l (c ∷ t) =
      Bounded-behind Ok p.tools Row (Bounded-of_py Ok p.tools Row _) (λ a.
        Bounded-behind Ok p.tools Row (Bounded-of_py Ok p.tools Row _) (λ b.
          Bounded-behind Ok p.tools Row (Bounded-int_column Ok p.tools Row w.int_cast _) (λ m.
            Bounded-behind Ok p.tools Row (Bounded-int_column Ok p.tools Row w.int_cast _) (λ n.
              Bounded-behind Ok p.tools Row
                (Bounded-append_to Ok p.tools Row w id Role.assistant _ _
                  (λ now. row_ok now Role.assistant _ _))
                (λ row. announce-Quiet l row)))))

  finally-Quiet :
      (tags : Option (Dict Text Json)) → Bounded Ok p.tools Row 0 0 (finally w id p tags)
  unfolding finally
  finally-Quiet tags =
      Bounded-behind Ok p.tools Row (locals-Quiet Ok Row w id p routed_ok row_ok) (λ l.
        Bounded-behind Ok p.tools Row (Bounded-of_py Ok p.tools Row _)
          (λ t. persist-Quiet tags l t))

  try_finally-Bounded :
      (k l : ℕ) (m f : Do Unit)
      → Bounded Ok p.tools Row k l m
      → Bounded Ok p.tools Row 0 0 f
      → Bounded Ok p.tools Row k l (try_finally m f)
  unfolding try_finally
  try_finally-Bounded k l m f hm hf = record {
    works = λ s.
        Works-weaken Ok p.tools Row {k = k + 0} {l = l + 0} (omega arith) (omega arith)
          (Works-trans Ok p.tools Row (hm.works s) (hf.works (m s).1));
  }

pub send_stream-Works_of :
    (Ok : Provider × Payload → Type 0) (w : World) (id : ℕ) (text : Text)
    (tags : Option (Dict Text Json)) (s : Session) (convo : Conversation) (route : Route)
    → get_conversation id s.db ≡ some convo
    → routed w convo ≡ ok route
    → ((context : List Sent) → Ok (route.provider, payload_of route.model context))
    → Works Ok
        (tools_for w.settings (some convo.persona) w.registry)
        (λ m. m.conversation_id ≡ id)
        (suc (w.settings).chat_max_tool_calls)
        (w.settings).chat_max_tool_calls
        s
        (send_stream w id text tags s).1
unfolding send_stream new_message
send_stream-Works_of Ok w id text tags s convo route there way asks =
    let max = (w.settings).chat_max_tool_calls in
    prepare-Works {k = suc max} {l = max} Ok (λ m. m.conversation_id ≡ id) w id text
      (λ p. set_locals (λ l. first_locals (p.route).model) >>= λ u.
        try_finally (rounds w id p (suc max) 0 p.context) (finally w id p tags))
      s there way (λ now. refl)
      (λ context.
        let p : Prepared = ready w convo route context in
        Bounded-behind Ok p.tools (λ m. m.conversation_id ≡ id)
          (set_locals-Quiet Ok (λ m. m.conversation_id ≡ id) w id p asks
            (λ now role content cols. refl) (λ l. first_locals (p.route).model))
          (λ u.
            try_finally-Bounded Ok (λ m. m.conversation_id ≡ id) w id p asks
              (λ now role content cols. refl) (suc max) max _ _
              (Bounded-weaken Ok p.tools (λ m. m.conversation_id ≡ id) {k = suc max}
                {l = suc max - 1} (omega arith) (omega arith)
                (rounds-Bounded Ok (λ m. m.conversation_id ≡ id) w id p asks
                  (λ now role content cols. refl) (suc max) 0 context (omega arith)))
              (finally-Quiet Ok (λ m. m.conversation_id ≡ id) w id p asks
                (λ now role content cols. refl) tags)))

-- A streamed turn of a conversation that is there and routed, however the provider and the web answer,
-- whatever is raised and wherever the client closes the stream: at most one request more than there
-- may be tool calls, all to the provider and for the model of the route; at most that many tool calls,
-- all of tools that the persona has; and no message is written, taken away or changed but new ones of
-- the conversation itself.
pub send_stream-Works :
    (w : World) (id : ℕ) (text : Text) (tags : Option (Dict Text Json)) (s : Session)
    (convo : Conversation) (route : Route)
    → get_conversation id s.db ≡ some convo
    → routed w convo ≡ ok route
    → Works
        (AskedOf route)
        (tools_for w.settings (some convo.persona) w.registry)
        (λ m. m.conversation_id ≡ id)
        (suc (w.settings).chat_max_tool_calls)
        (w.settings).chat_max_tool_calls
        s
        (send_stream w id text tags s).1
unfolding text_beq lookup
send_stream-Works w id text tags s convo route there way =
    send_stream-Works_of (AskedOf route) w id text tags s convo route there way
      (λ context. (refl, refl))
