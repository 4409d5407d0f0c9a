-- ===== src/Chat/Stream/Bounds.antt =====
-- src/octo/chat.py, send_stream: how often a turn asks a provider and runs a tool, and what it writes.
pub mod Turns
use agentic_octopus.Prelude.{
  ℕ, zero, suc, ◌+◌, ◌-◌, ◌≤◌, ◌≡◌, refl, Bool, true, false, ◌&&◌, ◌||◌, Option, none, some, List,
  [], ◌∷◌, ◌++◌, arith, Text, length, leb, Bool-cases, Option-cases, inl, inr, ◌==◌, nat_eq,
  text_beq, text_eq, lit, if◌then◌else◌, contains, lstrip,
}
use agentic_octopus.Prelude.Dict.{Dict, lookup}
use agentic_octopus.Prelude.Json.{Json, Fields, str, bool, obj}
use agentic_octopus.Prelude.Python.{Py}
use agentic_octopus.Providers.Errors.{ok}
use agentic_octopus.Providers.Base.{Provider, Route}
use agentic_octopus.Providers.Calls
use agentic_octopus.Providers.Calls.{Payload}
use agentic_octopus.Chat.{Role, Sent, routed_model_prefix, tools_for}
use agentic_octopus.Chat.Protocol.{tool_marker}
use agentic_octopus.Chat.Sse.{Delta, Stop, finished, raised, iter_sse_deltas}
use agentic_octopus.Chat.Store.{Message, Conversation, Columns, new_message, get_conversation}
use agentic_octopus.Chat.Turn.{
  Failure, Event, chunk, Session, Locals, Result, Do, done, fail, ◌>>=◌, ◌>>◌, pure, raise, of_py,
  of_answer, World, payload_of, Prepared, ready, routed, append_to, prepare, execute_tool_round,
}
use agentic_octopus.Chat.Turn.Works.{
  Works, Works-same, Works-asked, Works-trans, Works-weaken, Bounded, Bounded-within,
  Bounded-behind, Bounded-if, Bounded-pure, Bounded-raise, Bounded-of_py, Bounded-of_answer,
  Bounded-int_column, Bounded-append_to, Bounded-execute_tool_round,
}
use agentic_octopus.Chat.Turn.Prepare.{prepare-Works}
use agentic_octopus.Chat.Send.Bounds.{AskedOf}
use agentic_octopus.Chat.Stream
use agentic_octopus.Chat.Stream.{
  Round, new_round, set_locals, locals, taken, emit, show, try_finally, show_prefix, prefix,
  shown_text, show_unless, is_tool_round, on_decided, on_held, on_undecided, on_delta, on_deltas,
  ended, opened, read_round, decide_now, rounds, announce, persist, finally, first_locals,
  send_stream,
}

module _ (Ok : Provider × Payload → Type 0) (Row : Message → Type 0) (w : World) (id : ℕ)
    (p : Prepared)
    (routed_ok : (context : List Sent)
      → Ok ((p.route).provider, payload_of (p.route).model context))
    (row_ok : (now : ℕ) (role : Role) (content : Text) (cols : Columns)
      → Row (new_message now id role content cols)) where
  abbrev Quiet : {A : Type 0} → Do A → Type 0
  Quiet m = Bounded Ok p.tools Row 0 0 m

  abbrev quiet :
      {A B : Type 0} {m : Do A} {f : A → Do B} → Quiet m → ((a : A) → Quiet (f a)) → Quiet (m >>= f)
  quiet = Bounded-behind Ok p.tools Row

  abbrev nothing : {A : Type 0} (a : A) → Quiet (pure a)
  nothing = Bounded-pure Ok p.tools Row 0 0

  abbrev py : {A : Type 0} (r : Py A) → Quiet (of_py r)
  py = Bounded-of_py Ok p.tools Row

  pub set_locals-Quiet : (f : Locals → Locals) → Quiet (set_locals f)
  set_locals-Quiet f = record { works = λ s. Works-same Ok p.tools Row 0 0 s _ refl refl refl }

  pub locals-Quiet : Quiet locals
  locals-Quiet = record { works = λ s. Works-same Ok p.tools Row 0 0 s s refl refl refl }

  pub emit-Quiet : (e : Event) → Quiet (emit e)
  unfolding emit
  emit-Quiet e = record { works = λ s. met s s.patience }
    where
      met :
          (s : Session) (patience : Option ℕ)
          → Works Ok p.tools Row 0 0 s (taken patience (record s { events = e ∷ s.events })).1
      met s none = Works-same Ok p.tools Row 0 0 s _ refl refl refl
      met s (some zero) = Works-same Ok p.tools Row 0 0 s _ refl refl refl
      met s (some (suc zero)) = Works-same Ok p.tools Row 0 0 s _ refl refl refl
      met s (some (suc (suc n))) = Works-same Ok p.tools Row 0 0 s _ refl refl refl

  show-Quiet : (j : Json) → Quiet (show j)
  unfolding show
  show-Quiet j = quiet (set_locals-Quiet _) (λ u. emit-Quiet _)

  show_prefix-Quiet : (t : Text) → Quiet (show_prefix w id p t)
  unfolding show_prefix
  show_prefix-Quiet [] = nothing tt
  show_prefix-Quiet (c ∷ t) = show-Quiet _

  prefix-Quiet : Quiet (prefix w id p)
  unfolding prefix
  prefix-Quiet = quiet locals-Quiet (λ l.
      Bounded-if Ok p.tools Row _ (nothing tt)
        (quiet (set_locals-Quiet _) (λ u. show_prefix-Quiet _)))

  shown_text-Quiet : (t : Text) → Quiet (shown_text w id p t)
  unfolding shown_text
  shown_text-Quiet [] = nothing tt
  shown_text-Quiet (c ∷ t) = quiet prefix-Quiet (λ u. show-Quiet _)

  show_unless-Quiet : (b : Bool) (t : Text) → Quiet (show_unless w id p b t)
  unfolding show_unless
  show_unless-Quiet true t = nothing tt
  show_unless-Quiet false t = shown_text-Quiet t

  on_decided-Quiet : (j : Json) (r : Round) → Quiet (on_decided w id p j r)
  unfolding on_decided
  on_decided-Quiet j r =
      Bounded-if Ok p.tools Row _ (nothing _) (quiet (show-Quiet _) (λ u. nothing _))

  on_held-Quiet : (j : Json) (held : Text) (r : Round) → Quiet (on_held w id p j held r)
  unfolding on_held
  on_held-Quiet j held r =
      elim (Bool-cases (leb (length tool_marker) (length (lstrip held)) || contains 10 held)) [
        | inl enough ↦ rw enough (quiet (show_unless-Quiet _ _) (λ u. nothing _))
        | inr short ↦ rw short (nothing _)
      ]

  on_undecided-Quiet : (j : Json) (r : Round) → Quiet (on_undecided w id p j r)
  unfolding on_undecided
  on_undecided-Quiet (str t) r = on_held-Quiet _ _ r
  on_undecided-Quiet Json.null r = Bounded-raise Ok p.tools Row 0 0 _
  on_undecided-Quiet (bool b) r = Bounded-raise Ok p.tools Row 0 0 _
  on_undecided-Quiet (Json.num n) r = Bounded-raise Ok p.tools Row 0 0 _
  on_undecided-Quiet (Json.arr l) r = Bounded-raise Ok p.tools Row 0 0 _
  on_undecided-Quiet (obj fs) r = Bounded-raise Ok p.tools Row 0 0 _

  on_delta-Quiet : (d : Delta) (r : Round) → Quiet (on_delta w id p d r)
  unfolding on_delta
  on_delta-Quiet (Delta.usage j) r = quiet (set_locals-Quiet _) (λ u. nothing _)
  on_delta-Quiet (Delta.model j) r = quiet (set_locals-Quiet _) (λ u. nothing _)
  on_delta-Quiet (Delta.text j) r =
      Bounded-if Ok p.tools Row _ (on_decided-Quiet j r) (on_undecided-Quiet j r)

  on_deltas-Quiet : (ds : List Delta) (r : Round) → Quiet (on_deltas w id p ds r)
  unfolding on_deltas
  on_deltas-Quiet [] r = nothing r
  on_deltas-Quiet (d ∷ ds) r = quiet (on_delta-Quiet d r) (on_deltas-Quiet ds)

  ended-Quiet : (o : Option Stop) (r : Round) → Quiet (ended w id p o r)
  unfolding ended
  ended-Quiet none r = nothing r
  ended-Quiet (some finished) r = nothing r
  ended-Quiet (some (raised x)) r = Bounded-raise Ok p.tools Row 0 0 _

  opened-Works :
      (context : List Sent) (s : Session) → Works Ok p.tools Row 1 0 s (opened w id p context s).1
  unfolding opened
  opened-Works context s =
      let r : Provider × Payload = ((p.route).provider, payload_of (p.route).model context) in
      Works-trans Ok p.tools Row (Works-asked Ok p.tools Row r s (routed_ok context)) (
        (Bounded-of_answer Ok p.tools Row
            (Calls.stream w.settings w.dumps (w.servers (length s.requests)) r.0 r.1)).works
          (record s { requests = r ∷ s.requests }))

  pub read_round-Bounded :
      (context : List Sent) → Bounded Ok p.tools Row 1 0 (read_round w id p context)
  unfolding read_round
  read_round-Bounded context =
      Bounded-within Ok p.tools Row {k' = 0} {l' = 0} (omega arith) (omega arith)
        (record { works = opened-Works context })
        (λ chunks. quiet (on_deltas-Quiet _ _) (λ r. ended-Quiet _ r))

  pub decide_now-Quiet : (t : Text) (r : Round) → Quiet (decide_now w id p t r)
  unfolding decide_now
  decide_now-Quiet t r =
      Bounded-if Ok p.tools Row _ (nothing _) (quiet (show_unless-Quiet _ _) (λ u. nothing _))

  pub complete-Quiet : Quiet (Stream.complete w id p)
  unfolding Stream.complete
  complete-Quiet = set_locals-Quiet _

  pub as_is-Quiet : (t : Text) → Quiet (prefix w id p >> show (str t) >> Stream.complete w id p)
  as_is-Quiet t = quiet (quiet prefix-Quiet (λ u. show-Quiet _)) (λ u. complete-Quiet)
