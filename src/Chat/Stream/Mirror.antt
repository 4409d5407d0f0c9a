-- ===== src/Chat/Stream/Mirror.antt =====
-- src/octo/chat.py, send_stream: what the client is shown and what `parts` holds.
pub mod Persisted
use agentic_octopus.Prelude.{
  ℕ, zero, suc, ◌≡◌, refl, sym, ap, ◌∙◌, Bool, true, false, Option, none, some, List, [], ◌∷◌, ◌++◌,
  Text, length, leb, Option-cases, inl, inr, if◌then◌else◌,
}
use agentic_octopus.Prelude.Json.{Json, Fields, str, bool, obj}
use agentic_octopus.Prelude.Python.{Py}
use agentic_octopus.Providers.Calls
use agentic_octopus.Chat.{Role, Sent}
use agentic_octopus.Chat.Sse.{Delta, Stop, finished, raised, iter_sse_deltas}
use agentic_octopus.Chat.Turn
use agentic_octopus.Chat.Turn.{
  Event, chunk, tool_status, Session, Locals, Do, ◌>>=◌, ◌>>◌, pure, World, Prepared, payload_of,
}
use agentic_octopus.Chat.Turn.Keeps.{
  Keeps, Keeps-bind, Keeps-if, Keeps-pure, Keeps-raise, Keeps-of_py, Keeps-of_answer,
  Keeps-execute_tool_round,
}
use agentic_octopus.Chat.Stream
use agentic_octopus.Chat.Stream.{
  Round, new_round, set_locals, locals, taken, emit, show, show_prefix, prefix, shown_text,
  show_unless, on_decided, on_held, on_undecided, on_delta, on_deltas, ended, opened, read_round,
  decide_now, rounds,
}

-- The contents of the chunks among the events, the first first.
pub shown : List Event → List Json
shown [] = []
shown (chunk j ∷ es) = shown es ++ j ∷ []
shown (tool_status tool args n ∷ es) = shown es
shown (Turn.finished n u ∷ es) = shown es

append_assoc : {A : Type 0} (xs ys zs : List A) → xs ++ (ys ++ zs) ≡ (xs ++ ys) ++ zs
append_assoc [] ys zs = refl
append_assoc (x ∷ xs) ys zs = ap (◌∷◌ x) (append_assoc xs ys zs)

append_nil : {A : Type 0} (xs : List A) → xs ++ [] ≡ xs
append_nil [] = refl
append_nil (x ∷ xs) = ap (◌∷◌ x) (append_nil xs)

-- What the client is shown is what is added to `parts`.
abbrev pub Mirrors : Session → Session → Type 0
Mirrors s t =
    (js : List Json) × (shown t.events ≡ shown s.events ++ js)
    × ((t.locals).parts ≡ (s.locals).parts ++ js)

pub Mirrors-same :
    (s t : Session) → t.events ≡ s.events → (t.locals).parts ≡ (s.locals).parts → Mirrors s t
Mirrors-same s t e p =
    ([], ap shown e ∙ sym (append_nil (shown s.events)), p ∙ sym (append_nil (s.locals).parts))

abbrev pub mirrors_refl : (s : Session) → Mirrors s s
mirrors_refl s = Mirrors-same s s refl refl

pub Mirrors-trans : (s t u : Session) → Mirrors s t → Mirrors t u → Mirrors s u
Mirrors-trans s t u (js, shown_js, parts_js) (ks, shown_ks, parts_ks) = (
  js ++ ks,
  shown_ks ∙ ap (λ l. l ++ ks) shown_js ∙ sym (append_assoc (shown s.events) js ks),
  parts_ks ∙ ap (λ l. l ++ ks) parts_js ∙ sym (append_assoc (s.locals).parts js ks),
)

abbrev Mirroring : {A : Type 0} → Do A → Type 0
Mirroring m = Keeps Mirrors mirrors_refl Mirrors-trans m

abbrev seq :
    {A B : Type 0} {m : Do A} {f : A → Do B}
    → Mirroring m
    → ((a : A) → Mirroring (f a))
    → Mirroring (m >>= f)
seq = Keeps-bind Mirrors mirrors_refl Mirrors-trans

abbrev nothing : {A : Type 0} (a : A) → Mirroring (pure a)
nothing = Keeps-pure Mirrors mirrors_refl Mirrors-trans

abbrev py : {A : Type 0} (r : Py A) → Mirroring (Turn.of_py r)
py = Keeps-of_py Mirrors mirrors_refl Mirrors-trans

-- Only `parts` counts among the variables.
set_locals-Mirroring :
    (f : Locals → Locals) → ((l : Locals) → (f l).parts ≡ l.parts) → Mirroring (set_locals f)
set_locals-Mirroring f keep = record {
  keeps = λ s. Mirrors-same s (record s { locals = f s.locals }) refl (keep s.locals);
}

locals-Mirroring : Mirroring locals
locals-Mirroring = record { keeps = mirrors_refl }

tool_status-Mirroring :
    (tool : Text) (args : Fields) (n : ℕ) → Mirroring (emit (tool_status tool args n))
unfolding emit shown
tool_status-Mirroring tool args n = record { keeps = λ s. met s s.patience }
  where
    met :
        (s : Session) (patience : Option ℕ)
        → Mirrors s (taken patience (record s { events = tool_status tool args n ∷ s.events })).1
    met s none = ([], sym (append_nil (shown s.events)), sym (append_nil (s.locals).parts))
    met s (some zero) = ([], sym (append_nil (shown s.events)), sym (append_nil (s.locals).parts))
    met s (some (suc zero)) =
        ([], sym (append_nil (shown s.events)), sym (append_nil (s.locals).parts))
    met s (some (suc (suc k))) =
        ([], sym (append_nil (shown s.events)), sym (append_nil (s.locals).parts))

show-Mirroring : (j : Json) → Mirroring (show j)
unfolding show emit shown ◌>>=◌
show-Mirroring j = record { keeps = λ s. met s s.patience }
  where
    met :
        (s : Session) (patience : Option ℕ)
        → Mirrors s
            (taken patience (record s {
              events = chunk j ∷ s.events;
              locals = record s.locals { parts = (s.locals).parts ++ j ∷ [] };
            })).1
    met s none = (j ∷ [], refl, refl)
    met s (some zero) = (j ∷ [], refl, refl)
    met s (some (suc zero)) = (j ∷ [], refl, refl)
    met s (some (suc (suc k))) = (j ∷ [], refl, refl)

module _ (w : World) (id : ℕ) (p : Prepared) where
  show_prefix-Mirroring : (t : Text) → Mirroring (show_prefix w id p t)
  unfolding show_prefix
  show_prefix-Mirroring [] = nothing tt
  show_prefix-Mirroring (c ∷ t) = show-Mirroring _

  prefix-Mirroring : Mirroring (prefix w id p)
  unfolding prefix
  prefix-Mirroring = seq locals-Mirroring (λ l.
      Keeps-if Mirrors mirrors_refl Mirrors-trans _ (nothing tt)
        (seq (set_locals-Mirroring _ (λ l'. refl)) (λ u. show_prefix-Mirroring _)))

  shown_text-Mirroring : (t : Text) → Mirroring (shown_text w id p t)
  unfolding shown_text
  shown_text-Mirroring [] = nothing tt
  shown_text-Mirroring (c ∷ t) = seq prefix-Mirroring (λ u. show-Mirroring _)

  show_unless-Mirroring : (b : Bool) (t : Text) → Mirroring (show_unless w id p b t)
  unfolding show_unless
  show_unless-Mirroring true t = nothing tt
  show_unless-Mirroring false t = shown_text-Mirroring t

  on_held-Mirroring : (j : Json) (held : Text) (r : Round) → Mirroring (on_held w id p j held r)
  unfolding on_held
  on_held-Mirroring j held r =
      Keeps-if Mirrors mirrors_refl Mirrors-trans _
        (seq (show_unless-Mirroring _ _) (λ u. nothing _)) (nothing _)

  on_undecided-Mirroring : (j : Json) (r : Round) → Mirroring (on_undecided w id p j r)
  unfolding on_undecided
  on_undecided-Mirroring (str t) r = on_held-Mirroring _ _ r
  on_undecided-Mirroring Json.null r = Keeps-raise Mirrors mirrors_refl Mirrors-trans _
  on_undecided-Mirroring (bool b) r = Keeps-raise Mirrors mirrors_refl Mirrors-trans _
  on_undecided-Mirroring (Json.num n) r = Keeps-raise Mirrors mirrors_refl Mirrors-trans _
  on_undecided-Mirroring (Json.arr l) r = Keeps-raise Mirrors mirrors_refl Mirrors-trans _
  on_undecided-Mirroring (obj fs) r = Keeps-raise Mirrors mirrors_refl Mirrors-trans _

  on_delta-Mirroring : (d : Delta) (r : Round) → Mirroring (on_delta w id p d r)
  unfolding on_delta on_decided
  on_delta-Mirroring (Delta.usage j) r = seq (set_locals-Mirroring _ (λ l. refl)) (λ u. nothing _)
  on_delta-Mirroring (Delta.model j) r = seq (set_locals-Mirroring _ (λ l. refl)) (λ u. nothing _)
  on_delta-Mirroring (Delta.text j) r =
      Keeps-if Mirrors mirrors_refl Mirrors-trans _
        (Keeps-if Mirrors mirrors_refl Mirrors-trans _ (nothing _)
          (seq (show-Mirroring _) (λ u. nothing _)))
        (on_undecided-Mirroring j r)

  on_deltas-Mirroring : (ds : List Delta) (r : Round) → Mirroring (on_deltas w id p ds r)
  unfolding on_deltas
  on_deltas-Mirroring [] r = nothing r
  on_deltas-Mirroring (d ∷ ds) r = seq (on_delta-Mirroring d r) (on_deltas-Mirroring ds)

  ended-Mirroring : (o : Option Stop) (r : Round) → Mirroring (ended w id p o r)
  unfolding ended
  ended-Mirroring none r = nothing r
  ended-Mirroring (some finished) r = nothing r
  ended-Mirroring (some (raised x)) r = Keeps-raise Mirrors mirrors_refl Mirrors-trans _

  opened-Mirroring : (context : List Sent) → Mirroring (opened w id p context)
  unfolding opened
  opened-Mirroring context = record {
    keeps = λ s.
        let payload = payload_of (p.route).model context in
        (Keeps-of_answer Mirrors mirrors_refl Mirrors-trans (
            Calls.stream w.settings w.dumps (w.servers (length s.requests)) (p.route).provider
              payload)).keeps
          (record s { requests = ((p.route).provider, payload) ∷ s.requests });
  }

  read_round-Mirroring : (context : List Sent) → Mirroring (read_round w id p context)
  unfolding read_round
  read_round-Mirroring context =
      seq (opened-Mirroring context)
        (λ chunks. seq (on_deltas-Mirroring _ _) (λ r. ended-Mirroring _ r))

  decide_now-Mirroring : (t : Text) (r : Round) → Mirroring (decide_now w id p t r)
  unfolding decide_now
  decide_now-Mirroring t r =
      Keeps-if Mirrors mirrors_refl Mirrors-trans _ (nothing _)
        (seq (show_unless-Mirroring _ _) (λ u. nothing _))

  complete-Mirroring : Mirroring (Stream.complete w id p)
  unfolding Stream.complete
  complete-Mirroring = set_locals-Mirroring _ (λ l. refl)

  as_is-Mirroring : (t : Text) → Mirroring (prefix w id p >> show (str t) >> Stream.complete w id p)
  as_is-Mirroring t = seq (seq prefix-Mirroring (λ u. show-Mirroring _)) (λ u. complete-Mirroring)

  pub rounds-Mirroring :
      (left round_no : ℕ) (context : List Sent) → Mirroring (rounds w id p left round_no context)
  unfolding rounds
  rounds-Mirroring zero round_no context = nothing tt
  rounds-Mirroring (suc left) round_no context = seq (read_round-Mirroring context) (λ r.
      seq (py _) (λ full. seq (decide_now-Mirroring full r) (λ tool_round.
        Keeps-if Mirrors mirrors_refl Mirrors-trans _ complete-Mirroring (
          seq (py _) (λ call. elim (Option-cases call) [
            | inl no_call ↦ rw no_call (as_is-Mirroring full)
            | inr ((tool, args), e_call) ↦ rw e_call (
                Keeps-if Mirrors mirrors_refl Mirrors-trans _ (as_is-Mirroring full) (
                  seq (tool_status-Mirroring tool args (suc round_no)) (λ u.
                    seq
                      (Keeps-execute_tool_round Mirrors mirrors_refl Mirrors-trans w
                        (λ s db. mirrors_refl s) (λ s l. mirrors_refl s) id context full tool args
                        p.tools)
                      (λ longer. rounds-Mirroring left (suc round_no) longer))))
          ])))))
