-- ===== src/Chat/Turn/Works.antt =====
-- What a step of a turn adds to the requests, the tool calls and the messages.
use agentic_octopus.Prelude.{
  ℕ, ◌+◌, ◌≤◌, ◌≡◌, refl, sym, ap, ◌∙◌, Bool, true, false, if◌then◌else◌, Option, none, some, List,
  [], ◌∷◌, ◌++◌, length, arith, Text, text_eq, All, All-append, contains, length-append, Bool-cases,
  inl, inr, nat_eq, Option-cases,
}
use agentic_octopus.Prelude.Json.{Json, Fields, obj}
use agentic_octopus.Prelude.Python.{Py, value, throws}
use agentic_octopus.Table.{Table, append, find}
use agentic_octopus.Table.Laws.{AllRows}
use agentic_octopus.Tools.{run_tool}
use agentic_octopus.Providers.Base.{Provider}
use agentic_octopus.Providers.Calls.{Payload, Answered, answered, failed}
use agentic_octopus.Chat.{Role, Sent}
use agentic_octopus.Chat.Store.{Message, Columns, append_message, new_message}
use agentic_octopus.Chat.Turn.{
  Failure, Session, Result, Do, done, fail, ◌>>=◌, pure, raise, of_py, of_answer, World, append_to,
  tool_result, int_column, of_cast, execute_tool_round, bind,
}

append_assoc : {A : Type 0} (xs ys zs : List A) → xs ++ (ys ++ zs) ≡ (xs ++ ys) ++ zs
append_assoc [] ys zs = refl
append_assoc (x ∷ xs) ys zs = ap (◌∷◌ x) (append_assoc xs ys zs)

append_nil : {A : Type 0} (xs : List A) → xs ++ [] ≡ xs
append_nil [] = refl
append_nil (x ∷ xs) = ap (◌∷◌ x) (append_nil xs)

AllRows-append_rows :
    (P : Message → Type 0) (t u : Table Message) → AllRows P t → AllRows P u → AllRows P (t ++ u)
AllRows-append_rows P [] u h k = k
AllRows-append_rows P ((j, r) ∷ t) u h k = (h.0, AllRows-append_rows P t u h.1 k)

-- `Ok` of the requests, `allowed` tools and `Row` of the messages: the step adds at most `k` requests
-- and at most `l` tool calls.
module _ (Ok : Provider × Payload → Type 0) (allowed : List Text) (Row : Message → Type 0) where
  pub record Works (k l : ℕ) (s s' : Session) : Type 0 where
    pub asked : List (Provider × Payload)
    pub ran : List (Text × Fields)
    pub rows : Table Message
    pub requests_eq : s'.requests ≡ asked ++ s.requests
    pub calls_eq : s'.calls ≡ ran ++ s.calls
    pub messages_eq : (s'.db).messages ≡ (s.db).messages ++ rows
    pub asked_le : length asked ≤ k
    pub ran_le : length ran ≤ l
    pub asked_ok : All Ok asked
    pub ran_ok : All (λ c. contains c.0 allowed ≡ true) ran
    pub rows_ok : AllRows Row rows

  pub Works-same :
      (k l : ℕ) (s s' : Session)
      → s'.requests ≡ s.requests
      → s'.calls ≡ s.calls
      → (s'.db).messages ≡ (s.db).messages
      → Works k l s s'
  Works-same k l s s' same_requests same_calls same_messages = record {
    asked = [];
    ran = [];
    rows = [];
    requests_eq = same_requests;
    calls_eq = same_calls;
    messages_eq = same_messages ∙ sym (append_nil (s.db).messages);
    asked_le = omega arith;
    ran_le = omega arith;
    asked_ok = tt;
    ran_ok = tt;
    rows_ok = tt;
  }

  pub Works-asked :
      (r : Provider × Payload) (s : Session)
      → Ok r
      → Works 1 0 s (record s { requests = r ∷ s.requests })
  Works-asked r s ok = record {
    asked = r ∷ [];
    ran = [];
    rows = [];
    requests_eq = refl;
    calls_eq = refl;
    messages_eq = sym (append_nil (s.db).messages);
    asked_le = omega arith;
    ran_le = omega arith;
    asked_ok = (ok, tt);
    ran_ok = tt;
    rows_ok = tt;
  }

  pub Works-trans :
      {k l k' l' : ℕ} {s t u : Session}
      → Works k l s t
      → Works k' l' t u
      → Works (k + k') (l + l') s u
  Works-trans {s} a b = record {
    asked = b.asked ++ a.asked;
    ran = b.ran ++ a.ran;
    rows = a.rows ++ b.rows;
    requests_eq =
        b.requests_eq
        ∙ ap (λ x. b.asked ++ x) a.requests_eq
        ∙ append_assoc b.asked a.asked s.requests;
    calls_eq = b.calls_eq ∙ ap (λ x. b.ran ++ x) a.calls_eq ∙ append_assoc b.ran a.ran s.calls;
    messages_eq =
        b.messages_eq
        ∙ ap (λ x. x ++ b.rows) a.messages_eq
        ∙ sym (append_assoc (s.db).messages a.rows b.rows);
    asked_le = omega (arith, a.asked_le, b.asked_le, length-append b.asked a.asked);
    ran_le = omega (arith, a.ran_le, b.ran_le, length-append b.ran a.ran);
    asked_ok = All-append Ok b.asked a.asked b.asked_ok a.asked_ok;
    ran_ok = All-append (λ c. contains c.0 allowed ≡ true) b.ran a.ran b.ran_ok a.ran_ok;
    rows_ok = AllRows-append_rows Row a.rows b.rows a.rows_ok b.rows_ok;
  }

  pub Works-weaken :
      {k l k' l' : ℕ} {s t : Session} → k ≤ k' → l ≤ l' → Works k l s t → Works k' l' s t
  Works-weaken p q a = record {
    asked = a.asked;
    ran = a.ran;
    rows = a.rows;
    requests_eq = a.requests_eq;
    calls_eq = a.calls_eq;
    messages_eq = a.messages_eq;
    asked_le = omega (arith, a.asked_le);
    ran_le = omega (arith, a.ran_le);
    asked_ok = a.asked_ok;
    ran_ok = a.ran_ok;
    rows_ok = a.rows_ok;
  }

  -- A computation from any state.
  pub record Bounded (k l : ℕ) {A : Type 0} (m : Do A) : Type 0 where
    pub works : (s : Session) → Works k l s (m s).1

  pub Bounded-bind :
      {A B : Type 0} (k l k' l' : ℕ) {m : Do A} {f : A → Do B}
      → Bounded k l m
      → ((a : A) → Bounded k' l' (f a))
      → Bounded (k + k') (l + l') (m >>= f)
  unfolding ◌>>=◌
  Bounded-bind k l k' l' {m} {f} hm hf = record { works = λ s. behind s (m s) (hm.works s) }
    where
      behind :
          (s : Session) (r : Result _ × Session)
          → Works k l s r.1
          → Works (k + k') (l + l') s (bind r f).1
      behind s (done a, t) h = Works-trans h ((hf a).works t)
      behind s (fail e, t) h = Works-weaken (omega arith) (omega arith) h

  pub Bounded-weaken :
      {A : Type 0} {k l k' l' : ℕ} {m : Do A} → k ≤ k' → l ≤ l' → Bounded k l m → Bounded k' l' m
  Bounded-weaken p q h = record { works = λ s. Works-weaken p q (h.works s) }

  -- A bind under any bounds that leave room for both, and one behind a step that adds nothing.
  pub Bounded-within :
      {A B : Type 0} {k l k' l' K L : ℕ} {m : Do A} {f : A → Do B}
      → k + k' ≤ K
      → l + l' ≤ L
      → Bounded k l m
      → ((a : A) → Bounded k' l' (f a))
      → Bounded K L (m >>= f)
  Bounded-within {k} {l} {k'} {l'} p q hm hf = Bounded-weaken p q (Bounded-bind k l k' l' hm hf)

  pub Bounded-behind :
      {A B : Type 0} {k l : ℕ} {m : Do A} {f : A → Do B}
      → Bounded 0 0 m
      → ((a : A) → Bounded k l (f a))
      → Bounded k l (m >>= f)
  Bounded-behind = Bounded-within (omega arith) (omega arith)

  pub Bounded-if :
      {A : Type 0} {k l : ℕ} {m n : Do A} (b : Bool)
      → Bounded k l m
      → Bounded k l n
      → Bounded k l (if b then m else n)
  Bounded-if true hm hn = hm
  Bounded-if false hm hn = hn

  pub Bounded-pure : {A : Type 0} (k l : ℕ) (a : A) → Bounded k l (pure a)
  Bounded-pure k l a = record { works = λ s. Works-same k l s s refl refl refl }

  pub Bounded-raise : {A : Type 0} (k l : ℕ) (e : Failure) → Bounded k l {A = A} (raise e)
  Bounded-raise k l e = record { works = λ s. Works-same k l s s refl refl refl }

  pub Bounded-of_py : {A : Type 0} (r : Py A) → Bounded 0 0 (of_py r)
  unfolding of_py
  Bounded-of_py (value a) = record { works = λ s. Works-same 0 0 s s refl refl refl }
  Bounded-of_py (throws x) = record { works = λ s. Works-same 0 0 s s refl refl refl }

  pub Bounded-of_answer : {A : Type 0} (r : Answered A) → Bounded 0 0 (of_answer r)
  unfolding of_answer
  Bounded-of_answer (answered a) = record { works = λ s. Works-same 0 0 s s refl refl refl }
  Bounded-of_answer (failed x) = record { works = λ s. Works-same 0 0 s s refl refl refl }

  Bounded-of_cast : (o : Option ℕ) → Bounded 0 0 (of_cast o)
  unfolding of_cast
  Bounded-of_cast none = Bounded-raise 0 0 _
  Bounded-of_cast (some n) = Bounded-pure 0 0 (some n)

  pub Bounded-int_column :
      (cast : Text → Option ℕ) (j : Option Json) → Bounded 0 0 (int_column cast j)
  unfolding int_column
  Bounded-int_column cast none = Bounded-pure 0 0 none
  Bounded-int_column cast (some Json.null) = Bounded-pure 0 0 none
  Bounded-int_column cast (some (Json.num n)) = Bounded-pure 0 0 (some n)
  Bounded-int_column cast (some (Json.bool b)) = Bounded-raise 0 0 _
  Bounded-int_column cast (some (Json.str t)) = Bounded-of_cast (cast t)
  Bounded-int_column cast (some (Json.arr l)) = Bounded-raise 0 0 _
  Bounded-int_column cast (some (obj fs)) = Bounded-raise 0 0 _

  module _ (w : World) (id : ℕ) where
    append_to-Works :
        (role : Role) (content : Text) (cols : Columns) (s : Session)
        → ((now : ℕ) → Row (new_message now id role content cols))
        → Works 0 0 s (append_to w id role content cols s).1
    unfolding append_to append_message append
    append_to-Works role content cols s row = elim (Option-cases (find id (s.db).conversations)) [
      | inl absent ↦ rw absent (Works-same 0 0 s s refl refl refl)
      | inr (c, there) ↦ rw there (record {
        asked = [];
        ran = [];
        rows = ((s.db).next_id, new_message (w.clock (s.db).next_id) id role content cols) ∷ [];
        requests_eq = refl;
        calls_eq = refl;
        messages_eq = refl;
        asked_le = omega arith;
        ran_le = omega arith;
        asked_ok = tt;
        ran_ok = tt;
        rows_ok = (row (w.clock (s.db).next_id), tt);
      })
    ]

    pub Bounded-append_to :
        (role : Role) (content : Text) (cols : Columns)
        → ((now : ℕ) → Row (new_message now id role content cols))
        → Bounded 0 0 (append_to w id role content cols)
    Bounded-append_to role content cols row = record {
      works = λ s. append_to-Works role content cols s row;
    }

    tool_result-Works :
        (tool : Text) (args : Fields) (s : Session)
        → Works 0 1 s (tool_result w tool args allowed s).1
    unfolding tool_result
    tool_result-Works tool args s = elim (Bool-cases (contains tool allowed)) [
      | inl enabled ↦
          let s' : Session = record s { calls = (tool, args) ∷ s.calls } in
          let called : Works 0 1 s s' = record {
            asked = [];
            ran = (tool, args) ∷ [];
            rows = [];
            requests_eq = refl;
            calls_eq = refl;
            messages_eq = sym (append_nil (s.db).messages);
            asked_le = omega arith;
            ran_le = omega arith;
            asked_ok = tt;
            ran_ok = (enabled, tt);
            rows_ok = tt;
          } in
          rw enabled (
            Works-trans called (
              (Bounded-of_py
                  (run_tool w.show w.py_str w.int_text (w.web (length s.calls)) tool args)).works
                s'))
      | inr disabled ↦ rw disabled (Works-same 0 1 s s refl refl refl)
    ]

    pub Bounded-execute_tool_round :
        (context : List Sent) (text tool : Text) (args : Fields)
        → ((now : ℕ) (content : Text) (cols : Columns)
            → Row (new_message now id Role.tool content cols))
        → Bounded 0 1 (execute_tool_round w id context text tool args allowed)
    unfolding execute_tool_round
    Bounded-execute_tool_round context text tool args row =
        Bounded-bind 0 1 0 0 (record { works = tool_result-Works tool args })
          (λ result. Bounded-bind 0 0 0 0 (Bounded-of_py _) (λ kept.
            Bounded-bind 0 0 0 0 (Bounded-append_to Role.tool _ _ (λ now. row now _ _))
              (λ n. Bounded-pure 0 0 _)))
