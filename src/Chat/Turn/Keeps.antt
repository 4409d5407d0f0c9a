-- ===== src/Chat/Turn/Keeps.antt =====
-- A relation between the sessions before and after a step, kept by the steps of a turn.
use agentic_octopus.Prelude.{
  ℕ, Bool, true, false, Option, none, some, List, ◌∷◌, Text, text_eq, contains, if◌then◌else◌,
  length,
}
use agentic_octopus.Prelude.Json.{Fields}
use agentic_octopus.Prelude.Python.{Py, value, throws}
use agentic_octopus.Providers.Calls.{Answered, answered, failed}
use agentic_octopus.Tools.{run_tool}
use agentic_octopus.Chat.{Role, Sent}
use agentic_octopus.Chat.Store.{ChatDb, Columns, append_message}
use agentic_octopus.Chat.Turn.{
  Failure, Session, Result, Do, done, fail, bind, ◌>>=◌, pure, raise, of_py, of_answer, stored,
  World, append_to, not_enabled, tool_result, execute_tool_round,
}

module _ (R : Session → Session → Type 0) (same : (s : Session) → R s s)
    (then_ : (s t u : Session) → R s t → R t u → R s u) where
  pub record Keeps {A : Type 0} (m : Do A) : Type 0 where
    pub keeps : (s : Session) → R s (m s).1

  pub Keeps-bind :
      {A B : Type 0} {m : Do A} {f : A → Do B} → Keeps m → ((a : A) → Keeps (f a)) → Keeps (m >>= f)
  unfolding ◌>>=◌
  Keeps-bind {m} {f} hm hf = record { keeps = λ s. behind s (m s) (hm.keeps s) }
    where
      behind : (s : Session) (r : Result _ × Session) → R s r.1 → R s (bind r f).1
      behind s (done a, t) h = then_ s t _ h ((hf a).keeps t)
      behind s (fail e, t) h = h

  pub Keeps-if :
      {A : Type 0} {m n : Do A} (b : Bool) → Keeps m → Keeps n → Keeps (if b then m else n)
  Keeps-if true hm hn = hm
  Keeps-if false hm hn = hn

  pub Keeps-pure : {A : Type 0} (a : A) → Keeps (pure a)
  Keeps-pure a = record { keeps = same }

  pub Keeps-raise : {A : Type 0} (e : Failure) → Keeps {A = A} (raise e)
  Keeps-raise e = record { keeps = same }

  pub Keeps-of_py : {A : Type 0} (r : Py A) → Keeps (of_py r)
  unfolding of_py
  Keeps-of_py (value a) = record { keeps = same }
  Keeps-of_py (throws x) = record { keeps = same }

  pub Keeps-of_answer : {A : Type 0} (r : Answered A) → Keeps (of_answer r)
  unfolding of_answer
  Keeps-of_answer (answered a) = record { keeps = same }
  Keeps-of_answer (failed x) = record { keeps = same }

  module _ (w : World) (writes : (s : Session) (db : ChatDb) → R s (record s { db = db }))
      (calls : (s : Session) (l : List (Text × Fields)) → R s (record s { calls = l })) where
    pub Keeps-append_to :
        (id : ℕ) (role : Role) (t : Text) (cols : Columns) → Keeps (append_to w id role t cols)
    unfolding append_to stored
    Keeps-append_to id role t cols = record {
      keeps = λ s. written s (append_message (w.clock (s.db).next_id) id role t cols s.db);
    }
      where
        written : (s : Session) (o : Option (ℕ × ChatDb)) → R s (stored o s).1
        written s none = same s
        written s (some (n, db)) = writes s db

    Keeps-tool_result :
        (tool : Text) (args : Fields) (allowed : List Text)
        → Keeps (tool_result w tool args allowed)
    unfolding tool_result
    Keeps-tool_result tool args allowed = record { keeps = λ s. ran s (contains tool allowed) }
      where
        ran :
            (s : Session) (b : Bool)
            → R s
                ((if b
                  then of_py
                      (run_tool w.show w.py_str w.int_text (w.web (length s.calls)) tool args)
                      (record s { calls = (tool, args) ∷ s.calls })
                  else (done (not_enabled tool), s))).1
        ran s true = then_ s _ _ (calls s ((tool, args) ∷ s.calls)) ((Keeps-of_py _).keeps _)
        ran s false = same s

    pub Keeps-execute_tool_round :
        (id : ℕ) (context : List Sent) (text tool : Text) (args : Fields) (allowed : List Text)
        → Keeps (execute_tool_round w id context text tool args allowed)
    unfolding execute_tool_round
    Keeps-execute_tool_round id context text tool args allowed =
        Keeps-bind (Keeps-tool_result tool args allowed) (λ result.
          Keeps-bind (Keeps-of_py _)
            (λ kept. Keeps-bind (Keeps-append_to id Role.tool _ _) (λ n. Keeps-pure _)))
