-- ===== src/Audit/History.antt =====
-- Transactions and the list of the events: the statements and their composition.
use agentic_octopus.Prelude.{
  ℕ, ◌≡◌, refl, ap, ◌∙◌, Bool, true, false, Option, none, some, List, [], ◌∷◌, ◌++◌, arith, Text,
  ◌==◌, nat_eq, if◌then◌else◌,
}
use agentic_octopus.Prelude.Dict.{Dict}
use agentic_octopus.Prelude.Json.{Json}
use agentic_octopus.Status.{RunStatus, queued}
use agentic_octopus.Db.{
  Run, EventBody, Event, Approval, Db, Tx, Error, illegal_pair, not_in_status, ok, pure, raise,
  gets, ◌>>=◌, >>=-eq-ok, insert_run, insert_run-eq-ok, insert_event, insert_event-eq-ok,
  insert_approval, insert_approval-eq-ok, update_runs, update_approvals, find_run,
}
use agentic_octopus.Status.{allowed}
use agentic_octopus.Transition.{transition, in_status, assert_transition, expect_one}
use agentic_octopus.Queue.{new_run, enqueue, trigger_payload}
use agentic_octopus.Db.{Trigger}
use agentic_octopus.Db.EventBody.{status_change}

-- The newer events stand before the older ones.
abbrev pub Extends : List Event → List Event → Type 0
Extends es es' = (new : List Event) × (es' ≡ new ++ es)

append_assoc : (xs ys zs : List Event) → xs ++ (ys ++ zs) ≡ (xs ++ ys) ++ zs
append_assoc [] ys zs = refl
append_assoc (x ∷ xs) ys zs = ap (◌∷◌ x) (append_assoc xs ys zs)

pub Extends-trans : {a b c : List Event} → Extends a b → Extends b c → Extends a c
Extends-trans {a} (xs, p) (ys, q) = (ys ++ xs, q ∙ ap (λ l. ys ++ l) p ∙ append_assoc ys xs a)

-- A transaction that returns has only appended events.
abbrev pub Appends : {A : Type 0} → Tx A → Type 0
Appends {A} m = (db : Db) (a : A) (db' : Db) → m db ≡ ok (a, db') → Extends db.events db'.events

module _ {A : Type 0} where
  pub Appends-pure : (a : A) → Appends (pure a)
  Appends-pure a db b db' e = ([], ground arith)

  pub Appends-raise : (x : Error) → Appends {A = A} (raise x)
  Appends-raise x db b db' e = absurd (cc)

  pub Appends-gets : (f : Db → A) → Appends (gets f)
  Appends-gets f db b db' e = ([], ground arith)

pub Appends->>= :
    {A B : Type 0} (m : Tx A) (f : A → Tx B)
    → Appends m
    → ((a : A) → Appends (f a))
    → Appends (m >>= f)
Appends->>= m f hm hf db b db' e =
    let (a, mid, first, rest) = >>=-eq-ok m f db e in
    Extends-trans (hm db a mid first) (hf a mid b db' rest)

pub Appends-insert_run : (id : ℕ) (run : Run) → Appends (insert_run id run)
Appends-insert_run id run db a db' e =
    ([], ap (λ (d : Db). d.events) (insert_run-eq-ok id run db e).1)

pub Appends-insert_event : (now id : ℕ) (body : EventBody) → Appends (insert_event now id body)
Appends-insert_event now id body db a db' e = (
  record { run_id = id; ts = now; body = body } ∷ [],
  ap (λ (d : Db). d.events) (insert_event-eq-ok now id body db e),
)

pub Appends-insert_approval : (id : ℕ) (a : Approval) → Appends (insert_approval id a)
Appends-insert_approval id a db u db' e =
    ([], ap (λ (d : Db). d.events) (insert_approval-eq-ok id a db e))

pub Appends-update_runs : (p : ℕ → Run → Bool) (f : Run → Run) → Appends (update_runs p f)
unfolding update_runs
Appends-update_runs p f db n db' e = ([], ground arith)

pub Appends-update_approvals :
    (p : ℕ → Approval → Bool) (f : Approval → Approval) → Appends (update_approvals p f)
unfolding update_approvals
Appends-update_approvals p f db n db' e = ([], ground arith)

pub Appends-find_run : (id : ℕ) → Appends (find_run id)
unfolding find_run
Appends-find_run id db n db' e = ([], ground arith)

pub Appends-if :
    {A : Type 0} (b : Bool) (m n : Tx A) → Appends m → Appends n → Appends (if b then m else n)
Appends-if true m n hm hn = hm
Appends-if false m n hm hn = hn

pub Appends-transition :
    (now id : ℕ) (from to : RunStatus) (f : Run → Run) (payload : Dict Text Json)
    → Appends (transition now id from to f payload)
unfolding transition assert_transition expect_one
Appends-transition now id from to f payload =
    Appends->>= (assert_transition from to)
      (λ _. update_runs (in_status id from) (λ r. record (f r) { status = to }) >>= λ n.
        expect_one id from n >>= λ _. insert_event now id (status_change (some from) to payload))
      (Appends-if (allowed from to) (pure tt) (raise (illegal_pair from to)) (Appends-pure tt)
        (Appends-raise (illegal_pair from to)))
      (λ _.
        Appends->>= (update_runs (in_status id from) (λ r. record (f r) { status = to }))
          (λ n. expect_one id from n >>= λ _.
            insert_event now id (status_change (some from) to payload))
          (Appends-update_runs (in_status id from) (λ r. record (f r) { status = to }))
          (λ n.
            Appends->>= (expect_one id from n)
              (λ _. insert_event now id (status_change (some from) to payload))
              (Appends-if (n == 1) (pure tt) (raise (not_in_status id from)) (Appends-pure tt)
                (Appends-raise (not_in_status id from)))
              (λ _. Appends-insert_event now id (status_change (some from) to payload))))

pub Appends-enqueue :
    (now id : ℕ) (agent : Text) (trigger : Trigger) (params : Json) (sid : Option ℕ) (max : ℕ)
    (tags : Dict Text Json)
    → Appends (enqueue now id agent trigger params sid max tags)
unfolding enqueue
Appends-enqueue now id agent trigger params sid max tags =
    let run = new_run now agent trigger params sid max tags in
    let body = status_change none queued (trigger_payload trigger) in
    Appends->>= (insert_run id run) (λ _. insert_event now id body >>= λ _. pure id)
      (Appends-insert_run id run)
      (λ _.
        Appends->>= (insert_event now id body) (λ _. pure id) (Appends-insert_event now id body)
          (λ _. Appends-pure id))
