-- ===== src/Audit/Terminal.antt =====
-- Ended runs over later transactions.
use mathlib.Core.Option
use mathlib.Core.Path.{subst}
use agentic_octopus.Prelude.{
  ℕ, ◌≡◌, refl, sym, ap, ◌∙◌, true, false, Option, some, List, [], ◌∷◌, ◌++◌, arith, ◌==◌, nat_eq,
  nat_beq_iff, Text, Bool-cases, inl, inr,
}
use agentic_octopus.Status.{RunStatus, status_eq, status_beq, allowed, is_terminal}
use agentic_octopus.Table.{find}
use agentic_octopus.Db.{Run, EventBody, Event, Db}
use agentic_octopus.Db.EventBody.{status_change, other_event}
use agentic_octopus.Queue.{set_tags}
use agentic_octopus.Audit.{after, legal, Follows, IsTrail, trail_status}
use agentic_octopus.Audit.History.{Extends, Extends-trans, Appends-update_runs}
use agentic_octopus.Audit.Appending.{
  Appends-claim, Appends-heartbeat, Appends-finish, Appends-request, Appends-decide,
  Appends-reap_expired, Appends-tick,
}
use agentic_octopus.Audit.History.{Appends-enqueue, Appends-insert_event}
use agentic_octopus.Queue.{record_event}
use agentic_octopus.Audit.Reach.{
  Step, enqueues, claims, beats, finishes, requests, decides, reaps, records, ticks, tags_set,
  schedules_written, Reach, next, Reach-audited,
}

-- No transition leaves a terminal state.
terminal-allowed : (t to : RunStatus) → is_terminal t ≡ true → allowed t to ≡ false
unfolding is_terminal allowed status_beq
terminal-allowed t to h = ground arith

terminal-trail_status :
    (id : ℕ) (new es : List Event) {t : RunStatus}
    → is_terminal t ≡ true
    → IsTrail (new ++ es)
    → trail_status id es ≡ some t
    → trail_status id (new ++ es) ≡ some t
unfolding trail_status
terminal-trail_status id [] es ended v h = h
terminal-trail_status id (e ∷ new) es {t} ended v h =
    let tail = terminal-trail_status id new es ended v.1 h in
    elim (Bool-cases (e.run_id == id)) [
      | inl mine ↦ rw mine (
          unchanged e.body
            (subst (λ i. Follows e.body i (new ++ es)) ((nat_beq_iff e.run_id id).0 mine) v.0) tail)
      | inr other ↦ rw other tail
    ]
  where
    unchanged :
        (b : EventBody)
        → Follows b id (new ++ es)
        → trail_status id (new ++ es) ≡ some t
        → after b (trail_status id (new ++ es)) ≡ some t
    unchanged (status_change from to p) (was, lawful) tail =
        let from_t : from ≡ some t = sym was ∙ tail in
        absurd (
          ground (arith, subst (λ o. legal o to ≡ true) from_t lawful, terminal-allowed t to ended))
    unchanged (other_event k p) f tail = tail

module _ (get_next : Text → Text → ℕ → Option ℕ) where
  -- Tables that any sequence of committed transactions leads to.
  pub data Later (db : Db) : Db → Type 0 where
    at_once : Later db db
    later : {mid db' : Db} → Later db mid → Step get_next mid db' → Later db db'

  Step-Extends : (db db' : Db) → Step get_next db db' → Extends db.events db'.events
  unfolding set_tags record_event
  Step-Extends db db' (enqueues now id agent trigger params sid max tags h e) =
      Appends-enqueue now id agent trigger params sid max tags db id db' e
  Step-Extends db db' (claims now w lease locked o e) = Appends-claim now w lease locked db o db' e
  Step-Extends db db' (beats now id w lease b e) = Appends-heartbeat now id w lease db b db' e
  Step-Extends db db' (finishes now id status f e) = Appends-finish now id status f db tt db' e
  Step-Extends db db' (requests now new_id id action payload a e) =
      Appends-request now new_id id action payload db a db' e
  Step-Extends db db' (decides now id approved via memo e) =
      Appends-decide now id approved via memo db tt db' e
  Step-Extends db db' (reaps now locked n e) = Appends-reap_expired now locked db n db' e
  Step-Extends db db' (records now id kind payload e) =
      Appends-insert_event now id (other_event kind payload) db tt db' e
  Step-Extends db db' (ticks now wall draw locked n e) =
      Appends-tick get_next now wall draw locked db n db' e
  Step-Extends db db' (tags_set id tags n e) =
      Appends-update_runs (λ i _. i == id) (λ r. record r { tags = tags }) db n db' e
  Step-Extends db db' (schedules_written t w e) = ([], ap (λ (d : Db). d.events) e)

  Later-Reach : {db db' : Db} → Reach get_next db → Later db db' → Reach get_next db'
  Later-Reach r at_once = r
  Later-Reach r (later l s) = next (Later-Reach r l) s

  Later-Extends : {db db' : Db} → Later db db' → Extends db.events db'.events
  Later-Extends at_once = ([], refl)
  Later-Extends (later {mid} {db'} l s) = Extends-trans (Later-Extends l) (Step-Extends mid db' s)

  -- From tables that the program can reach, whatever is committed later: the events that were there
  -- stay, with the new ones in front, and a run that is completed, failed, rejected or cancelled keeps
  -- its row and that state.
  pub Later-terminal :
      {db db' : Db} (id : ℕ) (run : Run)
      → Reach get_next db
      → Later db db'
      → find id db.runs ≡ some run
      → is_terminal run.status ≡ true
      → Extends db.events db'.events
        × (Option.map (λ r. r.status) (find id db'.runs) ≡ some run.status)
  Later-terminal {db} {db'} id run r l here ended =
      let (new, longer) = Later-Extends l in
      let (before, _) = Reach-audited get_next id r in
      let (told, trail) = Reach-audited get_next id (Later-Reach r l) in
      (
        (new, longer),
        sym told
            ∙ ap (trail_status id) longer
            ∙ terminal-trail_status id new db.events ended (subst IsTrail longer trail)
                (before ∙ ap (Option.map (λ (q : Run). q.status)) here),
      )
