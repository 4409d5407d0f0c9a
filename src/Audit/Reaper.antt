-- ===== src/Audit/Reaper.antt =====
-- The invariant under src/octo/queue.py, reap_expired.
use mathlib.Core.Path.{subst}
use agentic_octopus.Prelude.{
  ℕ, ◌≡◌, refl, Bool, true, some, List, [], ◌∷◌, arith, nat_eq, nat_beq_iff, Text, contains,
  if◌then◌else◌, Option-cases, inl, inr, sym,
}
use agentic_octopus.Prelude.Dict.{Dict}
use agentic_octopus.Prelude.Json.{Json}
use agentic_octopus.Status.{
  RunStatus, status_eq, status_beq, status_beq_iff, allowed, queued, running, failed,
}
use agentic_octopus.Table.{find, ids_where}
use agentic_octopus.Table.Laws.{
  find-update_where, IsKeyed-update_where, AllRows-update_where, IsDistinct, IsDistinct-ids_where,
  contains-ids_where, meets,
}
use agentic_octopus.Db.{Run, Event, EventBody, Db, ok}
use agentic_octopus.Db.EventBody.{status_change}
use agentic_octopus.Queue.{
  requeueable, exhausted, mark_requeued, mark_dead, lease_expired, reap_expired,
}
use agentic_octopus.Queue.Reap.{push_each, batch, requeue_batch, reap_expired-eq-ok}
use agentic_octopus.Audit.{trail_status, IsRow, IsSound, IsTrail}

module _ (now : ℕ) (from to : RunStatus) (payload : Dict Text Json) where
  abbrev change : EventBody
  change = status_change (some from) to payload

  trail_status-push_each :
      (j : ℕ) (ids : List ℕ) (es : List Event)
      → trail_status j (push_each now change ids es)
        ≡ (if contains j ids then some to else trail_status j es)
  unfolding push_each trail_status contains
  trail_status-push_each j [] es = refl
  trail_status-push_each j (i ∷ ids) es = ground (
    arith,
    nat_beq_iff i j,
    nat_beq_iff j i,
    trail_status-push_each j ids (record { run_id = i; ts = now; body = change } ∷ es),
  )

  IsTrail-push_each :
      (ids : List ℕ) (es : List Event)
      → IsDistinct ids
      → ((j : ℕ) → contains j ids ≡ true → trail_status j es ≡ some from)
      → allowed from to ≡ true
      → IsTrail es
      → IsTrail (push_each now change ids es)
  unfolding push_each trail_status contains
  IsTrail-push_each [] es d at legal h = h
  IsTrail-push_each (i ∷ ids) es d at legal h =
      IsTrail-push_each ids (record { run_id = i; ts = now; body = change } ∷ es) d.1
        (λ j m. ground (arith, at j, nat_beq_iff i j)) legal
        ((at i (ground (arith, nat_beq_iff i i)), legal), h)

  module _ (p : ℕ → Run → Bool) (f : Run → Run) where
    pub batch-IsSound :
        (db : Db)
        → ((i : ℕ) (r : Run) → p i r ≡ true → r.status ≡ from)
        → ((r : Run) → (f r).status ≡ to)
        → ((i : ℕ) (r : Run) → p i r ≡ true → IsRow r → IsRow (f r))
        → allowed from to ≡ true
        → IsSound db
        → IsSound (batch now p f from to payload db)
    unfolding batch meets
    batch-IsSound db was sets keep legal s = record {
      keyed = IsKeyed-update_where p f db.runs s.keyed;
      rows = AllRows-update_where IsRow p f db.runs keep s.rows;
      audited = λ j. elim (Option-cases (find j db.runs)) [
        | inl absent ↦ ground (
          arith,
          s.audited j,
          trail_status-push_each j (ids_where p db.runs) db.events,
          contains-ids_where p j db.runs s.keyed,
          find-update_where p f j db.runs,
        )
        | inr (r, here) ↦ ground (
          arith,
          s.audited j,
          trail_status-push_each j (ids_where p db.runs) db.events,
          contains-ids_where p j db.runs s.keyed,
          find-update_where p f j db.runs,
          sets r,
        )
      ];
      legal_trail =
          IsTrail-push_each (ids_where p db.runs) db.events (IsDistinct-ids_where p db.runs s.keyed)
            (λ j m. elim (Option-cases (find j db.runs)) [
              | inl absent ↦ absurd (ground (arith, contains-ids_where p j db.runs s.keyed))
              | inr (r, here) ↦
                  ground (arith, s.audited j, contains-ids_where p j db.runs s.keyed, was j r)
            ])
            legal s.legal_trail;
    }

pub reap-IsSound :
    (now : ℕ) (locked : ℕ → Bool) (db db' : Db) (n : ℕ)
    → IsSound db
    → reap_expired now locked db ≡ ok (n, db')
    → IsSound db'
unfolding allowed
reap-IsSound now locked db db' n s e =
    subst IsSound (sym (reap_expired-eq-ok now locked db {n = n} e)) (
      batch-IsSound now running failed lease_expired (exhausted now locked) (mark_dead now)
        (requeue_batch now locked db) (λ i r m. ground (arith, status_beq_iff r.status running))
        (λ r. refl) (λ i r m row. unfold status_beq in ground arith) refl
        (batch-IsSound now running queued lease_expired (requeueable now locked) mark_requeued db
          (λ i r m. ground (arith, status_beq_iff r.status running)) (λ r. refl)
          (λ i r m row. unfold status_beq in ground arith) refl s))
