-- ===== src/Audit/Written.antt =====
-- What a client of the API may do to the rows of schedules: the INSERTs of a new agent and
-- expression, the UPDATEs of `enabled`, and any sequence of them.
use agentic_octopus.Prelude.{ℕ, ◌≡◌, true, not, ◌&&◌, none, ◌==◌, nat_eq, Text, text_eq}
use agentic_octopus.Table.{Table, find, append, update_where, count_where}
use agentic_octopus.Db.{Schedule}

pub data Written : Table Schedule → Table Schedule → Type 0 where
  kept : {t : Table Schedule} → Written t t
  added :
      {t : Table Schedule} (id : ℕ) (s : Schedule)
      → find id t ≡ none
      → count_where (λ i r. r.agent == s.agent && r.cron_expr == s.cron_expr) t ≡ 0
      → s.enabled ≡ true
      → s.last_run_at ≡ none
      → s.last_run_id ≡ none
      → Written t (append id s t)
  enabled_again :
      {t : Table Schedule} (agent cron_expr : Text)
      → Written t (
          update_where
            (λ i r. r.agent == agent && r.cron_expr == cron_expr)
            (λ r. record r { enabled = true })
            t)
  toggled :
      {t : Table Schedule} (id : ℕ)
      → Written t (update_where (λ i r. i == id) (λ r. record r { enabled = not r.enabled }) t)
  behind : {t u v : Table Schedule} → Written t u → Written u v → Written t v
