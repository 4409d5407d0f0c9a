-- ===== src/Status.antt =====
-- src/octo/models.py: the run states, the legal transitions and their check.
use agentic_octopus.Prelude.{
  ◌≡◌, ◌↔◌, Bool, true, false, ◌&&◌, ◌||◌, List, [], ◌∷◌, arith, Eq, Text, lit,
}

-- `RunStatus`; the string of each member is the word of the constructor.
pub data RunStatus : Type 0 where
  queued running awaiting_approval completed failed rejected cancelled : RunStatus

unfoldable pub status_beq : RunStatus → RunStatus → Bool
status_beq queued queued = true
status_beq running running = true
status_beq awaiting_approval awaiting_approval = true
status_beq completed completed = true
status_beq failed failed = true
status_beq rejected rejected = true
status_beq cancelled cancelled = true
status_beq _ _ = false

pub status_beq_iff : (s t : RunStatus) → (status_beq s t ≡ true) ↔ (s ≡ t)
unfolding status_beq
status_beq_iff s t = ground arith

instance abbrev pub status_eq : Eq RunStatus
status_eq = record { beq = status_beq; beq_iff = status_beq_iff }

-- `.value`
unfoldable pub value : RunStatus → Text
value queued = lit "queued"
value running = lit "running"
value awaiting_approval = lit "awaiting_approval"
value completed = lit "completed"
value failed = lit "failed"
value rejected = lit "rejected"
value cancelled = lit "cancelled"

-- `TERMINAL`
abbrev pub terminal : List RunStatus
terminal = completed ∷ failed ∷ rejected ∷ cancelled ∷ []

-- `ALLOWED_TRANSITIONS`
abbrev pub allowed_transitions : List (RunStatus × RunStatus)
allowed_transitions =
    (queued, running)
    ∷ (running, completed)
    ∷ (running, failed)
    ∷ (running, awaiting_approval)
    ∷ (running, queued)
    ∷ (awaiting_approval, queued)
    ∷ (awaiting_approval, rejected)
    ∷ (queued, cancelled)
    ∷ (awaiting_approval, cancelled)
    ∷ []

-- `pair in set`
has_pair : RunStatus → RunStatus → List (RunStatus × RunStatus) → Bool
has_pair s t [] = false
has_pair s t ((a, b) ∷ l) = (status_beq s a && status_beq t b) || has_pair s t l

-- The test of `assert_transition`.
unfoldable pub allowed : RunStatus → RunStatus → Bool
unfolding has_pair status_beq
allowed from to = has_pair from to allowed_transitions

unfoldable pub is_terminal : RunStatus → Bool
unfolding status_beq
is_terminal s = member s terminal
  where
    member : RunStatus → List RunStatus → Bool
    member s [] = false
    member s (t ∷ l) = status_beq s t || member s l
