-- ===== src/Chat/Sse/Boundaries.antt =====
-- src/octo/chat.py, _iter_sse_deltas: where the stream is cut into chunks.
use agentic_octopus.Prelude.{
  ℕ, zero, suc, ◌≤◌, ◌≡◌, refl, sym, ap, ◌∙◌, none, some, List, [], ◌∷◌, ◌++◌, arith, nat_eq, Text,
  split, length, Option-cases, inl, inr,
}
use agentic_octopus.Prelude.Json.{Json}
use agentic_octopus.Prelude.Python.{Py}
use agentic_octopus.Chat.Sse.{
  Streamed, followed_by, split_event, push_event, frames_loop, frames, lines_deltas, events_deltas,
  chunks_deltas, iter_sse_deltas,
}

append_assoc : {A : Type 0} (xs ys zs : List A) → xs ++ (ys ++ zs) ≡ (xs ++ ys) ++ zs
append_assoc [] ys zs = refl
append_assoc (x ∷ xs) ys zs = ap (◌∷◌ x) (append_assoc xs ys zs)

append_nil : {A : Type 0} (xs : List A) → xs ++ [] ≡ xs
append_nil [] = refl
append_nil (x ∷ xs) = ap (◌∷◌ x) (append_nil xs)

followed_by_assoc :
    (a b c : Streamed) → followed_by (followed_by a b) c ≡ followed_by a (followed_by b c)
unfolding followed_by
followed_by_assoc (ds, some s) b c = refl
followed_by_assoc (ds, none) (es, some s) c = refl
followed_by_assoc (ds, none) (es, none) (fs, s) = ap (λ l. (l, s)) (sym (append_assoc ds es fs))

followed_by-empty : (a : Streamed) → followed_by a ([], none) ≡ a
unfolding followed_by
followed_by-empty (ds, some s) = refl
followed_by-empty (ds, none) = ap (λ l. (l, none)) (append_nil ds)

-- A separator that stands in the buffer is the first one still when more bytes arrive.
split_event-append :
    (s more event rest : Text)
    → split_event s ≡ some (event, rest)
    → (split_event (s ++ more) ≡ some (event, rest ++ more)) × (suc (length rest) ≤ length s)
unfolding split_event
split_event-append [] more event rest h = absurd (cc)
split_event-append (c ∷ []) more event rest h = absurd (cc)
split_event-append (c ∷ d ∷ s) more event rest h = elim (Option-cases (split_event (d ∷ s))) [
  | inl alone ↦ ground arith
  | inr ((e, r), found) ↦ ground (arith, split_event-append (d ∷ s) more e r found)
]

frames_loop-nil : (fuel : ℕ) → frames_loop fuel [] ≡ ([], [])
unfolding frames_loop split_event
frames_loop-nil zero = refl
frames_loop-nil (suc fuel) = refl

-- Any two amounts of fuel from the length of the buffer on give the same frames.
frames_loop-enough :
    (f g : ℕ) (s : Text) → length s ≤ f → length s ≤ g → frames_loop f s ≡ frames_loop g s
unfolding frames_loop
frames_loop-enough zero g [] p q = sym (frames_loop-nil g)
frames_loop-enough zero g (c ∷ s) p q = absurd (omega arith)
frames_loop-enough (suc f) zero [] p q = frames_loop-nil (suc f)
frames_loop-enough (suc f) zero (c ∷ s) p q = absurd (omega arith)
frames_loop-enough (suc f) (suc g) s p q = elim (Option-cases (split_event s)) [
  | inl alone ↦ rw (alone, frames_loop) refl
  | inr ((e, r), found) ↦
      rw (found, frames_loop)
        (ap (push_event e) (
          frames_loop-enough f g r (omega (arith, (split_event-append s [] e r found).1))
            (omega (arith, (split_event-append s [] e r found).1))))
]

-- The first event of a buffer, and the frames of the rest.
pub frames-some :
    (s event rest : Text)
    → split_event s ≡ some (event, rest)
    → frames s ≡ push_event event (frames rest)
unfolding frames frames_loop
frames-some s event rest found =
    frames_loop-enough (length s) (suc (length s)) s (omega arith) (omega arith)
    ∙ rw (found, frames_loop)
        (ap (push_event event) (
          frames_loop-enough (length s) (length rest) rest
            (omega (arith, (split_event-append s [] event rest found).1)) (omega arith)))

pub frames-none : (s : Text) → split_event s ≡ none → frames s ≡ ([], s)
unfolding frames frames_loop
frames-none s alone =
    frames_loop-enough (length s) (suc (length s)) s (omega arith) (omega arith)
    ∙ rw (alone, frames_loop) refl

abbrev onto : List Text × Text → List Text × Text → List Text × Text
onto (events, _) (more, rest) = (events ++ more, rest)

-- By induction on a bound of the buffer's length.
frames-append :
    (n : ℕ) (s more : Text)
    → length s ≤ n
    → (frames (s ++ more) ≡ onto (frames s) (frames ((frames s).1 ++ more)))
      × (frames (frames s).1 ≡ ([], (frames s).1))
frames-append zero s more le = elim (Option-cases (split_event s)) [
  | inl alone ↦ let whole = frames-none s alone in (rw whole refl, rw whole whole)
  | inr ((e, r), found) ↦ absurd (omega (arith, (split_event-append s [] e r found).1))
]
frames-append (suc n) s more le = elim (Option-cases (split_event s)) [
  | inl alone ↦ let whole = frames-none s alone in (rw whole refl, rw whole whole)
  | inr ((e, r), found) ↦
      let (later, shorter) = split_event-append s more e r found in
      let (joined, done) = frames-append n r more (omega (arith, shorter)) in
      let whole = frames-some s e r found in
      (
        frames-some (s ++ more) e (r ++ more) later ∙ ap (push_event e) joined ∙ rw whole refl,
        rw whole done,
      )
]

-- All chunks as one.
unfoldable pub joined_chunks : List Text → Text
joined_chunks [] = []
joined_chunks (raw ∷ chunks) = raw ++ joined_chunks chunks

module _ (loads : Text → Py Json) where
  events_deltas-append :
      (xs ys : List Text)
      → events_deltas loads (xs ++ ys)
        ≡ followed_by (events_deltas loads xs) (events_deltas loads ys)
  unfolding events_deltas followed_by
  events_deltas-append [] ys = refl
  events_deltas-append (x ∷ xs) ys =
      ap (followed_by (lines_deltas loads (split 10 x))) (events_deltas-append xs ys)
      ∙ sym (
          followed_by_assoc (lines_deltas loads (split 10 x)) (events_deltas loads xs)
            (events_deltas loads ys))

  chunks_deltas-eq-events :
      (buffer : Text) (chunks : List Text)
      → frames buffer ≡ ([], buffer)
      → chunks_deltas loads buffer chunks
        ≡ events_deltas loads (frames (buffer ++ joined_chunks chunks)).0
  unfolding chunks_deltas joined_chunks events_deltas
  chunks_deltas-eq-events buffer [] whole =
      sym (ap (λ b. events_deltas loads (frames b).0) (append_nil buffer) ∙ rw whole refl)
  chunks_deltas-eq-events buffer (raw ∷ chunks) whole =
      let both = buffer ++ raw in
      let (split_here, rest_whole) =
        frames-append (length both) both (joined_chunks chunks) (omega arith) in
      ap (followed_by (events_deltas loads (frames both).0))
        (chunks_deltas-eq-events (frames both).1 chunks rest_whole)
      ∙ sym (
          events_deltas-append (frames both).0 (frames ((frames both).1 ++ joined_chunks chunks)).0)
      ∙ ap (λ (p : List Text × Text). events_deltas loads p.0)
          (sym (ap frames (append_assoc buffer raw (joined_chunks chunks)) ∙ split_here))

  pub iter_sse_deltas-events :
      (chunks : List Text)
      → iter_sse_deltas loads chunks ≡ events_deltas loads (frames (joined_chunks chunks)).0
  unfolding iter_sse_deltas split_event
  iter_sse_deltas-events chunks = chunks_deltas-eq-events [] chunks (frames-none [] refl)

  -- What the generator yields and how it ends depends on the bytes of the stream alone, and not on
  -- where the provider cuts them into chunks.
  pub iter_sse_deltas-joined :
      (chunks : List Text)
      → iter_sse_deltas loads chunks ≡ iter_sse_deltas loads (joined_chunks chunks ∷ [])
  unfolding joined_chunks
  iter_sse_deltas-joined chunks =
      iter_sse_deltas-events chunks
      ∙ sym (
          iter_sse_deltas-events (joined_chunks chunks ∷ [])
          ∙ ap (λ b. events_deltas loads (frames b).0) (append_nil (joined_chunks chunks)))
