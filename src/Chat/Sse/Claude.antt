-- ===== src/Chat/Sse/Claude.antt =====
-- src/octo/providers/claude.py, sse_from_stream, as src/octo/chat.py, _iter_sse_deltas, reads it.
-- `dumps` and `loads` are json.dumps and json.loads.
use agentic_octopus.Prelude.{
  ℕ, ◌≡◌, refl, sym, ap, ◌∙◌, false, none, some, List, [], ◌∷◌, ◌++◌, map, arith, ◌==◌, nat_eq,
  Text, text_beq, text_eq, lit, split, starts_with, drop_while, contains,
}
use agentic_octopus.Prelude.Json.{Json, null, str, num, arr, obj, end, field}
use agentic_octopus.Prelude.Python.{Py, value, get, first, truthy, if_truthy, field_of}
use agentic_octopus.Providers.Claude.Replies.{
  Usage, Reply, StreamEvent, message_start, text_delta, other_event, Yield, chunk, done, chunk_json,
  sse_loop, usage, sse_from_stream, sse_bytes, finish_reason,
}
use agentic_octopus.Providers.Claude.Replies.Content.{streamed}
use agentic_octopus.Chat.Sse
use agentic_octopus.Chat.Sse.{
  Delta, Stop, Streamed, finished, followed_by, push_byte, split_event, frames, strip_bytes,
  yield_if, delta_content, chunk_deltas, line_deltas, lines_deltas, events_deltas, chunks_deltas,
  iter_sse_deltas,
}
use agentic_octopus.Chat.Sse.Boundaries.{joined_chunks, iter_sse_deltas-events, frames-some}

-- A line with no line feed is the first event of a buffer where an empty line follows it.
split_event-line :
    (t rest : Text) → contains 10 t ≡ false → split_event (t ++ 10 ∷ 10 ∷ rest) ≡ some (t, rest)
unfolding split_event contains
split_event-line [] rest h = refl
split_event-line (c ∷ []) rest h = ground arith
split_event-line (c ∷ d ∷ t) rest h = ground (arith, split_event-line (d ∷ t) rest)

split-line : (t : Text) → contains 10 t ≡ false → split 10 t ≡ t ∷ []
unfolding split contains
split-line [] h = refl
split-line (c ∷ t) h = ground (arith, split-line t)

-- The text of what the generator yields.
pub delta_texts : List Delta → Text
delta_texts [] = []
delta_texts (Delta.text (str t) ∷ l) = t ++ delta_texts l
delta_texts (_ ∷ l) = delta_texts l

-- What a chunk gives to the reader: its text, and no end.
abbrev Reads : Streamed → Text → Type 0
Reads s t = (delta_texts s.0 ≡ t) × (s.1 ≡ none)

append_assoc : (xs ys zs : Text) → xs ++ (ys ++ zs) ≡ (xs ++ ys) ++ zs
append_assoc [] ys zs = refl
append_assoc (x ∷ xs) ys zs = ap (◌∷◌ x) (append_assoc xs ys zs)

append_nil_of : {A : Type 0} (xs : List A) → xs ++ [] ≡ xs
append_nil_of [] = refl
append_nil_of (x ∷ xs) = ap (◌∷◌ x) (append_nil_of xs)

append_nil : (t : Text) → t ++ [] ≡ t
append_nil [] = refl
append_nil (c ∷ t) = ap (◌∷◌ c) (append_nil t)

text_chunk-Reads :
    (created : ℕ) (model msg_id t : Text)
    → Reads
        (chunk_deltas
          (chunk_json created model msg_id (obj (field (lit "content") (str t) end)) none none))
        t
unfolding chunk_deltas chunk_json delta_texts followed_by delta_content get first truthy if_truthy
    field_of text_beq
text_chunk-Reads created [] msg_id [] = (refl, refl)
text_chunk-Reads created [] msg_id (c ∷ t) = (append_nil (c ∷ t), refl)
text_chunk-Reads created (m ∷ model) msg_id [] = (refl, refl)
text_chunk-Reads created (m ∷ model) msg_id (c ∷ t) = (append_nil (c ∷ t), refl)

first_chunk-Reads :
    (created : ℕ) (model msg_id : Text)
    → Reads
        (chunk_deltas (
          chunk_json created model msg_id
            (obj (field (lit "role") (str (lit "assistant")) (field (lit "content") (str []) end)))
            none
            none))
        []
unfolding chunk_deltas chunk_json delta_texts followed_by delta_content get first truthy if_truthy
    field_of text_beq
first_chunk-Reads created [] msg_id = (refl, refl)
first_chunk-Reads created (m ∷ model) msg_id = (refl, refl)

last_chunk-Reads :
    (created : ℕ) (model msg_id reason : Text) (u : Usage)
    → Reads
        (chunk_deltas (chunk_json created model msg_id (obj end) (some reason) (some (usage u))))
        []
unfolding chunk_deltas chunk_json delta_texts followed_by delta_content get first truthy if_truthy
    field_of text_beq usage
last_chunk-Reads created [] msg_id reason u = (refl, refl)
last_chunk-Reads created (m ∷ model) msg_id reason u = (refl, refl)

delta_texts-append :
    (xs ys : List Delta) → delta_texts (xs ++ ys) ≡ delta_texts xs ++ delta_texts ys
unfolding delta_texts
delta_texts-append [] ys = refl
delta_texts-append (Delta.text (str t) ∷ l) ys =
    ap (λ s. t ++ s) (delta_texts-append l ys) ∙ append_assoc t (delta_texts l) (delta_texts ys)
delta_texts-append (Delta.text null ∷ l) ys = delta_texts-append l ys
delta_texts-append (Delta.text (Json.bool b) ∷ l) ys = delta_texts-append l ys
delta_texts-append (Delta.text (num n) ∷ l) ys = delta_texts-append l ys
delta_texts-append (Delta.text (arr a) ∷ l) ys = delta_texts-append l ys
delta_texts-append (Delta.text (obj o) ∷ l) ys = delta_texts-append l ys
delta_texts-append (Delta.usage j ∷ l) ys = delta_texts-append l ys
delta_texts-append (Delta.model j ∷ l) ys = delta_texts-append l ys

Reads-followed_by :
    (a b : Streamed) {t : Text}
    → Reads a t
    → (delta_texts (followed_by a b).0 ≡ t ++ delta_texts b.0) × ((followed_by a b).1 ≡ b.1)
unfolding followed_by
Reads-followed_by (ds, some s) b (same, open_end) = absurd (cc)
Reads-followed_by (ds, none) (es, s) (same, open_end) =
    (delta_texts-append ds es ∙ ap (λ l. l ++ delta_texts es) same, refl)

module _ (dumps : Json → Text) (loads : Text → Py Json) where
  -- What json.dumps and json.loads promise of a chunk: the text is read back, it is one line with no
  -- white space at its ends, and it is not the end mark.
  abbrev pub IsReadable : Json → Type 0
  IsReadable j =
      (loads (dumps j) ≡ value j)
      × (contains 10 (dumps j) ≡ false)
      × (strip_bytes (dumps j) ≡ dumps j)
      × ((dumps j == lit "[DONE]") ≡ false)

  abbrev pub AllReadable : List Yield → Type 0
  AllReadable [] = Unit
  AllReadable (chunk j ∷ l) = IsReadable j × AllReadable l
  AllReadable (done ∷ l) = AllReadable l

  -- The line of a chunk.
  abbrev line : Json → Text
  line j = lit "data: " ++ dumps j

  line-one_line : (j : Json) → IsReadable j → contains 10 (line j) ≡ false
  unfolding contains
  line-one_line j (reads_back, one_line, no_margin, not_done) = one_line

  line-deltas : (j : Json) → IsReadable j → line_deltas loads (line j) ≡ chunk_deltas j
  unfolding line_deltas starts_with
  line-deltas j (reads_back, one_line, no_margin, not_done) =
      rw (no_margin, not_done, reads_back) refl

  followed_by-nothing : (a : Streamed) → followed_by a ([], none) ≡ a
  unfolding followed_by
  followed_by-nothing (ds, some s) = refl
  followed_by-nothing (ds, none) = ground (arith, append_nil_of ds)

  -- One chunk and the stream behind it.
  chunk_event :
      (j : Json) (rest : Text)
      → IsReadable j
      → events_deltas loads (frames (sse_bytes dumps (chunk j) ++ rest)).0
        ≡ followed_by (chunk_deltas j) (events_deltas loads (frames rest).0)
  unfolding sse_bytes events_deltas lines_deltas
  chunk_event j rest readable =
      ap (λ b. events_deltas loads (frames b).0) (sym (append_assoc (line j) (10 ∷ 10 ∷ []) rest))
      ∙ ap (λ (p : List Text × Text). events_deltas loads p.0)
          (frames-some (line j ++ 10 ∷ 10 ∷ rest) (line j) rest
            (split_event-line (line j) rest (line-one_line j readable)))
      ∙ ap (λ ls. followed_by (lines_deltas loads ls) (events_deltas loads (frames rest).0))
          (split-line (line j) (line-one_line j readable))
      ∙ ap (λ s. followed_by s (events_deltas loads (frames rest).0))
          (followed_by-nothing (line_deltas loads (line j)) ∙ line-deltas j readable)

  done_event : events_deltas loads (frames (sse_bytes dumps done)).0 ≡ ([], some finished)
  unfolding sse_bytes events_deltas lines_deltas line_deltas frames Sse.frames_loop split_event
      split starts_with strip_bytes followed_by drop_while text_beq
  done_event = refl

  abbrev last_json : ℕ → Text → Text → Reply → Json
  last_json created model msg_id final =
      chunk_json created model msg_id (obj end) (some (finish_reason final.stop_reason))
        (some (usage final.tokens))

  -- The chunks of the loop, and the end.
  loop_events :
      (created : ℕ) (model msg_id : Text) (events : List StreamEvent) (final : Reply)
      → AllReadable (sse_loop created model msg_id events final)
      → (delta_texts
            (events_deltas loads
              (frames (
                joined_chunks
                  (map (sse_bytes dumps) (sse_loop created model msg_id events final)))).0).0
          ≡ streamed events)
        × ((events_deltas loads
              (frames (
                joined_chunks
                  (map (sse_bytes dumps) (sse_loop created model msg_id events final)))).0).1
            ≡ some finished)
  unfolding sse_loop joined_chunks streamed delta_texts
  loop_events created model msg_id [] final (readable, _) =
      let j = last_json created model msg_id final in
      let (texts, stop) =
        Reads-followed_by (chunk_deltas j) ([], some finished) {t = []}
          (last_chunk-Reads created model msg_id (finish_reason final.stop_reason) final.tokens) in
      let read =
        chunk_event j (sse_bytes dumps done ++ []) readable
        ∙ ap (λ b. followed_by (chunk_deltas j) (events_deltas loads (frames b).0))
            (append_nil (sse_bytes dumps done))
        ∙ ap (followed_by (chunk_deltas j)) done_event in
      (ap (λ (s : Streamed). delta_texts s.0) read ∙ texts, ap (λ (s : Streamed). s.1) read ∙ stop)
  loop_events created model msg_id (message_start id ∷ es) final h =
      loop_events created model id es final h
  loop_events created model msg_id (text_delta t ∷ es) final (readable, h) =
      let j = chunk_json created model msg_id (obj (field (lit "content") (str t) end)) none none in
      let rest = joined_chunks (map (sse_bytes dumps) (sse_loop created model msg_id es final)) in
      let (later, ends) = loop_events created model msg_id es final h in
      let (texts, stop) =
        Reads-followed_by (chunk_deltas j) (events_deltas loads (frames rest).0) {t = t}
          (text_chunk-Reads created model msg_id t) in
      (
        ap (λ (s : Streamed). delta_texts s.0) (chunk_event j rest readable)
            ∙ texts
            ∙ ap (λ l. t ++ l) later,
        ap (λ (s : Streamed). s.1) (chunk_event j rest readable) ∙ stop ∙ ends,
      )
  loop_events created model msg_id (other_event ∷ es) final h =
      loop_events created model msg_id es final h

  -- For chunks that json.dumps writes and json.loads reads back as one line each: from the bytes that
  -- Claude's stream is sent as, cut into any chunks, the chat service reads the text of the Messages
  -- API's text events, in their order, and stops at the end of the stream and not before.
  pub sse_from_stream-read :
      (chunks : List Text) (created : ℕ) (model : Text) (events : List StreamEvent) (final : Reply)
      → AllReadable (sse_from_stream created model events final)
      → joined_chunks chunks
        ≡ joined_chunks (map (sse_bytes dumps) (sse_from_stream created model events final))
      → (delta_texts (iter_sse_deltas loads chunks).0 ≡ streamed events)
        × ((iter_sse_deltas loads chunks).1 ≡ some finished)
  unfolding sse_from_stream joined_chunks
  sse_from_stream-read chunks created model events final (readable, h) same =
      let j =
        chunk_json created model (lit "chatcmpl-octo-claude")
          (obj (field (lit "role") (str (lit "assistant")) (field (lit "content") (str []) end)))
          none none in
      let rest = joined_chunks (
        map (sse_bytes dumps) (sse_loop created model (lit "chatcmpl-octo-claude") events final)) in
      let (later, ends) = loop_events created model (lit "chatcmpl-octo-claude") events final h in
      let (texts, stop) =
        Reads-followed_by (chunk_deltas j) (events_deltas loads (frames rest).0) {t = []}
          (first_chunk-Reads created model (lit "chatcmpl-octo-claude")) in
      let read =
        iter_sse_deltas-events loads chunks
        ∙ ap (λ b. events_deltas loads (frames b).0) same
        ∙ chunk_event j rest readable in
      (
        ap (λ (s : Streamed). delta_texts s.0) read ∙ texts ∙ later,
        ap (λ (s : Streamed). s.1) read ∙ stop ∙ ends,
      )
