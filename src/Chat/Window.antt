-- ===== src/Chat/Window.antt =====
-- Which messages of a conversation are sent.
use mathlib.Core.Path.{subst}
use agentic_octopus.Prelude.{
  ℕ, ◌+◌, ◌≤◌, ◌<◌, ◌≡◌, ◌⊎◌, inl, inr, refl, ap, true, false, ◌&&◌, Option, List, [], ◌∷◌, ◌++◌,
  map, reverse, arith, Text, length, ltb, ltb→lt, Bool-cases, if◌then◌else◌,
}
use agentic_octopus.Config.{Settings}
use agentic_octopus.Chat.{
  Role, Msg, is_tool, estimate_tokens, cost, sent, window, budget_or_default, build_context,
}

-- The messages that are not audit rows of tools.
unfoldable pub dialogue : List Msg → List Msg
dialogue [] = []
dialogue (m ∷ ms) = let rest = dialogue ms in if is_tool m.role then rest else m ∷ rest

unfoldable pub total : List Msg → ℕ
total [] = 0
total (m ∷ ms) = cost m + total ms

-- Nothing is left, or the next message does not fit any more.
abbrev pub Stops : ℕ → ℕ → List Msg → Type 0
Stops budget spent [] = Unit
Stops budget spent (m ∷ ms) = budget < spent + cost m

ltb→le : (a b : ℕ) → ltb a b ≡ false → b ≤ a
ltb→le a b h = ground arith

add_assoc : (a b c : ℕ) → a + b + c ≡ a + (b + c)
add_assoc a b c = omega arith

started :
    (budget spent : ℕ) (ms : List Msg)
    → (dropped : List Msg) × (dialogue ms ≡ window budget spent true ms ++ dropped)
      × ((window budget spent true ms ≡ [])
          ⊎ (spent + total (window budget spent true ms) ≤ budget))
      × Stops budget (spent + total (window budget spent true ms)) dropped
unfolding window dialogue total
started budget spent [] = ([], refl, inl refl, tt)
started budget spent (m ∷ ms) = elim (Bool-cases (is_tool m.role)) [
  | inl audit ↦ rw audit (started budget spent ms)
  | inr spoken ↦ elim (Bool-cases (ltb budget (spent + cost m))) [
    | inl full ↦
        rw (spoken, full)
          (m ∷ dialogue ms, refl, inl refl, omega (arith, ltb→lt budget (spent + cost m) full))
    | inr fits ↦
        let (dropped, all, bound, stop) = started budget (spent + cost m) ms in
        let rest = window budget (spent + cost m) true ms in
        rw (spoken, fits)
          (
            dropped,
            ap (◌∷◌ m) all,
            inr (elim bound [
              | inl none_more ↦
                  ground (arith, ap total none_more, ltb→le budget (spent + cost m) fits)
              | inr within ↦ omega (arith, within)
            ]),
            subst (λ n. Stops budget n dropped) (add_assoc spent (cost m) (total rest)) stop,
          )
  ]
]

-- The first message of all is kept whatever it costs.
unstarted :
    (budget spent : ℕ) (ms : List Msg)
    → (dropped : List Msg) × (dialogue ms ≡ window budget spent false ms ++ dropped)
      × ((length (window budget spent false ms) ≤ 1)
          ⊎ (spent + total (window budget spent false ms) ≤ budget))
      × Stops budget (spent + total (window budget spent false ms)) dropped
      × ((dialogue ms ≡ []) ⊎ (0 < length (window budget spent false ms)))
unfolding window dialogue total
unstarted budget spent [] = ([], refl, inl (omega arith), tt, inl refl)
unstarted budget spent (m ∷ ms) = elim (Bool-cases (is_tool m.role)) [
  | inl audit ↦ rw audit (unstarted budget spent ms)
  | inr spoken ↦
      let (dropped, all, bound, stop) = started budget (spent + cost m) ms in
      let rest = window budget (spent + cost m) true ms in
      rw (spoken, always budget (spent + cost m))
        (
          dropped,
          ap (◌∷◌ m) all,
          elim bound [
            | inl none_more ↦ inl (ground (arith, ap length none_more))
            | inr within ↦ inr (omega (arith, within))
          ],
          subst (λ n. Stops budget n dropped) (add_assoc spent (cost m) (total rest)) stop,
          inr (omega arith),
        )
]
  where
    always : (b s : ℕ) → (ltb b s && false) ≡ false
    always b s = ground arith

-- The context is the system prompt and then, oldest first, the newest messages of the history that
-- are not audit rows of tools. They fit the budget together with the prompt unless only one is sent,
-- the next older one would not fit, and if there is any such message then at least one is sent.
pub build_context-eq-newest :
    (settings : Settings) (system_prompt : Text) (history : List Msg) (budget : Option ℕ)
    → (kept dropped : List Msg) × (build_context settings system_prompt history budget
        ≡ record { role = Role.system; content = system_prompt } ∷ reverse (map sent kept))
      × (dialogue (reverse history) ≡ kept ++ dropped)
      × ((length kept ≤ 1)
          ⊎ (estimate_tokens system_prompt + total kept ≤ budget_or_default settings budget))
      × Stops
          (budget_or_default settings budget)
          (estimate_tokens system_prompt + total kept)
          dropped
      × ((dialogue (reverse history) ≡ []) ⊎ (0 < length kept))
unfolding build_context
build_context-eq-newest settings system_prompt history budget =
    let limit = budget_or_default settings budget in
    let (dropped, all, bound, stop, some_kept) =
      unstarted limit (estimate_tokens system_prompt) (reverse history) in
    (
      window limit (estimate_tokens system_prompt) false (reverse history),
      dropped,
      refl,
      all,
      bound,
      stop,
      some_kept,
    )
