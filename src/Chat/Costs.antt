-- ===== src/Chat/Costs.antt =====
-- src/octo/chat.py under the cost guard of src/octo/providers: the requests of a turn.
use agentic_octopus.Prelude.{
  ℕ, suc, ◌≡◌, inl, inr, refl, false, Option, some, List, arith, Text, text_beq, text_beq_iff,
  text_eq, All,
}
use agentic_octopus.Prelude.Dict.{Dict, lookup}
use agentic_octopus.Prelude.Json.{Json}
use agentic_octopus.Config.{Settings}
use agentic_octopus.Providers.Errors.{ok}
use agentic_octopus.Providers.Openrouter.{auto_model, enforce_free, route_payload}
use agentic_octopus.Providers.Base.{Provider, Route, openrouter}
use agentic_octopus.Providers.Calls.{Payload}
use agentic_octopus.Providers.Guard.{IsFree, named_models, posted-IsFree, Guarded, route-Guarded}
use agentic_octopus.Chat.{Sent, tools_for}
use agentic_octopus.Providers.Ollama.{TagsCache}
use agentic_octopus.Chat.Store.{Conversation, get_conversation}
use agentic_octopus.Chat.Turn.{Session, World, payload_of, routed, model_or_default}
use agentic_octopus.Chat.Turn.Works.{Works}
use agentic_octopus.Chat.Send.{send}
use agentic_octopus.Chat.Send.Bounds.{send-Works_of}
use agentic_octopus.Chat.Stream.{send_stream}
use agentic_octopus.Chat.Stream.Bounds.Turns.{send_stream-Works_of}

-- The body that OpenRouter is sent names free models alone.
abbrev pub PostsFree : Settings → Provider × Payload → Type 0
PostsFree settings r = All IsFree (named_models (route_payload settings r.1))

-- A route to OpenRouter passed the guard.
passed :
    (settings : Settings) (requested : Text) (now : ℕ) (reply : Option (List Text))
    (cache : TagsCache) (r : Route)
    → settings.openrouter_allow_paid ≡ false
    → r.provider ≡ openrouter
    → Guarded settings requested now reply cache r
    → enforce_free settings r.model ≡ ok tt
unfolding enforce_free
passed settings requested now reply cache r unpaid by (inl (elsewhere, _, _, _)) = absurd (cc)
passed settings requested now reply cache r unpaid by (inr (inl (elsewhere, _, _))) = absurd (cc)
passed settings requested now reply cache r unpaid by (inr (inr (_, inl auto))) =
    ground (arith, text_beq_iff r.model auto_model)
passed settings requested now reply cache r unpaid by (inr (inr (_, inr (inl free)))) = ground arith
passed settings requested now reply cache r unpaid by (inr (inr (_, inr (inr paid)))) = absurd (cc)

-- With paid models off, whatever a turn that is routed to OpenRouter asks it, streamed or not, in its
-- first round or behind tool calls, is a body that names free models alone.
pub turn-PostsFree :
    (w : World) (id : ℕ) (text : Text) (tags : Option (Dict Text Json)) (s : Session)
    (convo : Conversation) (route : Route)
    → (w.settings).openrouter_allow_paid ≡ false
    → get_conversation id s.db ≡ some convo
    → routed w convo ≡ ok route
    → route.provider ≡ openrouter
    → Works
        (PostsFree w.settings)
        (tools_for w.settings (some convo.persona) w.registry)
        (λ m. m.conversation_id ≡ id)
        (suc (w.settings).chat_max_tool_calls)
        (w.settings).chat_max_tool_calls
        s
        (send w id text tags s).1
      × Works
          (PostsFree w.settings)
          (tools_for w.settings (some convo.persona) w.registry)
          (λ m. m.conversation_id ≡ id)
          (suc (w.settings).chat_max_tool_calls)
          (w.settings).chat_max_tool_calls
          s
          (send_stream w id text tags s).1
unfolding routed lookup text_beq
turn-PostsFree w id text tags s convo route unpaid there way by =
    let guarded =
      passed w.settings (model_or_default convo.model) w.monotonic w.tags_reply w.tags_cache route
        unpaid by
        (route-Guarded w.settings (model_or_default convo.model) w.monotonic w.tags_reply
          w.tags_cache route way) in
    let asks : (context : List Sent)
        → PostsFree w.settings (route.provider, payload_of route.model context) =
      λ context.
        (posted-IsFree w.settings (payload_of route.model context) route.model unpaid refl refl
          guarded).0 in
    (
      send-Works_of (PostsFree w.settings) w id text tags s convo route there way asks,
      send_stream-Works_of (PostsFree w.settings) w id text tags s convo route there way asks,
    )
