-- ===== src/Examples/Caches.antt =====
-- The caches, the provider registry and the shared runs at concrete inputs.
use ai_provider_gateway.Prelude.{
  ℕ, ◌≤◌, ◌≡◌, ◌⊎◌, refl, true, false, none, some, List, [], ◌∷◌, arith,
}
use ai_provider_gateway.Prelude.Texts.{units, trim}
use ai_provider_gateway.Prelude.Json.{num}
use ai_provider_gateway.Facade.Events
use ai_provider_gateway.Params.Numbers.{naturals}
use ai_provider_gateway.RateLimit.Service.{Connection}
use ai_provider_gateway.Chat.Answer.{
  ChatResponseData, CachedChatResponse, to_cached_chat_response, should_store_chat_response,
}
use ai_provider_gateway.Cache.Circuit.{new_breaker}
use ai_provider_gateway.Cache.Identity.{ChatCacheIdentity}
use ai_provider_gateway.Cache.Exact.{IsReadable, get_cached_response, set_cached_response}
use ai_provider_gateway.Cache.Stored.{set_cached_response-get_cached_response}
use ai_provider_gateway.Cache.Semantic.{lookup, store_reply}
use ai_provider_gateway.Cache.Semantic.Embeds.{counted, embeds, Counted, embeds-store_reply-lookup}
use ai_provider_gateway.Errors.{returned, ThrewHttp}
use ai_provider_gateway.Providers.Registry.{ResolvedProviderConfig, resolve}
use ai_provider_gateway.Providers.Resolution.{
  registered, IsWired, IsUnwired, IsMisregistered, resolve_lem,
}
use ai_provider_gateway.Chat.Singleflight.{
  no_flights, Flights, Happening, calls, settles, singleflight, flights_after,
}
use ai_provider_gateway.Chat.Singleflight.Sharing.{runs_of, singleflight_lem}
use ai_provider_gateway.Examples.Stores.{
  Entries, string_memory, text_codec, reply_with, length_backends, semantic_config,
}
use ai_provider_gateway.Examples.Chat.{gateway, gateway_config, instance_p, request_for, nothing}

abbrev connected : Connection
connected = record { is_ready = true; has_client = true; fails = false }

abbrev answer : ChatResponseData
answer = record {
  id = units "gw_1";
  provider = "p";
  model = "good";
  effective_model_alias = none;
  text = units "hello";
  usage = none;
  request_id = "r-1";
  conversation_id = units "c-1";
  tool_calls = none;
  finish_reason = some Events.stop;
  usage_details = none;
  system_fingerprint = none;
  thinking_content = none;
  warnings = [];
}

abbrev no_entries : Entries
no_entries k = none

answer-IsReadable : IsReadable text_codec (to_cached_chat_response (units "today") answer)
unfolding to_cached_chat_response
answer-IsReadable = refl

answer_storable : should_store_chat_response answer ≡ true
unfolding should_store_chat_response trim
answer_storable = refl

-- Stored at 1000 for two seconds; another answer comes at 1500, the read at 2999.
set_cached_response-get_cached_response_example :
    let reply : CachedChatResponse = to_cached_chat_response (units "today") answer in
    let db' : Entries =
      set_cached_response string_memory connected text_codec
        (some 2)
        (units "k")
        reply
        1000
        no_entries in
    (get_cached_response string_memory connected text_codec (units "k") 2999 db'
      ≡ (some reply, db'))
    × (set_cached_response string_memory connected text_codec
          (some 2)
          (units "k")
          (reply_with (units "no"))
          1500
          db'
        ≡ db')
set_cached_response-get_cached_response_example =
    set_cached_response-get_cached_response string_memory connected text_codec (units "k") (some 2)
      (units "today") answer (reply_with (units "no")) 1000 1500 2999 no_entries (refl, refl, refl)
      answer-IsReadable answer_storable (omega arith) refl (omega arith) (omega arith) (omega arith)

-- An entry that cannot be served: its text is empty.
abbrev spoilt : Entries
spoilt k = some (123 ∷ 32 ∷ [], none)

abbrev identity : ChatCacheIdentity naturals
identity = record {
  model_alias = "good";
  client_id = "web";
  messages = (request_for "good").messages;
  call_params = nothing;
}

embeds-store_reply-lookup_example :
    let s : Counted length_backends semantic_config = (new_breaker, (0, 4)) in
    let found =
      lookup
        (counted length_backends)
        semantic_config
        naturals
        num
        (λ t. t)
        gateway.prompts
        identity
        s in
    embeds length_backends semantic_config (
      store_reply
        (counted length_backends)
        semantic_config
        naturals
        num
        (λ t. t)
        gateway.prompts
        identity
        (reply_with (units "hello"))
        (record { vector = found.0.vector; embed_attempted = found.0.embed_attempted })
        (new_breaker, (9, embeds length_backends semantic_config found.1)))
    ≤ 5
embeds-store_reply-lookup_example =
    embeds-store_reply-lookup length_backends semantic_config naturals num (λ t. t) gateway.prompts
      identity (reply_with (units "hello")) (new_breaker, (0, 4)) new_breaker 9

-- Two calls for one key and one for another, then the first run settles.
abbrev history : List Happening
history = calls (units "a") ∷ calls (units "b") ∷ calls (units "a") ∷ settles (units "a") 0 ∷ []

singleflight_lem_example :
    let s : Flights = flights_after history no_flights in
    let p : ℕ × Flights = singleflight (units "b") s in
    (runs_of (units "b") p.1.running ≡ p.0 ∷ [])
    × ((runs_of (units "b") s.running ≡ [])
        ⊎ ((runs_of (units "b") s.running ≡ p.0 ∷ []) × (p.1 ≡ s)))
singleflight_lem_example = singleflight_lem history (units "b")

resolve_lem_example :
    ((r : ResolvedProviderConfig naturals) × (resolve
          (some gateway_config)
          (registered (instance_p ∷ []))
          "good"
        ≡ returned r)
      × IsWired gateway_config (instance_p ∷ []) "good" r)
    ⊎ (ThrewHttp 400 (resolve (some gateway_config) (registered (instance_p ∷ [])) "good")
        × IsUnwired gateway_config (instance_p ∷ []) "good")
    ⊎ (ThrewHttp 500 (resolve (some gateway_config) (registered (instance_p ∷ [])) "good")
        × IsMisregistered gateway_config (instance_p ∷ []) "good")
resolve_lem_example = resolve_lem naturals gateway_config (instance_p ∷ []) "good"
