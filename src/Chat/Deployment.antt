-- ===== src/Chat/Deployment.antt =====
-- What the services of src/chat are built with, and the state that they act on: the configuration, the
-- stores and the providers. One Redis serves them all; the rate limiter and the exact cache use different
-- keys, and each has its own interface. A command of Redis or of the embedding backend takes no time.
use ai_provider_gateway.Prelude.{ℕ, Bool, Option, String, List}
use ai_provider_gateway.Prelude.Texts.{Text}
use ai_provider_gateway.Prelude.Json.{Json}
use ai_provider_gateway.Errors.{Thrown, Response}
use ai_provider_gateway.Params.Numbers.{Numbers}
use ai_provider_gateway.Params.Resolve.{Options}
use ai_provider_gateway.RateLimit.Redis.{Redis}
use ai_provider_gateway.RateLimit.Service.{Connection, LimitsConfig}
use ai_provider_gateway.Resilience.Executor.{Call}
use ai_provider_gateway.Providers.Registry.{GatewayConfig, Instances, RegisteredProviderInstance}
use ai_provider_gateway.Cache.Circuit.{EmbeddingCircuitBreaker}
use ai_provider_gateway.Cache.Store.{Strings}
use ai_provider_gateway.Cache.Exact.{Codec}
use ai_provider_gateway.Cache.Semantic.{Backends, SemanticConfig}
use ai_provider_gateway.Facade.Events.{GatewayToolCall, FinishReason, UsageDetails}
use ai_provider_gateway.Chat.Answer.{ProviderChatResponse}
use ai_provider_gateway.Chat.ProviderInput.{ProviderChatInput, ResolvedSystemPrompts}

-- What an adapter's stream gives beside its text.
pub record StreamFinal : Type 0 where
  pub usage : Option (ℕ × ℕ)
  pub tool_calls : Option (List GatewayToolCall)
  pub stop_reason : Option FinishReason
  pub system_fingerprint : Option String
  pub thinking_content : Option Text
  pub usage_details : Option UsageDetails

-- A call of an adapter's `stream`: it throws, or it gives the chunks that come before it settles or is
-- aborted, and settles with the rest, or never does.
pub data StreamRun : Type 0 where
  refuses : Thrown → StreamRun
  opens : List Text → Call StreamFinal → StreamRun

-- `providers` is the world that the adapters' `complete` and `stream` act on; `has_semantic` says whether the
-- semantic cache is injected. `iso` is a time in ISO notation.
pub record Deployment (n : Numbers) : Type 1 where
  pub number : n.N → Json
  pub sha256 : Text → Text
  pub iso : ℕ → Text
  pub http_message : ℕ → Response → Text
  pub config : GatewayConfig n
  pub instances : Instances
  pub prompts : ResolvedSystemPrompts
  pub limits : Option LimitsConfig
  pub key_prefix : Text
  pub cache_ttl : Option ℕ
  pub has_semantic : Bool
  pub connection : Connection
  pub redis : Redis
  pub strings : Strings
  pub codec : Codec
  pub backends : Backends
  pub semantic : SemanticConfig backends.S
  pub Providers : Type 0
  pub complete :
      RegisteredProviderInstance
      → ProviderChatInput n
      → String
      → Options n
      → Providers
      → Call ProviderChatResponse × Providers
  pub stream :
      RegisteredProviderInstance
      → ProviderChatInput n
      → String
      → Options n
      → Providers
      → StreamRun × Providers

pub record GatewayState {n : Numbers} (g : Deployment n) : Type 0 where
  pub now : ℕ
  pub cooldowns : g.redis.Db
  pub answers : g.strings.Db
  pub circuit : EmbeddingCircuitBreaker
  pub vectors : g.backends.W
  pub providers : g.Providers
