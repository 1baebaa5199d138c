-- ===== src/Lib.antt =====
-- AI provider gateway: an HTTP gateway in TypeScript (NestJS) in front of the APIs of Anthropic,
-- Google and OpenAI. This library models its core logic, with theorems.
--
-- A request passes the rate-limit guard and the check of its size; its model alias is resolved to a
-- provider instance and its parameters against the alias; a provider in cooldown is refused. The answer
-- comes from the exact or the semantic cache, or the retry executor calls a provider adapter, whose errors
-- are mapped to gateway errors; a complete answer is kept in both caches. Equal requests at the same time
-- share one run. Streams go out as events that a facade rewrites for its clients.
--
-- Parts, files here, and code:
--   Prelude: numbers and tests, lists, UTF-16 texts, JSON values and their text, integers.
--   Errors: src/common/errors/api-error.code.ts (ApiErrorCode), errors.utils.ts, and values for thrown
--     HttpExceptions. Errors/Sdk: provider-error.mapper.ts, its helpers, and
--     src/providers/openai/mappers/openai-error.mapper.ts.
--   Resilience: Policy is src/chat/resilience/resilience.types.ts, is-retryable-http-error.ts,
--     fallback-chain.ts, src/chat/helpers/retry-policy.ts and src/common/retry-policy-defaults.ts;
--     Executor is resilient-executor.ts (executeWithRetryAndFallback, tryAlias, runWithTimeout,
--     computeBackoffDelayMs, toExhaustedException). Attempts, Deadline, Fallback, Exhausted, Preserving: proofs.
--   RateLimit: Bucket is the Lua script, Service the operations of
--     src/rate-limit/smart-rate-limiter.service.ts, Guard src/guards/smart-rate-limit-guard.ts with
--     src/common/interceptors/stream-cleanup.interceptor.ts, Streams the interleaving of requests as a
--     step relation, Redis the interface to the server. Bounds, Cooldown: proofs.
--   Facade: Events is src/chat/sse/sse-event.type.ts, src/providers/types/tooling-types.ts and
--     src/chat/helpers/map-provider-finish-reason.ts; Anthropic is
--     src/integrations/anthropic/mappers/anthropic-stream.mapper.ts with the stop-reason and usage
--     mappers; Anthropic/Protocol a client that checks the contract of the Messages stream.
--     OpenAi is src/integrations/openai/mappers/openai-stream.mapper.ts and openai-response.mapper.ts,
--     OpenAi/Stream a client that reads the chunks. OpenAi/Requests is openai-messages.mapper.ts and
--     openai-tools.mapper.ts; OpenAi/Requests/Written what a client writes; Relaying, Tooling: proofs.
--   Params: Resolve is src/chat/helpers/resolve-provider-call-options.ts, Numbers the interface of
--     the doubles that it compares. Laws, Outcome: proofs.
--   Providers: Registry is src/providers/provider-registry.service.ts, Validation
--     src/chat/services/chat-validation.service.ts; Resolution: proofs. OpenAi is
--     src/providers/openai/mappers/openai-messages-provider.mapper.ts and, of openai-tools-provider.mapper.ts and
--     src/providers/openai/adapters/chat-completions.adapter.ts, the tools of a request.
--   Cache: Circuit is src/cache/semantic/embedding-circuit-breaker.ts with an abstract breaker, Replay
--     src/chat/services/stream-cache-replay.service.ts, Tag src/cache/semantic/escape-tag.ts and
--     buildKnnQuery, VectorStore the rest of src/cache/semantic/adapters/redis-vector-store.adapter.ts
--     but the search, VectorSearch the search with parse-knn-hits.ts; Identity src/cache/cache-identity.ts, buildIdentityKey, last-user-message.ts and
--     to-chat-cache-identity.ts; Store src/cache/adapters/redis-cache/redis-cache.adapter.ts; Exact
--     src/cache/response-cache.service.ts; Semantic src/cache/semantic/semantic-cache.service.ts.
--     Stored, Semantic/Embeds, Semantic/Replies, VectorStore/Upserts,
--     VectorSearch/Reuse: proofs.
--   Access: Keys is buildGatewayKeyRuntime of src/config/configuration.ts, assertMasterKeyPresent of
--     src/config/configuration-validation.service.ts and the guard of src/guards/gateway-key.guard.ts with
--     its helpers; Guarding: proofs.
--   Config: Rows is the types of src/config/gateway-config.schema.ts and configuration.types.ts, Schema
--     GatewayConfigSchema, Secrets provider-api-key.validation.ts and provider-base-url.validation.ts,
--     Effective buildEffectiveGatewayConfig of src/config/configuration.ts. What is found in its result is
--     the configuration that Providers and Cache read. Schema/Lookups, Schema/Sound, Effective/Starting:
--     proofs.
--   Cli: of src/cli, EnvFile is services/env-patch.service.ts, Session services/config-persistence.service.ts
--     over a state of files and environment, Clients, Models and Providers the apply operations of
--     services/client-manager.service.ts, model-manager.service.ts and provider-manager.service.ts with
--     utils/effective-config-preview.util.ts and client-rate-limit.util.ts, Policies
--     utils/default-model-policy.util.ts with the constants it reads, Runs the commands one after another as
--     a step relation. Models/Editing is applyEditModel. EnvFile/Lines, EnvFile/Laws, Session/Keeping,
--     Session/Settling, Clients/Undoing, Models/LastModel and the other Keeping: proofs.
--   Chat: Service is executeChat, prepareRequestForExecution and completeChatAndStore of
--     src/chat/chat.service.ts with the cooldown and error services and completeOnce; Streaming
--     resolveStreamCache and executeStreamMiss with streamOnce; Pipeline
--     src/chat/services/chat-cache-pipeline.service.ts; Singleflight
--     src/chat/helpers/in-process-singleflight.ts; Ingress src/chat/validation; Answer, Warnings,
--     ProviderInput and Request the helpers, the response builder and the requests; Deployment what the
--     services are built with, and their state. Service/Keeping, Caching, Cooling,
--     Singleflight/Sharing, Streaming/Protocol: proofs.
--   Examples: tests, Redis stores in memory, and the theorems at concrete inputs.
--
-- State is passed explicitly: the world of provider calls, the Redis database, the mapper's state, the
-- breaker. Time is a number of milliseconds that is an argument. A promise either settles at a time or
-- never does. Numbers are natural: tokens, statuses and times are; Redis counters are integers.
--
-- Fuel: the retry loop runs on the rounds left, which are maxAttempts at its start; the replay loop on
-- the length of the text and one more, which is enough since each round takes 64 units or the rest;
-- decimal printing on the number and one more.
--
-- Not modelled: log lines and metrics; the SDKs, Redis, NestJS and HTTP; controllers; the request mappers of the
-- Anthropic facade and of the other providers, the parameters of an OpenAI request, the Responses API that serves type
-- openai; the prompts, the wizard and the output of the command line tool; the formats of references to
-- variables. A write of .env or of the configuration may fail at any time, before anything is written; writes of
-- prompts do not. Of Redis failures, one in the middle of an operation is left out, and the expiry of the counter of
-- streams. The commands of Redis and the calls for embeddings take no time and settle: the times of the chat service
-- are those of the provider calls alone.
pub mod Prelude
pub mod Errors
pub mod Resilience
pub mod RateLimit
pub mod Facade
pub mod Params
pub mod Cache
pub mod Providers
pub mod Chat
pub mod Access
pub mod Config
pub mod Cli
mod Examples
