-- ===== src/Errors/Laws.antt =====
-- What the mapped provider errors guarantee to the retry logic and to the rate-limit cooldown.
use ai_provider_gateway.Prelude.{
  [], ◌∷◌, ℕ, ◌≤◌, ◌≡◌, ◌≢◌, ◌⊎◌, ◌↔◌, Bool, true, false, Option, some, includes, arith,
  if◌then◌else◌,
}
use ai_provider_gateway.Errors.{
  provider_rate_limited, provider_auth_failed, validation_failed, provider_timeout,
  provider_unavailable, is_provider_rate_limit_error, http_error, is_rate_limit_status,
  is_client_error, is_auth_error, is_timeout_status, is_server_error, is_invalid_request_status,
}
use ai_provider_gateway.Errors.Sdk.{
  SdkError, MappedProviderError, AnthropicClass, rate_limit_error, authentication_error,
  bad_request_error, api_error, not_anthropic, read_numeric_status, name_looks_like_timeout,
  or_bad_gateway, mapped, map_anthropic_class, map_openai_rest, map_openai_status, map_status,
  map_anthropic_sdk_error, map_google_gen_ai_error, map_openai_sdk_error, to_http_exception,
}
use ai_provider_gateway.Prelude.Texts.{Text}
use ai_provider_gateway.Resilience.Policy.{is_retryable_http_error, default_on_status}

-- The pairs of a status and a code that the gateway documents for provider errors.
abbrev pub IsConsistent : MappedProviderError → Type 0
IsConsistent m =
    ((m.http_status ≡ 429) × (m.code ≡ provider_rate_limited))
    ⊎ ((m.http_status ≡ 401) × (m.code ≡ provider_auth_failed))
    ⊎ ((m.http_status ≡ 504) × (m.code ≡ provider_timeout))
    ⊎ ((m.http_status ≡ 502) × (m.code ≡ provider_unavailable))
    ⊎ ((m.http_status ≡ 400) × (m.code ≡ validation_failed))

map_status-IsConsistent :
    (status : Option ℕ) (message : Text) → IsConsistent (map_status status message)
unfolding map_status
map_status-IsConsistent status message = ground arith

map_class-IsConsistent :
    (c : AnthropicClass) (e : SdkError) (message : Text)
    → IsConsistent (map_anthropic_class c e message)
unfolding map_anthropic_class
map_class-IsConsistent rate_limit_error e message = ground arith
map_class-IsConsistent authentication_error e message = ground arith
map_class-IsConsistent bad_request_error e message = ground arith
map_class-IsConsistent api_error e message = map_status-IsConsistent _ message
map_class-IsConsistent not_anthropic e message = ground arith

map_openai_rest-IsConsistent :
    (e : SdkError) (message : Text) → IsConsistent (map_openai_rest e message)
unfolding map_openai_rest
map_openai_rest-IsConsistent e message = ground arith

map_openai_status-IsConsistent :
    (status : Option ℕ) (e : SdkError) (message : Text)
    → IsConsistent (map_openai_status status e message)
unfolding map_openai_status
map_openai_status-IsConsistent status e message =
    ground (arith, map_openai_rest-IsConsistent e message)

-- Whatever a provider SDK throws, each mapper answers with one of the five documented pairs of a
-- status and a code.
pub mappers-IsConsistent :
    (e : SdkError)
    → IsConsistent (map_anthropic_sdk_error e)
      × IsConsistent (map_google_gen_ai_error e)
      × IsConsistent (map_openai_sdk_error e)
unfolding map_anthropic_sdk_error map_google_gen_ai_error map_openai_sdk_error
mappers-IsConsistent e = (
  map_class-IsConsistent e.anthropic e _,
  google (name_looks_like_timeout e) _,
  openai e.is_openai_api_error _,
)
  where
    google :
        (late : Bool) (message : Text)
        → IsConsistent (
            if late
            then mapped 504 provider_timeout message
            else map_status (read_numeric_status e) message)
    google true message = ground arith
    google false message = map_status-IsConsistent _ message

    openai :
        (api : Bool) (message : Text)
        → IsConsistent (
            if api
            then map_openai_status (some (or_bad_gateway e.status)) e message
            else map_openai_rest e message)
    openai true message = map_openai_status-IsConsistent _ e message
    openai false message = map_openai_rest-IsConsistent e message

-- The error that sets a cooldown (HTTP 429) comes out of a mapper exactly when the provider said so:
-- by the error's class or its status for Anthropic, by the status for Google unless the error is a
-- timeout, and by the status of an API error for OpenAI.
pub cooldown_trigger_iff :
    (e : SdkError)
    → ((is_provider_rate_limit_error (to_http_exception (map_anthropic_sdk_error e)) ≡ true)
        ↔ ((e.anthropic ≡ rate_limit_error) ⊎ ((e.anthropic ≡ api_error) × (e.status ≡ some 429))))
      × ((is_provider_rate_limit_error (to_http_exception (map_google_gen_ai_error e)) ≡ true)
          ↔ ((name_looks_like_timeout e ≡ false) × (read_numeric_status e ≡ some 429)))
      × ((is_provider_rate_limit_error (to_http_exception (map_openai_sdk_error e)) ≡ true)
          ↔ ((e.is_openai_api_error ≡ true) × (e.status ≡ some 429)))
unfolding map_anthropic_sdk_error map_google_gen_ai_error map_openai_sdk_error map_status
    map_anthropic_class map_openai_status map_openai_rest to_http_exception
    is_provider_rate_limit_error is_rate_limit_status is_auth_error is_timeout_status
    is_server_error is_client_error is_invalid_request_status http_error
cooldown_trigger_iff e =
    ((ground arith, ground arith), (ground arith, ground arith), (ground arith, ground arith))

-- The status of a client error that no mapper gives a class of its own.
pub record IsClientStatus (s : ℕ) : Type 0 where
  pub least : 400 ≤ s
  pub most : s ≤ 499
  pub other : includes (401 ∷ 403 ∷ 408 ∷ 429 ∷ []) s ≡ false

-- One client error (a status from 400 to 499 but for 401, 403, 408 and 429), as the SDKs of the three providers throw
-- it: an APIError of Anthropic's that is of no narrower class, an object with that status, not named like a
-- timeout, from Google's, an APIError of OpenAI's. Under the default policy it is not retried by way of the Anthropic
-- and the Google mapper; by way of the OpenAI mapper it is retried, unless its status is 400.
pub client_error_retried_iff :
    (s : ℕ) (ea eg eo : SdkError)
    → IsClientStatus s
    → ea.anthropic ≡ api_error
    → ea.status ≡ some s
    → eg.is_object ≡ true
    → eg.status ≡ some s
    → name_looks_like_timeout eg ≡ false
    → eo.is_openai_api_error ≡ true
    → eo.status ≡ some s
    → (is_retryable_http_error (to_http_exception (map_anthropic_sdk_error ea)) default_on_status
        ≡ false)
      × (is_retryable_http_error (to_http_exception (map_google_gen_ai_error eg)) default_on_status
          ≡ false)
      × ((is_retryable_http_error (to_http_exception (map_openai_sdk_error eo)) default_on_status
            ≡ true)
          ↔ (s ≢ 400))
unfolding map_anthropic_sdk_error map_google_gen_ai_error map_openai_sdk_error map_status
    map_anthropic_class map_openai_status map_openai_rest to_http_exception is_retryable_http_error
    is_rate_limit_status is_auth_error is_timeout_status is_server_error is_client_error
    is_invalid_request_status http_error read_numeric_status
client_error_retried_iff s ea eg eo h cls sa obj sg late api so =
    let lo = h.least in
    let hi = h.most in
    let other = h.other in (ground arith, ground arith, (ground arith, ground arith))
