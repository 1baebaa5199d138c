-- ===== src/Errors/Sdk.antt =====
-- The mappers from errors of the provider SDKs: src/common/errors/provider-error.mapper.ts, its
-- helpers, and src/providers/openai/mappers/openai-error.mapper.ts.
use ai_provider_gateway.Prelude.{
  ℕ, Bool, false, ◌&&◌, ◌||◌, not, Option, none, some, String, str_eq, if◌then◌else◌,
}
use ai_provider_gateway.Prelude.Texts.{Text, units, trim, is_empty}
use ai_provider_gateway.Errors.{
  ApiErrorCode, provider_rate_limited, provider_auth_failed, validation_failed, provider_timeout,
  provider_unavailable, Thrown, http_error, is_rate_limit_status, is_client_error, is_auth_error,
  is_timeout_status, is_server_error, is_invalid_request_status,
}

-- The most specific class of the Anthropic SDK that a value is an instance of.
pub data AnthropicClass : Type 0 where
  rate_limit_error authentication_error bad_request_error api_error not_anthropic : AnthropicClass

-- What the mappers read of an `unknown` value. `status` and `response_status` are `status` and
-- `response.status` where these are finite numbers, `message` is the property where it is a string.
pub record SdkError : Type 0 where
  pub is_object : Bool
  pub is_error : Bool
  pub anthropic : AnthropicClass
  pub is_openai_api_error : Bool
  pub name : String
  pub message : Option Text
  pub status : Option ℕ
  pub response_status : Option ℕ

pub record MappedProviderError : Type 0 where
  pub http_status : ℕ
  pub code : ApiErrorCode
  pub message : Text

unfoldable pub read_numeric_status : SdkError → Option ℕ
read_numeric_status e =
    if e.is_object then elim e.status [ some s ↦ some s | none ↦ e.response_status ] else none

abbrev has_message : Option Text → Bool
has_message none = false
has_message (some m) = not (is_empty (trim m))

abbrev message_or : Option Text → Text → Text
message_or none fallback = fallback
message_or (some m) fallback = m

unfoldable pub read_error_message : SdkError → Text → Text
read_error_message e fallback =
    if e.is_error && has_message e.message
    then message_or e.message fallback
    else if e.is_object && has_message e.message
    then message_or e.message fallback
    else fallback

unfoldable pub name_looks_like_timeout : SdkError → Bool
name_looks_like_timeout e =
    let name = if e.is_error then e.name else "" in
    str_eq name "AbortError" || str_eq name "TimeoutError"

abbrev pub mapped : ℕ → ApiErrorCode → Text → MappedProviderError
mapped status code message = record { http_status = status; code = code; message = message }

-- The status ladder of the Anthropic and the Google mapper, which is written out in both.
unfoldable pub map_status : Option ℕ → Text → MappedProviderError
map_status status message =
    if is_rate_limit_status status
    then mapped 429 provider_rate_limited message
    else if is_auth_error status
    then mapped 401 provider_auth_failed message
    else if is_timeout_status status
    then mapped 504 provider_timeout message
    else if is_server_error status
    then mapped 502 provider_unavailable message
    else if is_client_error status
    then mapped 400 validation_failed message
    else mapped 502 provider_unavailable message

-- `typeof error.status === 'number' ? error.status : 502`
abbrev pub or_bad_gateway : Option ℕ → ℕ
or_bad_gateway none = 502
or_bad_gateway (some s) = s

unfoldable pub map_anthropic_class : AnthropicClass → SdkError → Text → MappedProviderError
map_anthropic_class rate_limit_error e message = mapped 429 provider_rate_limited message
map_anthropic_class authentication_error e message = mapped 401 provider_auth_failed message
map_anthropic_class bad_request_error e message = mapped 400 validation_failed message
map_anthropic_class api_error e message = map_status (some (or_bad_gateway e.status)) message
map_anthropic_class not_anthropic e message =
    if name_looks_like_timeout e
    then mapped 504 provider_timeout message
    else mapped 502 provider_unavailable message

unfoldable pub map_anthropic_sdk_error : SdkError → MappedProviderError
map_anthropic_sdk_error e =
    map_anthropic_class e.anthropic e (read_error_message e (units "Anthropic request failed."))

unfoldable pub map_google_gen_ai_error : SdkError → MappedProviderError
map_google_gen_ai_error e =
    let message = read_error_message e (units "Google GenAI request failed.") in
    if name_looks_like_timeout e
    then mapped 504 provider_timeout message
    else map_status (read_numeric_status e) message

-- The part of the OpenAI mapper behind its ladder of API statuses.
unfoldable pub map_openai_rest : SdkError → Text → MappedProviderError
map_openai_rest e message =
    if name_looks_like_timeout e || is_timeout_status (read_numeric_status e)
    then mapped 504 provider_timeout message
    else mapped 502 provider_unavailable message

unfoldable pub map_openai_status : Option ℕ → SdkError → Text → MappedProviderError
map_openai_status status e message =
    if is_rate_limit_status status
    then mapped 429 provider_rate_limited message
    else if is_auth_error status
    then mapped 401 provider_auth_failed message
    else if is_timeout_status status
    then mapped 504 provider_timeout message
    else if is_server_error status
    then mapped 502 provider_unavailable message
    else if is_invalid_request_status status
    then mapped 400 validation_failed message
    else map_openai_rest e message

unfoldable pub map_openai_sdk_error : SdkError → MappedProviderError
map_openai_sdk_error e =
    let message = read_error_message e (units "OpenAI request failed.") in
    if e.is_openai_api_error
    then map_openai_status (some (or_bad_gateway e.status)) e message
    else map_openai_rest e message

unfoldable pub to_http_exception : MappedProviderError → Thrown
to_http_exception m = http_error m.http_status m.code m.message
