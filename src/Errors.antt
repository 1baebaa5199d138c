-- ===== src/Errors.antt =====
-- The error values of the gateway: src/common/errors/api-error.code.ts, the HttpException bodies
-- that the services throw, and src/common/errors/errors.utils.ts.
pub mod Sdk
pub mod Laws
use ai_provider_gateway.Prelude.{
  ℕ, ◌≡◌, Bool, true, false, ◌&&◌, ◌||◌, not, Option, none, some, String, List, leb, ◌==◌,
  if◌then◌else◌,
}
use ai_provider_gateway.Prelude.Texts.{Text, units}
use ai_provider_gateway.Prelude.Json.{Json, lit, str, arr, nil, Fields, field, end}

pub data ApiErrorCode : Type 0 where
  validation_failed model_alias_not_found model_not_allowed provider_unsupported : ApiErrorCode
  provider_auth_failed provider_rate_limited rate_limited provider_timeout : ApiErrorCode
  provider_unavailable streaming_not_supported gateway_key_not_configured : ApiErrorCode
  gateway_key_missing gateway_key_invalid internal_server_error : ApiErrorCode
  tools_not_supported thinking_not_supported : ApiErrorCode

-- The string that stands for a code in a response body.
unfoldable pub code_name : ApiErrorCode → String
code_name validation_failed = "VALIDATION_FAILED"
code_name model_alias_not_found = "MODEL_ALIAS_NOT_FOUND"
code_name model_not_allowed = "MODEL_NOT_ALLOWED"
code_name provider_unsupported = "PROVIDER_UNSUPPORTED"
code_name provider_auth_failed = "PROVIDER_AUTH_FAILED"
code_name provider_rate_limited = "PROVIDER_RATE_LIMITED"
code_name rate_limited = "RATE_LIMITED"
code_name provider_timeout = "PROVIDER_TIMEOUT"
code_name provider_unavailable = "PROVIDER_UNAVAILABLE"
code_name streaming_not_supported = "STREAMING_NOT_SUPPORTED"
code_name gateway_key_not_configured = "GATEWAY_KEY_NOT_CONFIGURED"
code_name gateway_key_missing = "GATEWAY_KEY_MISSING"
code_name gateway_key_invalid = "GATEWAY_KEY_INVALID"
code_name internal_server_error = "INTERNAL_SERVER_ERROR"
code_name tools_not_supported = "TOOLS_NOT_SUPPORTED"
code_name thinking_not_supported = "THINKING_NOT_SUPPORTED"

-- `getResponse()` of an HttpException: an object or a string.
pub data Response : Type 0 where
  object : Fields → Response
  text : Text → Response

-- What a `catch` clause can receive.
pub data Thrown : Type 0 where
  http : ℕ → Response → Thrown
  error : Text → Thrown
  thrown_text : Text → Thrown
  thrown_undefined : Thrown

-- `{ code, message, details }`
unfoldable pub payload : ApiErrorCode → Text → Json → Response
unfolding code_name
payload code message details = object (
    field "code" (lit (code_name code))
      (field "message" (str message) (field "details" details end)))

-- `new HttpException({ code, message, details: [] }, status)`
unfoldable pub http_error : ℕ → ApiErrorCode → Text → Thrown
unfolding payload
http_error status code message = http status (payload code message (arr nil))

-- `{ statusCode, code, message, requestId, details: [] }`
unfoldable pub request_error : ℕ → ApiErrorCode → Text → String → Thrown
unfolding code_name
request_error status code message request_id = http status (
    object (
      field "statusCode" (Json.num status) (
        field "code" (lit (code_name code)) (
          field "message" (str message)
            (field "requestId" (lit request_id) (field "details" (arr nil) end))))))

-- What an async function settles with.
pub data Settled {ℓ} (A : Type ℓ) : Type ℓ where
  returned : A → Settled A
  threw : Thrown → Settled A

infixl 5 ◌>>=◌ ◌>>◌
abbrev pub ◌>>=◌ {ℓ κ} : {A : Type ℓ} {B : Type κ} → Settled A → (A → Settled B) → Settled B
returned a >>= f = f a
threw e >>= f = threw e

abbrev pub ◌>>◌ {ℓ} : {B : Type ℓ} → Settled (Unit {0}) → Settled B → Settled B
m >> k = m >>= λ _. k

-- `if (test) throw e;`
abbrev pub throw_if : Bool → Thrown → Settled (Unit {0})
throw_if true e = threw e
throw_if false e = returned tt

-- An HTTP error with this status was thrown.
abbrev pub ThrewHttp {ℓ} : {A : Type ℓ} → ℕ → Settled A → Type ℓ
ThrewHttp status m = (r : Response) × (m ≡ threw (http status r))

-- errors.utils.ts; `!!status` is false for undefined and for 0.
unfoldable pub is_provider_rate_limit_error : Thrown → Bool
is_provider_rate_limit_error (http status response) = status == 429
is_provider_rate_limit_error e = false

abbrev truthy : Option ℕ → (ℕ → Bool) → Bool
truthy none test = false
truthy (some status) test = not (status == 0) && test status

unfoldable pub is_rate_limit_status : Option ℕ → Bool
is_rate_limit_status status = truthy status (λ s. s == 429)

unfoldable pub is_client_error : Option ℕ → Bool
is_client_error status = truthy status (λ s. leb 400 s && leb s 499)

unfoldable pub is_auth_error : Option ℕ → Bool
is_auth_error status = truthy status (λ s. s == 401 || s == 403)

unfoldable pub is_timeout_status : Option ℕ → Bool
is_timeout_status status = truthy status (λ s. s == 408 || s == 504)

unfoldable pub is_server_error : Option ℕ → Bool
is_server_error status = truthy status (λ s. leb 500 s && leb s 599)

unfoldable pub is_invalid_request_status : Option ℕ → Bool
is_invalid_request_status status = truthy status (λ s. s == 400)
