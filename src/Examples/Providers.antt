-- ===== src/Examples/Providers.antt =====
-- Provider errors and the retry loop at concrete inputs.
use ai_provider_gateway.Prelude.{
  ℕ, ◌+◌, ◌*◌, ◌≡◌, ◌≢◌, ◌↔◌, ◌⊎◌, refl, true, false, none, some, String, [], ◌∷◌, str_eq, arith,
  if◌then◌else◌, ◌==◌,
}
use ai_provider_gateway.Prelude.Texts.{Text, units}
use ai_provider_gateway.Prelude.Json.{Fields, field, end, lit}
use ai_provider_gateway.Errors.{http, Response, text, returned, threw, is_provider_rate_limit_error}
use ai_provider_gateway.Errors.Sdk.{
  SdkError, rate_limit_error, api_error, not_anthropic, map_anthropic_sdk_error,
  map_google_gen_ai_error, map_openai_sdk_error, to_http_exception, name_looks_like_timeout,
  read_numeric_status,
}
use ai_provider_gateway.Errors.Laws.{cooldown_trigger_iff, client_error_retried_iff}
use ai_provider_gateway.Resilience.Policy.{RetryPolicy, is_retryable_http_error, default_on_status}
use ai_provider_gateway.Resilience.Executor.{Call, settles, hangs, execute_with_retry_and_fallback}
use ai_provider_gateway.Resilience.Attempts.{logged}
use ai_provider_gateway.Resilience.Deadline.{EndsBy, max_delay, execute-EndsBy}
use ai_provider_gateway.Resilience.Fallback.{Explained, execute-Explained}

abbrev message_of : ℕ → Response → Text
message_of status response = []

abbrev patient : RetryPolicy
patient = record {
  max_attempts = 2;
  on_status = 503 ∷ 504 ∷ [];
  timeout_ms = some 100;
  initial_delay_ms = some 10;
  max_delay_ms = some 15;
}

-- The alias "slow" never answers; each other alias fails once with 503 and then answers.
abbrev moody : String → ℕ → ℕ → Call ℕ × ℕ
moody alias attempt w =
    if str_eq alias "slow"
    then (hangs, w)
    else if attempt == 1
    then (settles 20 (threw (http 503 (text []))), w + 1)
    else (settles 30 (returned w), w + 1)

execute-EndsBy_example :
    EndsBy message_of moody patient
      (2 * (2 * (100 + max_delay patient)))
      (execute_with_retry_and_fallback message_of moody patient "slow" (some "quick") 0)
execute-EndsBy_example = execute-EndsBy message_of moody patient 99 "slow" (some "quick") 0 refl

execute-Explained_example : Explained message_of moody patient "slow" (some "quick") (
    execute_with_retry_and_fallback message_of (logged moody) patient "slow" (some "quick") (0, []))
execute-Explained_example = execute-Explained message_of moody patient "slow" (some "quick") 0

abbrev refused_body : Fields
refused_body = field "code" (lit "PROVIDER_TIMEOUT") (field "message" (lit "late") end)

-- A model that is not there, as the three SDKs report it.
abbrev of_anthropic : SdkError
of_anthropic = record {
  is_object = true;
  is_error = true;
  anthropic = api_error;
  is_openai_api_error = false;
  name = "NotFoundError";
  message = some (units "no such model");
  status = some 404;
  response_status = none;
}

abbrev of_google : SdkError
of_google = record of_anthropic { anthropic = not_anthropic; name = "ApiError" }

abbrev of_openai : SdkError
of_openai = record of_anthropic { anthropic = not_anthropic; is_openai_api_error = true }

cooldown_trigger_iff_example :
    ((is_provider_rate_limit_error (to_http_exception (map_anthropic_sdk_error of_anthropic))
        ≡ true)
      ↔ ((api_error ≡ rate_limit_error)
          ⊎ ((api_error ≡ api_error) × (of_anthropic.status ≡ some 429))))
    × ((is_provider_rate_limit_error (to_http_exception (map_google_gen_ai_error of_anthropic))
          ≡ true)
        ↔ ((name_looks_like_timeout of_anthropic ≡ false)
            × (read_numeric_status of_anthropic ≡ some 429)))
    × ((is_provider_rate_limit_error (to_http_exception (map_openai_sdk_error of_anthropic)) ≡ true)
        ↔ ((false ≡ true) × (of_anthropic.status ≡ some 429)))
cooldown_trigger_iff_example = cooldown_trigger_iff of_anthropic

client_error_retried_iff_example :
    (is_retryable_http_error
        (to_http_exception (map_anthropic_sdk_error of_anthropic))
        default_on_status
      ≡ false)
    × (is_retryable_http_error
          (to_http_exception (map_google_gen_ai_error of_google))
          default_on_status
        ≡ false)
    × ((is_retryable_http_error
            (to_http_exception (map_openai_sdk_error of_openai))
            default_on_status
          ≡ true)
        ↔ (◌≢◌ {A = ℕ} 404 400))
unfolding name_looks_like_timeout
client_error_retried_iff_example =
    client_error_retried_iff 404 of_anthropic of_google of_openai
      (record { least = omega arith; most = omega arith; other = refl }) refl refl refl refl refl
      refl refl
