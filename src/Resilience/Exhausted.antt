-- ===== src/Resilience/Exhausted.antt =====
-- What is left of the primary error when both aliases have failed: `toExhaustedException` of
-- src/chat/resilience/resilient-executor.ts.
use ai_provider_gateway.Prelude.{
  ℕ, ◌≡◌, ◌≢◌, refl, true, Option, some, String, str_eq, eq_iff, arith, if◌then◌else◌,
}
use ai_provider_gateway.Prelude.Texts.{Text}
use ai_provider_gateway.Prelude.Json.{Json, Fields, end, field, has_field, get_field, set_field}
use ai_provider_gateway.Errors.{Thrown, http, Response, object}
use ai_provider_gateway.Resilience.Policy.{RetryPolicy}
use ai_provider_gateway.Resilience.Executor.{exhausted_body, to_exhausted_exception}

get_field-set_field :
    (k j : String) (v : Json) (fs : Fields)
    → get_field k (set_field j v fs) ≡ (if str_eq j k then some v else get_field k fs)
unfolding get_field set_field
get_field-set_field k j v end = refl
get_field-set_field k j v (field i w fs) =
    ground (arith, eq_iff i j, eq_iff i k, eq_iff j k, get_field-set_field k j v fs)

-- Both aliases have failed, and the primary error is an HTTP error whose body has a `code`: the
-- error thrown has the same status and, but for `message` and `details`, the same body fields.
pub to_exhausted_exception-keeps :
    (http_message : ℕ → Response → Text) (status : ℕ) (fields : Fields) (second : Thrown)
    (retry : RetryPolicy) (primary : String) (fallback : Option String) (key : String)
    → has_field "code" fields ≡ true
    → key ≢ "message"
    → key ≢ "details"
    → (body : Fields) × (to_exhausted_exception http_message
          (http status (object fields))
          second
          retry
          primary
          fallback
        ≡ http status (object body))
      × (get_field key body ≡ get_field key fields)
unfolding to_exhausted_exception
to_exhausted_exception-keeps http_message status fields second retry primary fallback key coded m
      d =
    (
      exhausted_body retry primary fallback fields,
      rw coded,
      rw get_field-set_field
          (rw get_field-set_field (ground (arith, eq_iff "details" key, eq_iff "message" key))),
    )
