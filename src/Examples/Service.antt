-- ===== src/Examples/Service.antt =====
-- The chat service at concrete inputs.
use ai_provider_gateway.Prelude.{◌≡◌, refl, false, none, [], arith}
use ai_provider_gateway.Prelude.Texts.{units, trim}
use ai_provider_gateway.Errors.{returned, threw, http, Response}
use ai_provider_gateway.Errors
use ai_provider_gateway.Errors.{is_provider_rate_limit_error}
use ai_provider_gateway.Params.Numbers.{naturals}
use ai_provider_gateway.Params.Resolve.{
  resolve_provider_call_options, check_keys, check_budget, effective,
}
use ai_provider_gateway.Resilience.Policy.{
  build_retry_policy_from_resolved, assert_no_fallback_cycle, is_retryable_http_error,
  compute_backoff_delay_ms,
}
use ai_provider_gateway.Resilience.Executor.{
  done, ResilientExecutionResult, execute_with_retry_and_fallback, try_alias, run_with_timeout,
}
use ai_provider_gateway.Providers.Registry.{
  resolve, resolve_model_alias, resolve_provider_entry, resolve_fallback, resolve_policy,
}
use ai_provider_gateway.Providers.Validation.{validate_tooling, validate_thinking}
use ai_provider_gateway.RateLimit.Service.{check_cooldown}
use ai_provider_gateway.Chat.Request.{is_tooling_request, get_or_create_conversation_id}
use ai_provider_gateway.Cache.Exact.{IsReadable}
use ai_provider_gateway.Chat.Warnings.{build_generation_warnings}
use ai_provider_gateway.Facade.Events.{map_stop_reason_to_finish_reason}
use ai_provider_gateway.Cache.Identity.{is_cached_chat_allowed_for_model_alias}
use ai_provider_gateway.Chat.ProviderInput.{build_provider_input_for_alias}
use ai_provider_gateway.Chat.Ingress.{validate_chat_ingress, check_messages}
use ai_provider_gateway.Chat.Answer.{
  should_store_chat_response, build_chat_response, to_cached_chat_response,
}
use ai_provider_gateway.Chat.Deployment.{GatewayState}
use ai_provider_gateway.Chat.Pipeline.{exact, is_cache_allowed}
use ai_provider_gateway.Chat.Service.{
  Incoming, ChatExecutionPrep, CompleteOnceResult, cached, answer_of, validate,
  prepare_request_for_execution, run_provider, complete_chat_and_store, execute_chat,
}
use ai_provider_gateway.Chat.Service.Cooling.{execute_chat-complete_chat_and_store}
use ai_provider_gateway.Chat.Service.Keeping.{IsKept}
use ai_provider_gateway.Chat.Service.Caching.{execute_chat_served}
use ai_provider_gateway.Examples.Chat.{
  gateway, idle, incoming_for, prep_for, request_for, resolved_for, hello,
}

valid : validate gateway (incoming_for "good") ≡ returned (prep_for "good" "m-good")
unfolding validate validate_chat_ingress check_messages resolve resolve_model_alias
    resolve_provider_entry validate_tooling is_tooling_request resolve_provider_call_options
    check_keys check_budget validate_thinking effective resolve_fallback resolve_policy
    get_or_create_conversation_id
valid = refl

prepared :
    prepare_request_for_execution gateway (incoming_for "good") idle
    ≡ returned (prep_for "good" "m-good")
unfolding prepare_request_for_execution check_cooldown validate_chat_ingress check_messages resolve
    resolve_model_alias resolve_provider_entry validate_tooling is_tooling_request
    resolve_provider_call_options check_keys check_budget validate_thinking effective
    resolve_fallback resolve_policy get_or_create_conversation_id
prepared = refl

valid_busy : validate gateway (incoming_for "busy") ≡ returned (prep_for "busy" "m-busy")
unfolding validate validate_chat_ingress check_messages resolve resolve_model_alias
    resolve_provider_entry validate_tooling is_tooling_request resolve_provider_call_options
    check_keys check_budget validate_thinking effective resolve_fallback resolve_policy
    get_or_create_conversation_id
valid_busy = refl

-- Three calls and two delays.
busy_ended :
    (complete_chat_and_store gateway (incoming_for "busy") (prep_for "busy" "m-busy") none idle).0
    ≡ done 1800 (threw (http 429 (Errors.text [])))
unfolding complete_chat_and_store execute_with_retry_and_fallback assert_no_fallback_cycle
    is_tooling_request try_alias build_retry_policy_from_resolved run_with_timeout resolve
    resolve_model_alias resolve_provider_entry resolve_provider_call_options check_keys check_budget
    build_provider_input_for_alias is_retryable_http_error compute_backoff_delay_ms
busy_ended = refl

abbrev cooling : GatewayState gateway
cooling =
    record (complete_chat_and_store gateway (incoming_for "busy") (prep_for "busy" "m-busy") none
      idle).1 { now = 3000; providers = 17 }

-- The other alias of the same provider is refused too.
execute_chat-complete_chat_and_store_example :
    (r : Response) × (execute_chat gateway (incoming_for "good") cooling
      ≡ (done 0 (threw (http 429 r)), cooling))
unfolding is_provider_rate_limit_error
execute_chat-complete_chat_and_store_example =
    execute_chat-complete_chat_and_store gateway (incoming_for "busy") (incoming_for "good")
      (prep_for "busy" "m-busy") (prep_for "good" "m-good") none idle cooling 1800
      (http 429 (Errors.text [])) (refl, refl, refl) busy_ended refl refl valid refl refl refl
      (omega arith)

abbrev hello_result : ResilientExecutionResult (CompleteOnceResult naturals)
hello_result = record {
  value = record { response = hello; resolved = resolved_for "good" "m-good" };
  used_alias = "good";
  attempts = 1;
  did_fallback = false;
}

ran :
    run_provider gateway (request_for "good") (resolved_for "good" "m-good") 0
    ≡ (done 100 (returned hello_result), 1)
unfolding run_provider execute_with_retry_and_fallback assert_no_fallback_cycle is_tooling_request
    try_alias build_retry_policy_from_resolved run_with_timeout resolve resolve_model_alias
    resolve_provider_entry resolve_provider_call_options check_keys check_budget
    build_provider_input_for_alias resolve_fallback resolve_policy
ran = refl

hello-IsKept :
    IsKept gateway
      (incoming_for "good")
      (prep_for "good" "m-good")
      (done 100 (returned hello_result), 1)
unfolding is_cache_allowed is_tooling_request is_cached_chat_allowed_for_model_alias
    should_store_chat_response build_chat_response map_stop_reason_to_finish_reason trim
hello-IsKept = (refl, (refl, refl))

abbrev warm : GatewayState gateway
warm =
    record (complete_chat_and_store gateway (incoming_for "good") (prep_for "good" "m-good") none
      idle).1 { now = 2000; cooldowns = idle.cooldowns }

abbrev asked_again : Incoming naturals
asked_again = record (incoming_for "good") {
  request_id = "r-2";
  new_conversation_id = units "c-2";
  new_response_id = units "gw_2";
}

abbrev prep_again : ChatExecutionPrep naturals
prep_again = record (prep_for "good" "m-good") { response_conversation_id = units "c-2" }

prepared_again : prepare_request_for_execution gateway asked_again warm ≡ returned prep_again
unfolding prepare_request_for_execution check_cooldown validate_chat_ingress check_messages resolve
    resolve_model_alias resolve_provider_entry validate_tooling is_tooling_request
    resolve_provider_call_options check_keys check_budget validate_thinking effective
    resolve_fallback resolve_policy get_or_create_conversation_id
prepared_again = refl

hello-IsReadable : IsReadable gateway.codec (
    to_cached_chat_response
      (units "today")
      (answer_of gateway (incoming_for "good") (prep_for "good" "m-good") hello_result))
unfolding to_cached_chat_response build_chat_response map_stop_reason_to_finish_reason
    build_generation_warnings
hello-IsReadable = refl

execute_chat_served_example : execute_chat gateway asked_again warm ≡ (
  done 0 (
      returned (
        cached
          (to_cached_chat_response
            (units "today")
            (answer_of gateway (incoming_for "good") (prep_for "good" "m-good") hello_result))
          (units "c-2")
          exact
          "r-2")),
  warm,
)
execute_chat_served_example =
    execute_chat_served gateway (incoming_for "good") "r-2" (units "c-2") (units "gw_2")
      (prep_for "good" "m-good") prep_again none idle warm 100 hello_result 1 (refl, refl, refl) ran
      hello-IsKept hello-IsReadable (omega arith) refl prepared_again refl refl (omega arith)
      (omega arith)
