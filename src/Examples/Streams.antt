-- ===== src/Examples/Streams.antt =====
-- A stream whose first attempt breaks off.
use ai_provider_gateway.Prelude.{◌≡◌, refl, none, [], ◌∷◌}
use ai_provider_gateway.Prelude.Texts.{units}
use ai_provider_gateway.Facade.Events.{SseEvent}
use ai_provider_gateway.Facade.Events
use ai_provider_gateway.Chat.Streaming.{StreamOnceResult, done_of, execute_stream_miss}
use ai_provider_gateway.Params.Resolve.{resolve_provider_call_options, check_keys, check_budget}
use ai_provider_gateway.Resilience.Policy.{
  build_retry_policy_from_resolved, assert_no_fallback_cycle, is_retryable_http_error,
}
use ai_provider_gateway.Resilience.Executor.{
  execute_with_retry_and_fallback, try_alias, run_with_timeout,
}
use ai_provider_gateway.Providers.Registry.{resolve, resolve_model_alias, resolve_provider_entry}
use ai_provider_gateway.Chat.Request.{is_tooling_request}
use ai_provider_gateway.Chat.ProviderInput.{build_provider_input_for_alias}
use ai_provider_gateway.Params.Numbers.{naturals}
use ai_provider_gateway.Examples.Chat.{gateway, idle, incoming_for, prep_for, resolved_for, final}

abbrev answered : StreamOnceResult naturals
answered = record {
  assembled_text = units "hello";
  final = final;
  resolved = resolved_for "good" "m-good";
}

-- The client is sent "hel" twice.
broken_off :
    (execute_stream_miss gateway
      (incoming_for "good")
      (prep_for "good" "m-good")
      none
      (units "gw_1")
      idle).0
    ≡ Events.meta (units "gw_1")
      ∷ Events.delta (units "hel")
      ∷ Events.delta (units "hel")
      ∷ Events.delta (units "lo")
      ∷ Events.done (done_of gateway answered)
      ∷ []
unfolding execute_stream_miss execute_with_retry_and_fallback assert_no_fallback_cycle
    is_tooling_request try_alias build_retry_policy_from_resolved run_with_timeout resolve
    resolve_model_alias resolve_provider_entry resolve_provider_call_options check_keys check_budget
    build_provider_input_for_alias is_retryable_http_error
broken_off = refl
