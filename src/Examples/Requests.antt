-- ===== src/Examples/Requests.antt =====
-- Requests of an OpenAI client at concrete inputs.
use ai_provider_gateway.Prelude.{none, some, List, [], ◌∷◌}
use ai_provider_gateway.Prelude.Texts.{units}
use ai_provider_gateway.Prelude.Json.{end}
use ai_provider_gateway.Facade.Events.{GatewayToolCall}
use ai_provider_gateway.Providers.OpenAi.{
  MessageParam, system_param, user_param, assistant_param, tool_param, ToolParam,
}
use ai_provider_gateway.Facade.OpenAi.Requests.Written.{Labels}

abbrev weather : GatewayToolCall
weather = record { id = "call_1"; name = "weather"; arguments = units "{\"city\":\"Oslo\"}" }

abbrev plain : Labels
plain = record { name = none; refusal = none }

abbrev conversation : List (MessageParam × Labels)
conversation =
    (system_param (units "Be brief."), plain)
    ∷ (user_param (units "Is it raining?"), record { name = some (units "ann"); refusal = none })
    ∷ (assistant_param none (weather ∷ []), plain)
    ∷ (tool_param "call_1" (units "yes"), plain)
    ∷ []

abbrev forecast : ToolParam
forecast = record {
  name = "weather";
  description = some (units "The weather now.");
  parameters = end;
}
