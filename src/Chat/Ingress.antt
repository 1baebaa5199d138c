-- ===== src/Chat/Ingress.antt =====
-- src/chat/validation/chat-ingress.validator.ts and chat-ingress.constants.ts
use ai_provider_gateway.Prelude.{
  ℕ, ◌+◌, ◌≤◌, ◌≡◌, ◌↔◌, ◌⊎◌, inl, inr, refl, List, [], ◌∷◌, ◌++◌, String, length, All, arith, ltb,
  ltb→lt, Bool-cases, if◌then◌else◌,
}
use ai_provider_gateway.Prelude.Texts.{units, show_nat}
use ai_provider_gateway.Prelude.Json.{field, end, str, obj, single, lit}
use ai_provider_gateway.Errors.{
  Thrown, http, ThrewHttp, Settled, returned, threw, ◌>>◌, throw_if, payload, validation_failed,
}
use ai_provider_gateway.Params.Numbers.{Numbers}
use ai_provider_gateway.Chat.Request.{Role, user, assistant, tool, role_name, Message, ChatRequest}

pub data IngressProfile : Type 0 where
  native facade_openai facade_anthropic : IngressProfile

abbrev profile_name : IngressProfile → String
profile_name native = "native"
profile_name facade_openai = "facade-openai"
profile_name facade_anthropic = "facade-anthropic"

pub record IngressLimits : Type 0 where
  pub max_messages : ℕ
  pub max_content_user : ℕ
  pub max_content_assistant : ℕ
  pub max_content_tool : ℕ

abbrev facade_limits : IngressLimits
facade_limits = record {
  max_messages = 15000;
  max_content_user = 128000;
  max_content_assistant = 128000;
  max_content_tool = 128000;
}

abbrev pub ingress_limits : IngressProfile → IngressLimits
ingress_limits native = record {
  max_messages = 150;
  max_content_user = 3000;
  max_content_assistant = 3000;
  max_content_tool = 32000;
}
ingress_limits facade_openai = facade_limits
ingress_limits facade_anthropic = facade_limits

abbrev pub max_content : IngressLimits → Role → ℕ
max_content limits tool = limits.max_content_tool
max_content limits user = limits.max_content_user
max_content limits assistant = limits.max_content_assistant

unfoldable pub too_many_messages : IngressProfile → ℕ → ℕ → Thrown
unfolding payload
too_many_messages profile most count = http 400 (
    payload validation_failed
      (units "Too many messages for "
        ++ (units (profile_name profile) ++ (units ". Maximum allowed: " ++ show_nat most)))
      (single (
        obj (
          field "field" (lit "messages") (
            field "issue"
              (str (
                units "Array length "
                ++ (show_nat count ++ (units " exceeds maximum " ++ show_nat most))))
              end)))))

unfoldable pub content_too_long : IngressProfile → ℕ → Role → ℕ → ℕ → Thrown
unfolding payload
content_too_long profile i role most count = http 400 (
    payload validation_failed
      (units "Message content too long for "
        ++ (units (profile_name profile)
            ++ (units " and role " ++ (units (role_name role) ++ units "."))))
      (single (
        obj (
          field "field" (str (units "messages[" ++ (show_nat i ++ units "].content"))) (
            field "issue"
              (str (
                units "Content length "
                ++ (show_nat count ++ (units " exceeds maximum " ++ show_nat most))))
              end)))))

-- The loop over the messages, from index `i` on.
unfoldable pub check_messages : IngressProfile → ℕ → List Message → Settled (Unit {0})
check_messages profile i [] = returned tt
check_messages profile i (m ∷ ms) =
    let most = max_content (ingress_limits profile) m.role in
    let rest = check_messages profile (i + 1) ms in
    if ltb most (length m.content)
    then threw (content_too_long profile i m.role most (length m.content))
    else rest

unfoldable pub validate_chat_ingress :
    {n : Numbers} → ChatRequest n → IngressProfile → Settled (Unit {0})
validate_chat_ingress dto profile =
    let most = (ingress_limits profile).max_messages in
    throw_if (ltb most (length dto.messages)) (too_many_messages profile most (length dto.messages))
    >> check_messages profile 0 dto.messages

abbrev pub Fits : IngressProfile → Message → Type 0
Fits profile m = length m.content ≤ max_content (ingress_limits profile) m.role

check_messages_outcome :
    (profile : IngressProfile) (i : ℕ) (ms : List Message)
    → ((check_messages profile i ms ≡ returned tt) × All (Fits profile) ms)
      ⊎ (ThrewHttp 400 (check_messages profile i ms) × (All (Fits profile) ms → ⊥))
unfolding check_messages content_too_long
check_messages_outcome profile i [] = inl (refl, tt)
check_messages_outcome profile i (m ∷ ms) =
    elim (Bool-cases (ltb (max_content (ingress_limits profile) m.role) (length m.content))) [
      | inl long ↦ rw long (inr ((_, refl), λ (fits, rest). omega (arith, ltb→lt _ _ long)))
      | inr short ↦ rw short (elim (check_messages_outcome profile (i + 1) ms) [
        | inl (passed, all) ↦ inl (passed, (ground arith, all))
        | inr (thrown, some_long) ↦ inr (thrown, λ (fits, rest). some_long rest)
      ])
    ]

-- The check of a request lets exactly those requests through that have no more messages than the
-- profile allows and no message longer than the profile allows for its role; to every other it answers
-- HTTP 400.
pub validate_chat_ingress_outcome :
    (n : Numbers) (dto : ChatRequest n) (profile : IngressProfile)
    → ((validate_chat_ingress dto profile ≡ returned tt) ↔ (
        (length dto.messages ≤ (ingress_limits profile).max_messages)
        × All (Fits profile) dto.messages))
      × ((validate_chat_ingress dto profile ≡ returned tt)
          ⊎ ThrewHttp 400 (validate_chat_ingress dto profile))
unfolding validate_chat_ingress too_many_messages
validate_chat_ingress_outcome n dto profile =
    elim (Bool-cases (ltb (ingress_limits profile).max_messages (length dto.messages))) [
      | inl many ↦
          rw many ((λ h. cc, λ (few, rest). absurd (omega (arith, ltb→lt _ _ many))), inr (_, refl))
      | inr few ↦ rw few (elim (check_messages_outcome profile 0 dto.messages) [
        | inl (passed, all) ↦ ((λ h. (ground arith, all), λ h. passed), inl passed)
        | inr ((r, thrown), some_long) ↦ (
          (λ h. absurd (let no = rw thrown at h in cc), λ (short, all). absurd (some_long all)),
          inr (r, thrown),
        )
      ])
    ]
