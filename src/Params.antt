-- ===== src/Params.antt =====
-- Generation parameters of a provider call: src/chat/helpers/resolve-provider-call-options.ts and
-- src/chat/types/override-keys.type.ts.
pub mod Numbers
pub mod Resolve
pub mod Laws
pub mod Outcome
