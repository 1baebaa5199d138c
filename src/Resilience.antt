-- ===== src/Resilience.antt =====
-- Retry, timeout and fallback around a provider call: src/chat/resilience/, the retry policy of
-- src/chat/helpers/retry-policy.ts and its defaults in src/common/retry-policy-defaults.ts.
pub mod Policy
pub mod Executor
pub mod Attempts
pub mod Deadline
pub mod Fallback
pub mod Exhausted
pub mod Preserving
