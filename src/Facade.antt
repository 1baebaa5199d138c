-- ===== src/Facade.antt =====
-- The HTTP facades: how gateway stream events become the events of another vendor's contract.
pub mod Events
pub mod Anthropic
pub mod OpenAi
