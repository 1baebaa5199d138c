-- ===== src/Chat.antt =====
-- The chat service of src/chat: what happens to a request between its controller and the providers.
pub mod Request
pub mod Ingress
pub mod Warnings
pub mod Answer
pub mod ProviderInput
pub mod Deployment
pub mod Pipeline
pub mod Service
pub mod Singleflight
pub mod Streaming
