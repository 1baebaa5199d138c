-- ===== src/RateLimit.antt =====
-- src/rate-limit/smart-rate-limiter.service.ts over Redis, and its guard.
pub mod Redis
pub mod Bucket
pub mod Service
pub mod Bounds
pub mod Streams
pub mod Cooldown
pub mod Guard
