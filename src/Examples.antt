-- ===== src/Examples.antt =====
-- The theorems at concrete inputs.
mod Memory
mod Limits
mod Providers
mod Answers
mod Stores
mod Chat
mod Service
mod Caches
mod Vectors
mod Streams
mod Config
mod Cli
mod Requests
