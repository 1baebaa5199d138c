-- ===== src/Cache.antt =====
-- The caches of src/cache and the replay of a cached answer.
pub mod Circuit
pub mod Replay
pub mod Tag
pub mod Identity
pub mod Store
pub mod Exact
pub mod Stored
pub mod Semantic
pub mod VectorStore
pub mod VectorSearch
