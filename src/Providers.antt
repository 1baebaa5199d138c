-- ===== src/Providers.antt =====
-- The providers of src/providers: their registry, and what is asked of them.
pub mod OpenAi
pub mod Registry
pub mod Validation
pub mod Resolution
