-- ===== src/Config.antt =====
-- src/config: the rows of the configuration, the checks of the schema, the secrets and what is left of the
-- configuration when the gateway starts.
pub mod Rows
pub mod Secrets
pub mod Schema
pub mod Effective
