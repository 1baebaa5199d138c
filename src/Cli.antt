-- ===== src/Cli.antt =====
-- src/cli: how the commands change gateway.config.yaml and .env.
pub mod EnvFile
pub mod Session
pub mod Policies
pub mod Clients
pub mod Models
pub mod Providers
pub mod Runs
