-- ===== src/Access.antt =====
-- The gateway keys of src/config/configuration.ts and the guard of src/guards/gateway-key.guard.ts.
pub mod Keys
pub mod Guarding
