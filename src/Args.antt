-- ===== src/Args.antt =====
-- The `llama-server` argv, crates/localx-llama-core/src/args.rs, and the spelling of the load flags
-- from capabilities.rs.
pub mod Kv
pub mod Sampler
pub mod Params
pub mod Placement
pub mod Speculation
pub mod Build
