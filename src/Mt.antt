-- ===== src/Mt.antt =====
-- Translation, adapters/mt_*.py.
pub mod Routing
pub mod Opus
pub mod Nllb
pub mod Backends
