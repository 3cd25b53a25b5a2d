-- ===== src/Adapters.antt =====
-- src/lad_translate/adapters: the contracts of base.py. Times are whole nanoseconds.
pub mod Events
pub mod Registry
