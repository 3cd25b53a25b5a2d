-- ===== src/Tts.antt =====
-- Speech, adapters/tts_*.py.
pub mod Piper
