-- ===== src/Stt.antt =====
-- The streaming bookkeeping of adapters/stt_fastconformer.py.
pub mod Geometry
pub mod Schedule
pub mod Frames
pub mod Clock
pub mod Transcribe
pub mod Whisper
