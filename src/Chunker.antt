-- ===== src/Chunker.antt =====
-- src/lad_translate/chunker: from revisable hypotheses to committed phrases.
pub mod Types
pub mod Words
pub mod Stability
pub mod Clause
pub mod Phrases
