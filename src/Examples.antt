-- ===== src/Examples.antt =====
-- The theorems at concrete inputs.
mod Phrases
mod Queues
mod Recogniser
mod Measures
mod Routes
mod Tenants
mod Settings
mod Speech
mod Records
mod Joining
mod Sessions
mod Opus
mod Voices
mod Whispers
