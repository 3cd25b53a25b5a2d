-- ===== src/Session.antt =====
-- src/lad_translate/session: the queues of a session, on the way in and on the way out.
pub mod Backlog
pub mod Drift
pub mod Pipeline
pub mod Tasks
pub mod Run
pub mod Room
