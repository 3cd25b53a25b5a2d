-- ===== src/Api.antt =====
-- The listeners' service, api.
pub mod Languages
pub mod Tokens
pub mod Rooms
pub mod Join
