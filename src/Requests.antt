-- ===== src/Requests.antt =====
-- native/src/api.rs: the entry points that check their arguments and queue one command.
pub mod Queue
pub mod Chat
pub mod Channels
pub mod Moderation
pub mod Status
pub mod Files
pub mod Calls
pub mod Admission
mod Tests
