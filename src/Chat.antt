-- ===== src/Chat.antt =====
-- src/chat/: the chat server.
pub mod Proto
pub mod State
pub mod Auth
pub mod Messages
pub mod Channels
pub mod Machine
pub mod Members
pub mod Safety
pub mod Audience
pub mod Games
mod Presence
pub mod Internal
pub mod Tests
