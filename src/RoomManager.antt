-- ===== src/RoomManager.antt =====
-- src/room/room/RoomManager.h and RoomManager.cpp.
pub mod Proto
pub mod State
pub mod Enter
pub mod Leave
pub mod Game
pub mod Listing
pub mod Frames
pub mod Invariant
pub mod Connected
pub mod Effects
pub mod Tests
