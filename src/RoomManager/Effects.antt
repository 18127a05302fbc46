-- ===== src/RoomManager/Effects.antt =====
-- What the handlers of src/room/room/RoomManager.cpp achieve, beyond keeping the invariant.
pub mod Closing
pub mod Emptied
pub mod Games
pub mod Admission
pub mod Paging
