-- ===== src/Sessions.antt =====
-- The sessions of the room server: src/room/server/ClientSession.cpp and
-- src/room/internal/GameServerSession.cpp, and the server as a machine that reacts to events.
pub mod Client
pub mod GameServer
pub mod Machine
pub mod GameReads
pub mod Safety
pub mod Connections
pub mod Rooms
pub mod Emptied
mod Tickets
pub mod Tests
