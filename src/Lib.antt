-- ===== src/Lib.antt =====
-- The room server and the chat server of an online game, as state and functions on it.
--
-- Parts. src/common/protocol/Codec.h frames the messages of every connection. The room server
-- (src/room) keeps rooms (room/Room.cpp) in a manager (room/RoomManager.cpp), which the sessions
-- of clients (server/ClientSession.cpp) and of the game server (internal/GameServerSession.cpp)
-- call. It stores tokens and game sessions in Redis (src/common/redis/SessionStore.cpp), counts
-- requests there (src/common/ratelimit/RateLimiter.cpp), and tells the chat server when a game
-- begins and ends. The chat server (src/chat) keeps a lobby and a channel for each game
-- (channel/ChannelManager.cpp), which the sessions of clients (server/ChatSession.cpp) and of the
-- room server (internal/InternalSession.cpp) call.
--
-- Files. Base holds the helpers that all share: numbers, texts, lists, and maps with text keys.
-- Codec models Codec.h and the read loops; Codec.Frames and Codec.Stream are about frames and
-- streams of frames. Room models Room.cpp over the list of players of Room.Players; Room.Laws is
-- about its methods. Common.Redis is the interface of Redis, with Common.SessionStore and
-- Common.RateLimiter on top of it; Common.Tokens is about both. RoomManager.State is the state of
-- RoomManager.h; Enter, Leave, Game and Listing below RoomManager are its handlers, named as in
-- the source in snake_case (handleCreateRoom is handle_create_room), where a part of a handler
-- behind its guards has a name of its own (create_accepted). Frames, Invariant, Connected and
-- Effects below RoomManager are about these handlers. Sessions.Client and Sessions.GameServer are
-- the sessions of the room server, Sessions.GameReads the game server's connection from its bytes
-- on, and Sessions.Machine the server as a function on events, each handled to its end, since
-- main.cpp runs one io_context in one thread; Sessions.Safety, Sessions.Connections,
-- Sessions.Rooms and Sessions.Emptied are about its runs. Chat.State, Chat.Auth, Chat.Messages and
-- Chat.Channels model ChannelManager.cpp, Chat.Machine the sessions and the chat server;
-- Chat.Members, Chat.Safety and Chat.Audience are about them. Each Tests module runs its part at
-- concrete inputs, with the values of Common.Fixtures. WriteQueue is the queue of frames of a
-- session, Heartbeat its timer, and Acceptor the loop of src/room/server/RoomServer.cpp that makes
-- sessions, which the other three acceptors repeat; each is a machine of its own.
-- ChatServerChannel is the room server's end of the connection between the servers
-- (src/room/internal/ChatServerChannel.cpp), and Chat.Internal the chat server's end
-- (src/chat/internal/InternalSession.cpp). Chat.Games follows the channel of a game through
-- ChannelManager.cpp, and Handover a game through both servers, with Handover.Connection for the
-- bytes between them. Settings is src/common/util/Config.cpp, and Settings.Room and Settings.Chat
-- are what src/room/main.cpp and src/chat/main.cpp make of it, with Settings.Server for the room
-- server's settings by key; Uuid is src/common/util/UuidGenerator.cpp. Network is the connections
-- of the clients of either server: Network.read_bytes, write_done and wait_done are the handlers
-- of doRead, doWrite and resetHeartbeatTimer, around an interface (Host) to the rest of the
-- server, which Network.Room fills for the room server and Network.Talk for the chat server.
-- Network.Lines, Network.Kept and Network.Silence are about any such server. Sessions.Tickets
-- follows the tokens of a game from handleStartGame to the game server's requests, and
-- Chat.Presence describes the calls of ChannelManager.h as moves of players between places. The
-- modules Laws, Order, Delivery, Issue, Moves, Refine, Runs, Closed, Silent, Reconnect, Stop,
-- Server, Layout and Distinct below these are about them.
--
-- State. A session object is an address, and a map of addresses to objects is the heap, so that a
-- weak pointer is an address whose object may be gone, and two maps may name one object. What
-- leaves the program is kept: the messages to sessions and the notices to the chat server, in the
-- order in which they are handed over. A std::unordered_map that is looped over is a list of
-- entries, one that is only looked up is a function, and a std::unordered_set is a list.
--
-- An operation of boost::asio that is under way is part of the state, as a count or as its buffer,
-- and its completion is an event, which may fail.
--
-- Parameters. Protocol Buffers, JSON, Redis and the clock are not part of the repository: they are
-- arguments, and so are the random words of a UUID, and UUIDs where servers use them. An exception
-- of Redis is a value, as is a state of Redis after it. Only the results on tokens and on the rate
-- limit assume that Redis does what it documents, and only those on settings that JSON does; the
-- results on reachable states assume that UUIDs do not repeat and that the limit on players fits
-- its 32 bits.
--
-- Bounds and fuel. Sizes that the source casts to uint32_t are taken modulo 2 ^ 32. The read loop
-- has fuel for one round more than there are bytes, and each round but the last takes four bytes
-- at least. The loop of a page has fuel for one round more than there are rooms.
--
-- Not modelled. What the operating system does with sockets, log output, and the order of
-- start-up. In the machines of the servers (Sessions.Machine and Chat.Machine) a read brings
-- messages, and a message is delivered when it is handed to the session; Network has the bytes
-- instead, with one closed flag for the session, its socket and its timer. In both, the handler of
-- a read that has succeeded can run when the session has been closed meanwhile; it then handles
-- one message. A handler takes no time there. A chat session that has been destroyed is one that
-- is closed: both are sent nothing.
pub mod Base
pub mod Network
pub mod Codec
pub mod Room
pub mod Common
pub mod RoomManager
pub mod Sessions
pub mod Chat
pub mod WriteQueue
pub mod Heartbeat
pub mod Acceptor
pub mod ChatServerChannel
pub mod Handover
pub mod Settings
pub mod Uuid
