-- ===== src/RoomManager/Proto.antt =====
-- The payloads of `Envelope` in proto/room.proto, as far as the room server reads or writes them,
-- and the two payloads of `ChatEnvelope` in proto/chat.proto that it sends to the chat server. The
-- human-readable text of a `RejectResponse` is left out.
use project_sos_backend.Base.{ℕ, String, Bool, List}
use project_sos_backend.Room.{RoomInfo, RoomSummary}

pub data RejectReason : Type 0 where
  room_full room_not_found not_host not_all_ready rate_limited duplicate_player : RejectReason
  already_in_room invalid_request room_closed game_server_busy : RejectReason

pub record CreateRoomRequest : Type 0 where
  pub player_id : String
  pub player_name : String
  pub room_name : String
  pub max_players : ℕ

pub record JoinRoomRequest : Type 0 where
  pub player_id : String
  pub player_name : String
  pub room_id : String

pub record GameStart : Type 0 where
  pub session_id : String
  pub auth_token : String
  pub game_server_host : String
  pub game_server_port : ℕ

-- From a client to the room server. `other` is any payload that the dispatch does not name.
pub data Request : Type 0 where
  create_room : CreateRoomRequest → Request
  join_room : JoinRoomRequest → Request
  leave_room toggle_ready start_game heartbeat other : Request
  -- `page` and `page_size`
  room_list_request : ℕ → ℕ → Request

-- From the room server to a client.
pub data Envelope : Type 0 where
  create_room_response join_room_response : Bool → RoomInfo → Envelope
  -- the rooms of the page and `total_rooms`
  room_list_response : List RoomSummary → ℕ → Envelope
  room_update : RoomInfo → Envelope
  game_start : GameStart → Envelope
  reject : RejectReason → Envelope

-- From the room server to the chat server.
pub data ChatNotice : Type 0 where
  session_created : String → List (String × String) → ChatNotice
  session_ended : String → ChatNotice
