-- ===== src/Room.antt =====
-- src/room/room/Room.h and Room.cpp: one room and its players, in the order of the vector. The
-- messages `RoomInfo` and `RoomSummary` of proto/room.proto are records with the fields that the
-- room sets.
pub mod Players
pub mod Laws
pub mod Tests
use Players.{PlayerData, any_player, erase_player, toggle_player, all_ready}
use project_sos_backend.Base.{
  ℕ, ◌%◌, ◌^◌, String, Bool, true, false, not, ◌||◌, List, [], ◌∷◌, ◌++◌, map, length, leb, ◌==◌,
  if◌then◌else◌,
}

pub data RoomState : Type 0 where
  waiting in_game : RoomState

pub record Room : Type 0 where
  pub room_id : String
  pub room_name : String
  pub host_id : String
  pub host_name : String
  pub max_players : ℕ
  pub session_id : String
  pub state : RoomState
  pub players : List PlayerData

-- The constructor: the host is the first player.
unfoldable pub new_room : String → String → String → String → ℕ → Room
new_room room_id room_name host_id host_name max_players = record {
  room_id = room_id;
  room_name = room_name;
  host_id = host_id;
  host_name = host_name;
  max_players = max_players;
  session_id = "";
  state = waiting;
  players =
      record { player_id = host_id; player_name = host_name; is_ready = false; is_host = true }
      ∷ [];
}

abbrev pub is_waiting : RoomState → Bool
is_waiting waiting = true
is_waiting in_game = false

unfoldable pub is_full : Room → Bool
is_full room = leb room.max_players (length room.players)

unfoldable pub has_player : Room → String → Bool
has_player room player_id = any_player player_id room.players

unfoldable pub is_host : Room → String → Bool
is_host room player_id = player_id == room.host_id

-- The room after the call, and what the call returns.
unfoldable pub add_player : Room → String → String → Room × Bool
unfolding is_full has_player
add_player room player_id player_name =
    if is_full room || has_player room player_id || not (is_waiting room.state)
    then (room, false)
    else (
      record room {
        players =
            room.players
            ++ record {
              player_id = player_id;
              player_name = player_name;
              is_ready = false;
              is_host = false;
            }
              ∷ [];
      },
      true,
    )

unfoldable pub remove_player : Room → String → Room × Bool
unfolding has_player
remove_player room player_id =
    if has_player room player_id
    then (record room { players = erase_player player_id room.players }, true)
    else (room, false)

unfoldable pub toggle_ready : Room → String → Room
unfolding is_host
toggle_ready room player_id =
    if is_host room player_id
    then room
    else record room { players = toggle_player player_id room.players }

unfoldable pub can_start : Room → Bool
can_start room = all_ready room.players

-- `static_cast<uint32_t>(players_.size())`
unfoldable pub player_count : Room → ℕ
player_count room = length room.players % 2 ^ 32

unfoldable pub set_state : Room → RoomState → Room
set_state room state = record room { state = state }

unfoldable pub set_session_id : Room → String → Room
set_session_id room session_id = record room { session_id = session_id }

unfoldable pub player_ids : Room → List String
player_ids room = map (λ (player : PlayerData). player.player_id) room.players

pub record PlayerInfo : Type 0 where
  pub player_id : String
  pub player_name : String
  pub is_ready : Bool
  pub is_host : Bool

pub record RoomInfo : Type 0 where
  pub room_id : String
  pub room_name : String
  pub host_id : String
  pub max_players : ℕ
  pub state : RoomState
  pub players : List PlayerInfo

abbrev player_info : PlayerData → PlayerInfo
player_info p = record {
  player_id = p.player_id;
  player_name = p.player_name;
  is_ready = p.is_ready;
  is_host = p.is_host;
}

unfoldable pub to_room_info : Room → RoomInfo
to_room_info room = record {
  room_id = room.room_id;
  room_name = room.room_name;
  host_id = room.host_id;
  max_players = room.max_players;
  state = room.state;
  players = map player_info room.players;
}

pub record RoomSummary : Type 0 where
  pub room_id : String
  pub room_name : String
  pub host_name : String
  pub current_players : ℕ
  pub max_players : ℕ
  pub state : RoomState

unfoldable pub to_room_summary : Room → RoomSummary
unfolding player_count
to_room_summary room = record {
  room_id = room.room_id;
  room_name = room.room_name;
  host_name = room.host_name;
  current_players = player_count room;
  max_players = room.max_players;
  state = room.state;
}
