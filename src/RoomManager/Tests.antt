-- ===== src/RoomManager/Tests.antt =====
-- Handlers of the room server at concrete states.
use project_sos_backend.Common.Fixtures.{failing_redis, fixed_store, unary, differs}
use project_sos_backend.Room.Players.{PlayerData, any_player, erase_player, all_ready}
use project_sos_backend.Room.{
  Room, RoomState, waiting, in_game, new_room, is_host, can_start, has_player, add_player,
  to_room_summary,
}
use project_sos_backend.RoomManager.Proto.{CreateRoomRequest, JoinRoomRequest, session_ended}
use project_sos_backend.RoomManager.State.{Server, Config, set_client}
use project_sos_backend.RoomManager.Enter.{handle_create_room, handle_join_room}
use project_sos_backend.RoomManager.Listing.{clamp_page_size, room_page}
use project_sos_backend.RoomManager.Game.{has_active_game, handle_start_game, handle_slot_released}
use project_sos_backend.RoomManager.Effects.Admission.{
  MayCreate, MayJoin, Entered, Rejected, handle_create_room_lem, handle_join_room_lem,
}
use project_sos_backend.RoomManager.Effects.Games.{
  OnlySent, handle_start_game-once, handle_slot_released-last,
}
use project_sos_backend.RoomManager.Effects.Paging.{slice, room_page-slice}
use project_sos_backend.Base.{
  ◌*◌, ◌≤◌, ◌≡◌, ◌⊎◌, ◌||◌, refl, String, Bool, true, false, none, some, List, [], ◌∷◌, map, lookup,
  dec_str, ◌==◌, if◌then◌else◌, arith,
}

abbrev pub config : Config Unit
config = record {
  max_rooms = 4;
  max_players_per_room = 8;
  game_server_host = "host";
  game_server_port = 7000;
  session_store = some (fixed_store failing_redis);
  has_chat_channel = true;
  uuid = unary;
}

abbrev player : String → Bool → Bool → PlayerData
player id ready host = record { player_id = id; player_name = id; is_ready = ready; is_host = host }

abbrev room_with : RoomState → String → List PlayerData → Room
room_with state session_id players = record {
  room_id = "r1";
  room_name = "duel";
  host_id = "ann";
  host_name = "ann";
  max_players = 2;
  session_id = session_id;
  state = state;
  players = players;
}

-- One room, with Ann and Ben mapped to it, and their sessions.
abbrev pub server_over : {S : Type 0} → S → Room → Server S
server_over redis room = record {
  rooms = ("r1", room) ∷ [];
  player_to_room = λ p. if p == "ann" || p == "ben" then some "r1" else none;
  sessions = λ p. if p == "ann" then some 1 else if p == "ben" then some 2 else none;
  lobby_sessions = 3 ∷ [];
  lobby_broadcast_pending = false;
  clients =
      set_client 1 (record { player_id = "ann"; remote_ip = "10.0.0.1"; closed = false })
        (set_client 2 (record { player_id = "ben"; remote_ip = "10.0.0.2"; closed = false })
          (set_client 3 (record { player_id = ""; remote_ip = "10.0.0.3"; closed = false })
            (λ _. none)));
  io = record { sent = []; notices = []; redis = redis; drawn = 0 };
}

abbrev pub server_with : Room → Server Unit
server_with room = server_over tt room

abbrev pub ready_room : Room
ready_room = room_with waiting "" (player "ann" false true ∷ player "ben" true false ∷ [])

abbrev pub playing_room : Room
playing_room = room_with in_game "g1" (player "ann" false true ∷ [])

-- Ann's slot was released, and Ben is left.
abbrev half_room : Room
half_room = room_with in_game "g1" (player "ben" true false ∷ [])

abbrev create_request : CreateRoomRequest
create_request = record {
  player_id = "cleo";
  player_name = "Cleo";
  room_name = "other";
  max_players = 4;
}

handle_create_room_lem_example :
    let w = server_with ready_room in
    let w' = handle_create_room config create_request 3 w in
    let r = unary 0 in
    (MayCreate config create_request 3 w
      × Entered r (new_room r "other" "cleo" "Cleo" 4) "cleo" 3 w w')
    ⊎ (¬ MayCreate config create_request 3 w × Rejected 3 w w')
handle_create_room_lem_example =
    handle_create_room_lem config create_request 3 (server_with ready_room)

abbrev join_request : JoinRoomRequest
join_request = record { player_id = "cleo"; player_name = "Cleo"; room_id = "r1" }

handle_join_room_lem_example :
    let w = server_with playing_room in
    let w' = handle_join_room join_request 3 w in
    ((room : Room) × MayJoin join_request room 3 w
      × Entered "r1" (add_player room "cleo" "Cleo").0 "cleo" 3 w w')
    ⊎ (((room : Room) → ¬ MayJoin join_request room 3 w) × Rejected 3 w w')
handle_join_room_lem_example = handle_join_room_lem join_request 3 (server_with playing_room)

handle_start_game-once_example :
    let w' = handle_start_game config "ann" (server_with ready_room) in
    (lookup "r1" w'.rooms ≡ some (record ready_room { state = in_game; session_id = unary 0 }))
    × OnlySent w' (handle_start_game config "ben" w')
unfolding has_active_game lookup dec_str is_host can_start all_ready
handle_start_game-once_example =
    handle_start_game-once config "ann" "r1" "ben" ready_room (server_with ready_room) refl refl
      refl refl refl

handle_slot_released-last_example :
    let w = server_with playing_room in
    let w' = handle_slot_released config "ann" "g1" w in
    ((s : String) → lookup s w'.rooms ≡ (if s == "r1" then none else lookup s w.rooms))
    × (w'.player_to_room "ann" ≡ none)
    × (w'.sessions "ann" ≡ none)
    × (w'.io.notices ≡ session_ended "g1" ∷ [])
unfolding lookup dec_str has_player any_player erase_player
handle_slot_released-last_example =
    handle_slot_released-last config "ann" "r1" playing_room (server_with playing_room) refl refl
      refl refl (differs "g1" "" refl) refl

-- The second page of one room each.
room_page-slice_example :
    let size = clamp_page_size 1 in
    (room_page 1 1 (ready_room ∷ half_room ∷ [])
      ≡ (map to_room_summary (slice (1 * size) size (ready_room ∷ half_room ∷ [])), 2))
    × (1 ≤ size)
    × (size ≤ 100)
unfolding clamp_page_size
room_page-slice_example =
    room_page-slice 1 1 (ready_room ∷ half_room ∷ []) (omega arith) (omega arith)
