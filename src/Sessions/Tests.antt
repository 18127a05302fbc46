-- ===== src/Sessions/Tests.antt =====
-- Runs of the room server at concrete inputs.
use project_sos_backend.Common.Fixtures.{failing_redis, fixed_store, unary, unary_distinct, differs}
use project_sos_backend.RoomManager.Proto.{create_room, join_room, toggle_ready, start_game}
use project_sos_backend.Room.Players.{any_player, erase_player, all_ready, toggle_player}
use project_sos_backend.Room.{
  Room, can_start, player_count, remove_player, player_ids, waiting, in_game, new_room, is_full,
  has_player, add_player, is_host,
}
use project_sos_backend.RoomManager.State.{
  Server, Config, erase_address, has_address, set_client, broadcast_to, send_to,
}
use project_sos_backend.RoomManager.Leave.{handle_leave_room}
use project_sos_backend.RoomManager.Effects.Closing.{Closed, handle_leave_room-Closed}
use project_sos_backend.RoomManager.Connected.{is_connected}
use project_sos_backend.Sessions.Client.{process_message}
use project_sos_backend.Sessions.Rooms.{room_players-connected}
use project_sos_backend.RoomManager.Invariant.{Holds, IsSane}
use project_sos_backend.Sessions.Machine.{
  AllPrompt, from_game_server, Event, accepted, received, step, run, new_server,
}
use project_sos_backend.Sessions.Safety.{run-new_server-Holds}
use project_sos_backend.Sessions.GameServer.{
  GameServer, GameRequest, slot_released, game_server_heartbeat, process_game_message,
  close_game_server, handle_game_server_heartbeat,
}
use project_sos_backend.Codec.{encode, header}
use project_sos_backend.RoomManager.Game.{handle_slot_released, handle_start_game, has_active_game}
use project_sos_backend.RoomManager.Effects.Games.{OnlySent}
use project_sos_backend.Sessions.Emptied.{handle_leave_room-stuck}
use project_sos_backend.Sessions.GameReads.{GameConnection, game_run, game_run-stream}
use project_sos_backend.Base.{
  ℕ, Option, eqb, ◌≡◌, ◌≢◌, String, refl, true, false, none, some, List, [], ◌∷◌, lookup, insert,
  dec_str, ◌==◌, map, ◌++◌, if◌then◌else◌, arith,
}

abbrev pub config : Config Unit
config = record {
  max_rooms = 4;
  max_players_per_room = 8;
  game_server_host = "host";
  game_server_port = 7000;
  session_store = some (fixed_store failing_redis);
  has_chat_channel = true;
  uuid = unary;
}

pub config-IsSane : IsSane config
config-IsSane = record { distinct = unary_distinct; word = omega arith }

-- Ann opens a room, and Ben joins it.
abbrev pub two_players : List (Event Unit)
two_players =
    accepted 1 "10.0.0.1"
    ∷ accepted 2 "10.0.0.2"
    ∷ received 1 (
        create_room
          (record { player_id = "ann"; player_name = "Ann"; room_name = "duel"; max_players = 2 })
        ∷ [])
    ∷ received 2 (join_room (record { player_id = "ben"; player_name = "Ben"; room_id = "u" }) ∷ [])
    ∷ []

abbrev pub after_joining : Server Unit
after_joining = run config (fixed_store failing_redis) none two_players (new_server tt)

run-new_server-Holds_example : Holds config after_joining
run-new_server-Holds_example =
    run-new_server-Holds config (fixed_store failing_redis) none config-IsSane tt two_players

abbrev pub duel : Room
duel = record {
  room_id = "u";
  room_name = "duel";
  host_id = "ann";
  host_name = "Ann";
  max_players = 2;
  session_id = "";
  state = waiting;
  players =
      record { player_id = "ann"; player_name = "Ann"; is_ready = false; is_host = true }
      ∷ record { player_id = "ben"; player_name = "Ben"; is_ready = false; is_host = false }
      ∷ [];
}

pub lookup-after_joining : lookup "u" after_joining.rooms ≡ some duel
unfolding run step process_message dec_str erase_address has_address lookup insert unary new_room
    is_full add_player any_player
lookup-after_joining = refl

pub ann_is_in : after_joining.player_to_room "ann" ≡ some "u"
unfolding run step process_message dec_str erase_address has_address lookup insert unary new_room
    is_full
ann_is_in = refl

two_players-AllPrompt :
    AllPrompt config (fixed_store failing_redis) none two_players (new_server tt)
unfolding step process_message dec_str erase_address has_address lookup insert unary new_room
    is_full add_player any_player set_client
two_players-AllPrompt = (tt, (tt, (refl, (refl, tt))))

room_players-connected_example :
    (after_joining.player_to_room "ben" ≡ some "u") × (is_connected after_joining "ben" ≡ true)
unfolding has_player any_player dec_str
room_players-connected_example =
    room_players-connected config (fixed_store failing_redis) none config-IsSane tt two_players
      "ben" "u" duel two_players-AllPrompt lookup-after_joining refl (differs "ben" "" refl)

-- A session of Cleo at address 3, and one without a player at address 4.
abbrev two_sessions : Server Unit
two_sessions = record (new_server tt) {
  clients =
      set_client 3 (record { player_id = "cleo"; remote_ip = "10.0.0.3"; closed = false })
        (set_client 4 (record { player_id = ""; remote_ip = "10.0.0.4"; closed = false })
          (λ _. none));
  sessions = λ p. if p == "cleo" then some 3 else none;
  rooms = ("u", duel) ∷ [];
  player_to_room = λ p. if p == "cleo" then some "u" else none;
}

handle_leave_room-Closed_example :
    Closed "u" (has_player duel) after_joining (handle_leave_room "ann" after_joining)
unfolding is_host dec_str
handle_leave_room-Closed_example =
    handle_leave_room-Closed config "ann" "u" duel after_joining
      (run-new_server-Holds config (fixed_store failing_redis) none config-IsSane tt two_players)
      ann_is_in lookup-after_joining refl

-- One byte tells a request: a slot that is released, a heartbeat, and what the dispatch does not know.
abbrev parse_game_request : List ℕ → Option GameRequest
parse_game_request (b ∷ []) =
    if eqb b 1
    then some (slot_released "ben" "")
    else if eqb b 2
    then some (game_server_heartbeat "game")
    else some GameRequest.other
parse_game_request _ = none

abbrev serialize_game_request : GameRequest → List ℕ
serialize_game_request (slot_released player_id session_id) = 1 ∷ []
serialize_game_request (game_server_heartbeat server_id) = 2 ∷ []
serialize_game_request _ = 3 ∷ []

abbrev game_session : GameServer
game_session = record { server_id = ""; closed = false; sent = [] }

-- A slot is released and a heartbeat comes, in two reads that are cut within a frame, and the
-- connection ends.
abbrev game_reads : List (List ℕ)
game_reads = (1 ∷ 0 ∷ 0 ∷ []) ∷ (0 ∷ 1 ∷ 1 ∷ 0 ∷ 0 ∷ 0 ∷ 2 ∷ []) ∷ []

game_run-stream_example :
    let c : GameConnection = record { buffer = []; session = game_session } in
    let released = handle_slot_released config "ben" "" after_joining in
    let beaten =
      handle_game_server_heartbeat config
        (fixed_store failing_redis)
        "game"
        game_session
        released in
    let closed = close_game_server config (fixed_store failing_redis) beaten.0 beaten.1 in
    (game_run config
        (fixed_store failing_redis)
        parse_game_request
        (map some game_reads)
        c
        after_joining
      ≡ (record { buffer = []; session = beaten.0 }, beaten.1))
    × (game_run config
          (fixed_store failing_redis)
          parse_game_request
          (map some game_reads ++ none ∷ [])
          c
          after_joining
        ≡ (record { buffer = []; session = closed.0 }, closed.1))
unfolding process_game_message encode header
game_run-stream_example =
    game_run-stream config (fixed_store failing_redis) parse_game_request serialize_game_request
      (slot_released "ben" "" ∷ game_server_heartbeat "game" ∷ []) game_reads [] game_session
      after_joining ((omega arith, refl), ((omega arith, refl), tt)) refl

-- Ben is ready, Ann starts the game, and the game server releases her slot.
abbrev half_over : List (Event Unit)
half_over =
    two_players
    ++ received 2 (toggle_ready ∷ [])
      ∷ received 1 (start_game ∷ [])
      ∷ from_game_server game_session (slot_released "ann" "")
      ∷ []

abbrev after_release : Server Unit
after_release = run config (fixed_store failing_redis) none half_over (new_server tt)

abbrev half_room : Room
half_room = record duel {
  session_id = unary 1;
  state = in_game;
  players =
      record { player_id = "ben"; player_name = "Ben"; is_ready = true; is_host = false } ∷ [];
}

lookup-after_release : lookup "u" after_release.rooms ≡ some half_room
unfolding run step process_message dec_str erase_address has_address lookup insert unary new_room
    is_full add_player any_player has_active_game can_start all_ready toggle_player player_count
    remove_player erase_player broadcast_to player_ids send_to
lookup-after_release = refl

ben_is_in : after_release.player_to_room "ben" ≡ some "u"
unfolding run step process_message dec_str erase_address has_address lookup insert unary new_room
    is_full add_player any_player has_active_game can_start all_ready toggle_player player_count
    remove_player erase_player
ben_is_in = refl

-- Ben leaves, and Cleo comes and makes a room of her own.
abbrev cleo_comes : List (Event Unit)
cleo_comes =
    accepted 3 "10.0.0.3"
    ∷ received 3 (
        create_room
          (record { player_id = "cleo"; player_name = "Cleo"; room_name = "solo"; max_players = 2 })
        ∷ start_game
        ∷ [])
    ∷ []

handle_leave_room-stuck_example :
    let w' =
      run config
        (fixed_store failing_redis)
        none
        cleo_comes
        (handle_leave_room "ben" after_release) in
    (lookup "u" w'.rooms ≡ some (record half_room { players = [] }))
    × ((q : String) → w'.player_to_room q ≢ some "u")
    × ((q : String) → OnlySent w' (handle_start_game config q w'))
unfolding is_host has_player any_player erase_player dec_str
handle_leave_room-stuck_example =
    handle_leave_room-stuck config (fixed_store failing_redis) none config-IsSane "ben" "u"
      half_room cleo_comes after_release
      (run-new_server-Holds config (fixed_store failing_redis) none config-IsSane tt half_over)
      ben_is_in lookup-after_release refl refl refl refl refl
