-- ===== src/Sessions/Connections.antt =====
-- Who is in a room of the room server, and who has an open connection: the events of
-- src/room/server/ClientSession.cpp and src/room/internal/GameServerSession.cpp.
pub mod Entering
pub mod Closing
use project_sos_backend.Common.RateLimiter.{RateLimiter}
use project_sos_backend.Common.SessionStore.{Store}
use project_sos_backend.Room.{Room, add_player, is_waiting, is_full, remove_player, player_count}
use project_sos_backend.RoomManager.Proto.{
  Request, create_room, join_room, leave_room, toggle_ready, start_game, heartbeat, other,
  room_list_request, reject, rate_limited, CreateRoomRequest, JoinRoomRequest,
}
use project_sos_backend.RoomManager.State.{
  Server, Config, Client, set_client, send, player_id_of, set_player_id, unregister_session,
  remove_lobby_session, add_lobby_session,
}
use project_sos_backend.RoomManager.Enter.{
  is_duplicate, speaks_for_other, is_mapped, enter, create_accepted, handle_create_room,
  join_accepted, handle_join_room,
}
use project_sos_backend.RoomManager.Leave.{return_to_lobby, handle_leave_room, handle_disconnect}
use project_sos_backend.RoomManager.Game.{slot_found, handle_slot_released}
use project_sos_backend.RoomManager.Frames.{set_player_id-SameBook}
use project_sos_backend.RoomManager.Connected.{
  connected_in, is_connected, Connected, Shrinks, Connected-Shrinks, notify-Shrinks,
  return_to_lobby-Shrinks, handle_leave_room-Shrinks, handle_leave_room-gone,
  handle_toggle_ready-Shrinks, handle_start_game-Shrinks, handle_game_server_disconnect-Shrinks,
  lobby_timer_fired-Shrinks,
}
use project_sos_backend.Sessions.Client.{
  accept, disconnect_player, close, leave_and_return, dispatch, check_rate, process_message,
  process_all, is_closed,
}
use project_sos_backend.Sessions.GameServer.{
  GameServer, GameRequest, token_validate_request, slot_released, game_server_heartbeat,
  process_game_message, close_game_server,
}
use project_sos_backend.Sessions.Machine.{
  Event, accepted, received, ended, destroyed, from_game_server, game_server_ended, lobby_timer,
  redis_changed, free_client, step, run, IsPrompt, AllPrompt, new_server,
}
use project_sos_backend.Base.{
  ℕ, ◌≡◌, ◌≢◌, refl, ap, String, true, false, not, ◌&&◌, ◌||◌, Option, none, some, List, [], ◌∷◌,
  if_cases, option_cases, lookup, length, leb, ltb, eqb, arith, ◌==◌,
}
use project_sos_backend.Sessions.Connections.Entering.{
  handle_create_room-Connected, handle_join_room-Connected, handle_slot_released-Connected,
}
use project_sos_backend.Sessions.Connections.Closing.{
  close-Connected, close-closed, accept-Connected, free-Connected,
}

module _ {S : Type 0} (config : Config S) (store : Store S) (limiter : Option (RateLimiter S)) where
  dispatch-Connected :
      (a : ℕ) (request : Request) (w : Server S)
      → Connected w
      → is_closed w a ≡ false
      → Connected (dispatch config a request w)
  unfolding dispatch leave_and_return
  dispatch-Connected a (create_room request) w h live =
      handle_create_room-Connected config request a w h live
  dispatch-Connected a (join_room request) w h live = handle_join_room-Connected request a w h live
  dispatch-Connected a leave_room w h live =
      if_cases Connected (player_id_of w a == "") _ _ (λ _. h)
        λ _.
          let w1 = handle_leave_room (player_id_of w a) w in
          Connected-Shrinks (notify-Shrinks (add_lobby_session a w1)) (
            unfold add_lobby_session in
            Connected-Shrinks (handle_leave_room-Shrinks (player_id_of w a) w) h)
  dispatch-Connected a toggle_ready w h live =
      if_cases Connected (player_id_of w a == "") _ _ (λ _. h)
        λ _. Connected-Shrinks (handle_toggle_ready-Shrinks (player_id_of w a) w) h
  dispatch-Connected a start_game w h live =
      if_cases Connected (player_id_of w a == "") _ _ (λ _. h)
        λ _. Connected-Shrinks (handle_start_game-Shrinks config (player_id_of w a) w) h
  dispatch-Connected a (room_list_request page size) w h live = h
  dispatch-Connected a heartbeat w h live = h
  dispatch-Connected a other w h live = h

  check_rate-Shrinks : (a : ℕ) (w : Server S) → Shrinks w (check_rate limiter a w).1
  unfolding check_rate
  check_rate-Shrinks a w = record {
    sessions = ground arith;
    clients = ground arith;
    mapping = λ p r e. ground arith;
  }

  process_message-Connected :
      (a : ℕ) (request : Request) (w : Server S)
      → Connected w
      → is_closed w a ≡ false
      → Connected (process_message config limiter a request w)
  unfolding process_message
  process_message-Connected a request w h live =
      let w1 = (check_rate limiter a w).1 in
      let s = check_rate-Shrinks a w in
      let h1 = Connected-Shrinks s h in
      let live1 : is_closed w1 a ≡ false =
        ground (arith, ap (λ (f : ℕ → Option Client). f a) s.clients) in
      if_cases Connected (check_rate limiter a w).0 _ _
        (λ _. dispatch-Connected a request w1 h1 live1)
        (λ _. close-Connected a (record w1 { io = send a (reject rate_limited) w1.io }) h1)

  pub process_all-Connected :
      (a : ℕ) (requests : List Request) (w : Server S)
      → Connected w
      → is_closed w a ≡ false
      → Connected (process_all config limiter a requests w)
  unfolding process_all
  process_all-Connected a [] w h live = h
  process_all-Connected a (request ∷ requests) w h live =
      let w1 = process_message config limiter a request w in
      let h1 = process_message-Connected a request w h live in
      if_cases Connected (is_closed w1 a) _ _ (λ _. h1)
        λ live1. process_all-Connected a requests w1 h1 live1

  -- Every event, but for a read that brings messages to a closed session, leaves each player of a
  -- room, but for the empty id, with an open connection.
  pub step-Connected :
      (e : Event S) (w : Server S)
      → Connected w
      → IsPrompt config store limiter e w
      → Connected (step config store limiter e w)
  unfolding step process_game_message close_game_server
  step-Connected (accepted a ip) w h prompt =
      option_cases Connected (w.clients a) _ _ (λ free. accept-Connected a ip w h free) (λ _ _. h)
  step-Connected (received a requests) w h live =
      option_cases Connected (w.clients a) _ _ (λ _. h)
        λ _ _. process_all-Connected a requests w h live
  step-Connected (ended a) w h prompt = close-Connected a w h
  step-Connected (destroyed a) w h prompt =
      free-Connected a (close a w) (close-Connected a w h) (close-closed a w)
  step-Connected (from_game_server g (token_validate_request token)) w h prompt = h
  step-Connected (from_game_server g (slot_released id sid)) w h prompt =
      handle_slot_released-Connected config id sid w h
  step-Connected (from_game_server g (game_server_heartbeat id)) w h prompt = h
  step-Connected (from_game_server g GameRequest.other) w h prompt = h
  step-Connected (game_server_ended g) w h prompt =
      if_cases {A = GameServer × Server S} (λ p. Connected p.1) g.closed _ _ (λ _. h)
        λ _.
          if_cases Connected (g.server_id == "") _ _ (λ _. h)
            λ _. Connected-Shrinks (handle_game_server_disconnect-Shrinks config w) h
  step-Connected (lobby_timer cancelled) w h prompt =
      Connected-Shrinks (lobby_timer_fired-Shrinks cancelled w) h
  step-Connected (redis_changed s) w h prompt = h

  run-Connected :
      (events : List (Event S)) (w : Server S)
      → Connected w
      → AllPrompt config store limiter events w
      → Connected (run config store limiter events w)
  unfolding run
  run-Connected [] w h prompt = h
  run-Connected (e ∷ events) w h (first, rest) =
      run-Connected events (step config store limiter e w) (step-Connected e w h first) rest

  -- From a new server, where no read brings messages to a session that is closed already: a player
  -- who is in a room has an open session that speaks for the player. The empty id is excepted.
  pub run-new_server-Connected :
      (s : S) (events : List (Event S))
      → AllPrompt config store limiter events (new_server s)
      → Connected (run config store limiter events (new_server s))
  run-new_server-Connected s events prompt =
      run-Connected events (new_server s) (λ p r ne e. cc) prompt
