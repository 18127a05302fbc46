-- ===== src/Sessions/Emptied.antt =====
-- The room that a game leaves behind, through every event of the room server: src/room/server and
-- src/room/internal over src/room/room/RoomManager.cpp.
use project_sos_backend.Common.RateLimiter.{RateLimiter}
use project_sos_backend.Common.SessionStore.{Store}
use project_sos_backend.Room.Players.{erase_player}
use project_sos_backend.Room.{Room, in_game, has_player, is_host}
use project_sos_backend.RoomManager.Proto.{
  Request, create_room, join_room, leave_room, toggle_ready, start_game, heartbeat, other,
  room_list_request, reject, rate_limited,
}
use project_sos_backend.RoomManager.State.{
  Server, Config, set_client, send, player_id_of, remove_lobby_session,
}
use project_sos_backend.RoomManager.Leave.{handle_leave_room, handle_disconnect}
use project_sos_backend.RoomManager.Game.{handle_start_game}
use project_sos_backend.RoomManager.Frames.{
  notify-SameBook, lobby_timer_fired-SameBook, set_player_id-SameBook,
}
use project_sos_backend.RoomManager.Invariant.{Holds, Holds-SameBook, IsSane}
use project_sos_backend.RoomManager.Invariant.Leaving.{handle_leave_room-Holds}
use project_sos_backend.RoomManager.Effects.Closing.{handle_leave_room-emptied}
use project_sos_backend.RoomManager.Effects.Games.{
  OnlySent, handle_start_game-busy, has_active_game-in_game,
}
use project_sos_backend.RoomManager.Effects.Emptied.{
  There, elsewhere, handle_create_room-There, handle_join_room-There, handle_leave_room-There,
  handle_disconnect-There, handle_toggle_ready-There, handle_start_game-There,
  handle_slot_released-There,
}
use project_sos_backend.Sessions.Client.{
  accept, disconnect_player, close, leave_and_return, dispatch, check_rate, process_message,
  process_all, is_closed,
}
use project_sos_backend.Sessions.GameServer.{
  GameRequest, token_validate_request, slot_released, game_server_heartbeat, process_game_message,
}
use project_sos_backend.Sessions.Machine.{
  Event, accepted, received, ended, destroyed, from_game_server, game_server_ended, lobby_timer,
  redis_changed, step, run,
}
use project_sos_backend.Sessions.Safety.{
  process_message-Holds, step-Holds, run-Holds, check_rate-SameBook,
}
use project_sos_backend.Base.{
  ℕ, ◌≡◌, ◌≢◌, refl, String, Bool, true, false, ◌||◌, Option, some, List, [], ◌∷◌, if_cases,
  option_cases, lookup, arith, ◌==◌,
}

-- The connection of a game server ends.
abbrev is_game_end : {S : Type 0} → Event S → Bool
is_game_end (game_server_ended g) = true
is_game_end _ = false

abbrev has_game_end : {S : Type 0} → List (Event S) → Bool
has_game_end [] = false
has_game_end (e ∷ events) = is_game_end e || has_game_end events

module _ {S : Type 0} (config : Config S) (store : Store S) (limiter : Option (RateLimiter S))
    (sane : IsSane config) (r : String) (room : Room) (empty : room.players ≡ [])
    (plays : room.state ≡ in_game) where
  abbrev IsThere : Server S → Type 0
  IsThere = There config r room empty plays

  close-There : (a : ℕ) (w : Server S) → Holds config w → IsThere w → IsThere (close a w)
  unfolding close disconnect_player
  close-There a w v there =
      option_cases IsThere (w.clients a) _ _ (λ _. there)
        λ c _.
          if_cases IsThere c.closed _ _ (λ _. there)
            λ _.
              let w1 : Server S =
                remove_lobby_session a
                  (record w { clients = set_client a (record c { closed = true }) w.clients }) in
              if_cases IsThere (c.player_id == "") w1 _ (λ _. there)
                λ _.
                  rw (set_player_id-SameBook a "" (handle_disconnect c.player_id w1)).rooms
                    (handle_disconnect-There config r room empty plays c.player_id w1 v there)

  dispatch-There :
      (a : ℕ) (request : Request) (w : Server S)
      → Holds config w
      → IsThere w
      → IsThere (dispatch config a request w)
  unfolding dispatch leave_and_return
  dispatch-There a (create_room request) w v there =
      handle_create_room-There config r room empty plays request a w v there
  dispatch-There a (join_room request) w v there =
      handle_join_room-There config r room empty plays request a w there
  dispatch-There a leave_room w v there =
      if_cases IsThere (player_id_of w a == "") _ _ (λ _. there)
        λ _.
          rw (notify-SameBook _).rooms
            (handle_leave_room-There config r room empty plays (player_id_of w a) w v there)
  dispatch-There a toggle_ready w v there =
      if_cases IsThere (player_id_of w a == "") _ _ (λ _. there)
        λ _. handle_toggle_ready-There config r room empty plays (player_id_of w a) w v there
  dispatch-There a start_game w v there =
      if_cases IsThere (player_id_of w a == "") _ _ (λ _. there)
        λ _. handle_start_game-There config r room empty plays (player_id_of w a) w there
  dispatch-There a (room_list_request page size) w v there = there
  dispatch-There a heartbeat w v there = there
  dispatch-There a other w v there = there

  process_message-There :
      (a : ℕ) (request : Request) (w : Server S)
      → Holds config w
      → IsThere w
      → IsThere (process_message config limiter a request w)
  unfolding process_message
  process_message-There a request w v there =
      let w1 = (check_rate limiter a w).1 in
      let same = check_rate-SameBook config store limiter sane a w in
      let v1 = Holds-SameBook config same v in
      let there1 : IsThere w1 = rw same.rooms there in
      if_cases IsThere (check_rate limiter a w).0 _ _ (λ _. dispatch-There a request w1 v1 there1)
        (λ _. close-There a (record w1 { io = send a (reject rate_limited) w1.io }) v1 there1)

  process_all-There :
      (a : ℕ) (requests : List Request) (w : Server S)
      → Holds config w
      → IsThere w
      → IsThere (process_all config limiter a requests w)
  unfolding process_all
  process_all-There a [] w v there = there
  process_all-There a (request ∷ requests) w v there =
      let w1 = process_message config limiter a request w in
      let v1 = process_message-Holds config store limiter sane a request w v in
      let there1 = process_message-There a request w v there in
      if_cases IsThere (is_closed w1 a) _ _ (λ _. there1)
        λ _. process_all-There a requests w1 v1 there1

  step-There :
      (e : Event S) (w : Server S)
      → is_game_end e ≡ false
      → Holds config w
      → IsThere w
      → IsThere (step config store limiter e w)
  unfolding step accept process_game_message
  step-There (accepted a ip) w on v there =
      option_cases IsThere (w.clients a) _ _ (λ _. there) λ _ _. there
  step-There (received a requests) w on v there =
      option_cases IsThere (w.clients a) _ _ (λ _. there)
        λ _ _. process_all-There a requests w v there
  step-There (ended a) w on v there = close-There a w v there
  step-There (destroyed a) w on v there = close-There a w v there
  step-There (from_game_server g (token_validate_request token)) w on v there = there
  step-There (from_game_server g (slot_released id sid)) w on v there =
      handle_slot_released-There config r room empty plays id sid w v there
  step-There (from_game_server g (game_server_heartbeat id)) w on v there = there
  step-There (from_game_server g GameRequest.other) w on v there = there
  step-There (game_server_ended g) w on v there = cc
  step-There (lobby_timer cancelled) w on v there =
      rw (lobby_timer_fired-SameBook cancelled w).rooms there
  step-There (redis_changed s) w on v there = there

  run-There :
      (events : List (Event S)) (w : Server S)
      → has_game_end events ≡ false
      → Holds config w
      → IsThere w
      → IsThere (run config store limiter events w)
  unfolding run
  run-There [] w on v there = there
  run-There (e ∷ events) w on v there =
      run-There events (step config store limiter e w) (ground arith)
        (step-Holds config store limiter sane e w v) (step-There e w (ground arith) v there)

module _ {S : Type 0} (config : Config S) (store : Store S) (limiter : Option (RateLimiter S))
    (sane : IsSane config) where
  -- Where UUIDs do not repeat and the limit on players is below 2 ^ 32: when the last player of a
  -- room in game leaves, who is not the host, in a state that keeps the invariant of the rooms,
  -- then through any events but the end of a game server's connection the room stays, in game and
  -- without players, no player is mapped to it, and a request to start a game, by whomever, changes
  -- nothing but the messages to sessions.
  pub handle_leave_room-stuck :
      (p r : String) (room : Room) (events : List (Event S)) (w : Server S)
      → Holds config w
      → w.player_to_room p ≡ some r
      → lookup r w.rooms ≡ some room
      → is_host room p ≡ false
      → has_player room p ≡ true
      → erase_player p room.players ≡ []
      → room.state ≡ in_game
      → has_game_end events ≡ false
      → let w' = run config store limiter events (handle_leave_room p w) in
        (lookup r w'.rooms ≡ some (record room { players = [] }))
        × ((q : String) → w'.player_to_room q ≢ some r)
        × ((q : String) → OnlySent w' (handle_start_game config q w'))
  handle_leave_room-stuck p r room events w v points found guest inside last plays on =
      let room' : Room = record room { players = [] } in
      let w1 = handle_leave_room p w in
      let v1 = handle_leave_room-Holds config p w v in
      let w' = run config store limiter events w1 in
      let there : lookup r w'.rooms ≡ some room' =
        run-There config store limiter sane r room' refl plays events w1 on v1
          (handle_leave_room-emptied p r room w points found guest inside last) in
      let v' = run-Holds config store limiter sane events w1 v1 in
      (
        there,
        (λ q e. elsewhere config r room' refl plays q r w' v' there e refl),
        (λ q.
            handle_start_game-busy config q w'
              (has_active_game-in_game w'.rooms r room' there plays)),
      )
