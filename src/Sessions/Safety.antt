-- ===== src/Sessions/Safety.antt =====
-- The invariant of the rooms through the sessions of the room server: src/room/server and
-- src/room/internal.
use project_sos_backend.Common.RateLimiter.{RateLimiter}
use project_sos_backend.Common.SessionStore.{Store}
use project_sos_backend.RoomManager.Proto.{
  Request, create_room, join_room, leave_room, toggle_ready, start_game, heartbeat, other,
  room_list_request, reject, rate_limited,
}
use project_sos_backend.RoomManager.State.{
  Server, Config, set_client, send, player_id_of, remove_lobby_session,
}
use project_sos_backend.RoomManager.Leave.{handle_disconnect}
use project_sos_backend.RoomManager.Frames.{
  SameBook, notify-SameBook, lobby_timer_fired-SameBook, set_player_id-SameBook,
}
use project_sos_backend.RoomManager.Invariant.{Holds, Holds-SameBook, IsSane}
use project_sos_backend.RoomManager.Invariant.Entering.{
  handle_create_room-Holds, handle_join_room-Holds,
}
use project_sos_backend.RoomManager.Invariant.Leaving.{
  handle_leave_room-Holds, handle_disconnect-Holds, handle_toggle_ready-Holds,
}
use project_sos_backend.RoomManager.Invariant.Playing.{
  handle_start_game-Holds, handle_slot_released-Holds, handle_game_server_disconnect-Holds,
}
use project_sos_backend.Sessions.Client.{
  accept, disconnect_player, close, leave_and_return, dispatch, check_rate, process_message,
  process_all, is_closed,
}
use project_sos_backend.Sessions.GameServer.{
  GameServer, GameRequest, token_validate_request, slot_released, game_server_heartbeat,
  process_game_message, close_game_server,
}
use project_sos_backend.Sessions.Machine.{
  Event, accepted, received, ended, destroyed, from_game_server, game_server_ended, lobby_timer,
  redis_changed, step, run, new_server,
}
use project_sos_backend.Base.{
  ℕ, refl, String, true, Option, List, [], ◌∷◌, if_cases, option_cases, lookup, arith, ◌==◌,
}

module _ {S : Type 0} (config : Config S) (store : Store S) (limiter : Option (RateLimiter S))
    (sane : IsSane config) where
  disconnect_player-Holds :
      (a : ℕ) (id : String) (w : Server S)
      → Holds config w
      → Holds config (disconnect_player a id w)
  unfolding disconnect_player
  disconnect_player-Holds a id w v =
      if_cases (Holds config) (id == "") _ _ (λ _. v)
        λ _.
          Holds-SameBook config (set_player_id-SameBook a "" (handle_disconnect id w))
            (handle_disconnect-Holds config id w v)

  pub close-Holds : (a : ℕ) (w : Server S) → Holds config w → Holds config (close a w)
  unfolding close
  close-Holds a w v =
      option_cases (Holds config) (w.clients a) _ _ (λ _. v)
        λ c found.
          if_cases (Holds config) c.closed _ _ (λ _. v)
            λ _.
              disconnect_player-Holds a c.player_id
                (remove_lobby_session a
                  (record w { clients = set_client a (record c { closed = true }) w.clients }))
                v

  leave_and_return-Holds :
      (a : ℕ) (id : String) (w : Server S) → Holds config w → Holds config (leave_and_return a id w)
  unfolding leave_and_return
  leave_and_return-Holds a id w v =
      Holds-SameBook config (notify-SameBook _) (handle_leave_room-Holds config id w v)

  dispatch-Holds :
      (a : ℕ) (request : Request) (w : Server S)
      → Holds config w
      → Holds config (dispatch config a request w)
  unfolding dispatch
  dispatch-Holds a (create_room request) w v = handle_create_room-Holds config sane request a w v
  dispatch-Holds a (join_room request) w v = handle_join_room-Holds config sane request a w v
  dispatch-Holds a leave_room w v =
      if_cases (Holds config) (player_id_of w a == "") _ _ (λ _. v)
        λ _. leave_and_return-Holds a (player_id_of w a) w v
  dispatch-Holds a toggle_ready w v =
      if_cases (Holds config) (player_id_of w a == "") _ _ (λ _. v)
        λ _. handle_toggle_ready-Holds config (player_id_of w a) w v
  dispatch-Holds a start_game w v =
      if_cases (Holds config) (player_id_of w a == "") _ _ (λ _. v)
        λ _. handle_start_game-Holds config (player_id_of w a) w v
  dispatch-Holds a (room_list_request page size) w v = v
  dispatch-Holds a heartbeat w v = v
  dispatch-Holds a other w v = v

  pub check_rate-SameBook : (a : ℕ) (w : Server S) → SameBook w (check_rate limiter a w).1
  unfolding check_rate
  check_rate-SameBook a w = ground arith

  pub process_message-Holds :
      (a : ℕ) (request : Request) (w : Server S)
      → Holds config w
      → Holds config (process_message config limiter a request w)
  unfolding process_message
  process_message-Holds a request w v =
      let w1 = (check_rate limiter a w).1 in
      let v1 = Holds-SameBook config (check_rate-SameBook a w) v in
      if_cases (Holds config) (check_rate limiter a w).0 _ _ (λ _. dispatch-Holds a request w1 v1)
        (λ _. close-Holds a (record w1 { io = send a (reject rate_limited) w1.io }) v1)

  pub process_all-Holds :
      (a : ℕ) (requests : List Request) (w : Server S)
      → Holds config w
      → Holds config (process_all config limiter a requests w)
  unfolding process_all
  process_all-Holds a [] w v = v
  process_all-Holds a (request ∷ requests) w v =
      let v1 = process_message-Holds a request w v in
      if_cases (Holds config) (is_closed (process_message config limiter a request w) a) _ _
        (λ _. v1) λ _. process_all-Holds a requests (process_message config limiter a request w) v1

  -- Every event keeps the invariant.
  pub step-Holds :
      (e : Event S) (w : Server S) → Holds config w → Holds config (step config store limiter e w)
  unfolding step accept process_game_message close_game_server
  step-Holds (accepted a ip) w v = option_cases (Holds config) (w.clients a) _ _ (λ _. v) (λ _ _. v)
  step-Holds (received a requests) w v =
      option_cases (Holds config) (w.clients a) _ _ (λ _. v) λ _ _. process_all-Holds a requests w v
  step-Holds (ended a) w v = close-Holds a w v
  step-Holds (destroyed a) w v = close-Holds a w v
  step-Holds (from_game_server g (token_validate_request token)) w v = v
  step-Holds (from_game_server g (slot_released id sid)) w v =
      handle_slot_released-Holds config id sid w v
  step-Holds (from_game_server g (game_server_heartbeat id)) w v = v
  step-Holds (from_game_server g GameRequest.other) w v = v
  step-Holds (game_server_ended g) w v =
      if_cases {A = GameServer × Server S} (λ p. Holds config p.1) g.closed _ _ (λ _. v)
        λ _.
          if_cases (Holds config) (g.server_id == "") _ _ (λ _. v)
            λ _. handle_game_server_disconnect-Holds config w v
  step-Holds (lobby_timer cancelled) w v =
      Holds-SameBook config (lobby_timer_fired-SameBook cancelled w) v
  step-Holds (redis_changed s) w v = v

  -- The invariant holds after any sequence of events.
  pub run-Holds :
      (events : List (Event S)) (w : Server S)
      → Holds config w
      → Holds config (run config store limiter events w)
  unfolding run
  run-Holds [] w v = v
  run-Holds (e ∷ events) w v = run-Holds events (step config store limiter e w) (step-Holds e w v)

  new_server-Holds : (s : S) → Holds config (new_server s)
  unfolding lookup
  new_server-Holds s = record {
    agree = λ p r. refl;
    good = λ r x e. cc;
    one_game = λ r t x y e. cc;
    bounded = ground arith;
    fresh = λ n h. refl;
  }

  -- Where UUIDs do not repeat and the limit on players is below 2 ^ 32: after any events on a new
  -- server, its rooms and its player map agree, every room is valid, within the limits and stands
  -- under its id, there are no more rooms than the limit, at most one is in game, and no UUID to
  -- come is a room's key.
  pub run-new_server-Holds :
      (s : S) (events : List (Event S))
      → Holds config (run config store limiter events (new_server s))
  run-new_server-Holds s events = run-Holds events (new_server s) (new_server-Holds s)
