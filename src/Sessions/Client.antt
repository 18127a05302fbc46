-- ===== src/Sessions/Client.antt =====
-- src/room/server/ClientSession.cpp: dispatch, rate limit and closing. `boost::asio` calls the
-- handlers one at a time; a connection, a read and a close are functions on the server's state.
use project_sos_backend.Common.RateLimiter.{RateLimiter, allow}
use project_sos_backend.RoomManager.Proto.{
  Request, create_room, join_room, leave_room, toggle_ready, start_game, heartbeat, other,
  room_list_request, reject, rate_limited,
}
use project_sos_backend.RoomManager.State.{
  Server, Config, send, set_client, add_lobby_session, remove_lobby_session,
  notify_room_list_changed, player_id_of, set_player_id,
}
use project_sos_backend.RoomManager.Enter.{handle_create_room, handle_join_room}
use project_sos_backend.RoomManager.Leave.{
  handle_leave_room, handle_toggle_ready, handle_disconnect,
}
use project_sos_backend.RoomManager.Game.{handle_start_game}
use project_sos_backend.RoomManager.Listing.{handle_room_list_request}
use project_sos_backend.Base.{
  ℕ, String, Bool, true, false, Option, none, some, List, [], ◌∷◌, ◌==◌, if◌then◌else◌,
}

module _ {S : Type 0} where
  -- The constructor and `start`: a new object, which joins the lobby.
  unfoldable pub accept : ℕ → String → Server S → Server S
  unfolding add_lobby_session set_client
  accept a remote_ip w = add_lobby_session a (record w {
    clients =
        set_client a (record { player_id = ""; remote_ip = remote_ip; closed = false }) w.clients;
  })

  abbrev pub is_closed : Server S → ℕ → Bool
  is_closed w a = elim (w.clients a) [ none ↦ true | some c ↦ c.closed ]

  -- `player_id_.clear()` follows `handleDisconnect`.
  unfoldable pub disconnect_player : ℕ → String → Server S → Server S
  unfolding handle_disconnect set_player_id
  disconnect_player a player_id w =
      if player_id == "" then w else set_player_id a "" (handle_disconnect player_id w)

  unfoldable pub close : ℕ → Server S → Server S
  unfolding disconnect_player remove_lobby_session set_client
  close a w = elim (w.clients a) [
    | none ↦ w
    | some c ↦
        if c.closed
        then w
        else disconnect_player a c.player_id (
            remove_lobby_session a
              (record w { clients = set_client a (record c { closed = true }) w.clients }))
  ]

  -- `LeaveRoom` of a session that speaks for a player.
  unfoldable pub leave_and_return : ℕ → String → Server S → Server S
  unfolding handle_leave_room add_lobby_session notify_room_list_changed
  leave_and_return a player_id w =
      notify_room_list_changed (add_lobby_session a (handle_leave_room player_id w))

module _ {S : Type 0} (config : Config S) where
  unfoldable pub dispatch : ℕ → Request → Server S → Server S
  unfolding leave_and_return handle_toggle_ready handle_start_game handle_create_room
      handle_join_room handle_room_list_request
  dispatch a (create_room request) w = handle_create_room config request a w
  dispatch a (join_room request) w = handle_join_room request a w
  dispatch a leave_room w =
      if player_id_of w a == "" then w else leave_and_return a (player_id_of w a) w
  dispatch a toggle_ready w =
      if player_id_of w a == "" then w else handle_toggle_ready (player_id_of w a) w
  dispatch a start_game w =
      if player_id_of w a == "" then w else handle_start_game config (player_id_of w a) w
  dispatch a (room_list_request page page_size) w = handle_room_list_request page page_size a w
  dispatch a heartbeat w = w
  dispatch a other w = w

module _ {S : Type 0} (limiter : Option (RateLimiter S)) where
  -- Whether the request may go on, and the state after the count. An exception lets it go on.
  unfoldable pub check_rate : ℕ → Server S → Bool × Server S
  check_rate a w = elim limiter [
    | none ↦ (true, w)
    | some l ↦
        let ip : String = elim (w.clients a) [ none ↦ "" | some c ↦ c.remote_ip ] in
        let (verdict, redis') = allow l ip w.io.redis in
        let w1 = record w { io = record w.io { redis = redis' } } in
        elim verdict [ none ↦ (true, w1) | some allowed ↦ (allowed, w1) ]
  ]

module _ {S : Type 0} (config : Config S) (limiter : Option (RateLimiter S)) where
  unfoldable pub process_message : ℕ → Request → Server S → Server S
  unfolding check_rate dispatch close
  process_message a request w =
      let (allowed, w1) = check_rate limiter a w in
      if allowed
      then dispatch config a request w1
      else close a (record w1 { io = send a (reject rate_limited) w1.io })

  -- The messages of one read, until one of them closes the session.
  unfoldable pub process_all : ℕ → List Request → Server S → Server S
  process_all a [] w = w
  process_all a (request ∷ requests) w =
      let w1 = process_message a request w in
      let rest = process_all a requests w1 in if is_closed w1 a then w1 else rest
