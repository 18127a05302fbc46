-- ===== src/Network/Room/Closed.antt =====
-- A session of src/room/server/ClientSession.cpp that is closed stays closed: no handler of
-- src/room/room/RoomManager.cpp opens it.
use project_sos_backend.Common.RateLimiter.{RateLimiter}
use project_sos_backend.Common.SessionStore.{Store}
use project_sos_backend.Room.{Room}
use project_sos_backend.RoomManager.Proto.{
  Request, CreateRoomRequest, JoinRoomRequest, create_room, join_room, leave_room, toggle_ready,
  start_game, heartbeat, other, room_list_request, reject, rate_limited,
}
use project_sos_backend.RoomManager.State.{
  Server, Config, set_client, send, send_reject_to, player_id_of, set_player_id, unregister_session,
  remove_lobby_session, add_lobby_session, notify_room_list_changed,
}
use project_sos_backend.RoomManager.Enter.{
  enter, create_accepted, handle_create_room, join_accepted, join_found, handle_join_room,
}
use project_sos_backend.RoomManager.Leave.{
  return_to_lobby, handle_leave_room, handle_disconnect, handle_toggle_ready,
}
use project_sos_backend.RoomManager.Game.{
  handle_start_game, handle_game_server_disconnect, slot_found, handle_slot_released,
}
use project_sos_backend.RoomManager.Listing.{lobby_timer_fired, handle_room_list_request}
use project_sos_backend.RoomManager.Connected.{
  notify-Shrinks, return_to_lobby-Shrinks, handle_leave_room-Shrinks, handle_toggle_ready-Shrinks,
  handle_start_game-Shrinks, handle_game_server_disconnect-Shrinks, lobby_timer_fired-Shrinks,
}
use project_sos_backend.Sessions.Client.{
  accept, disconnect_player, close, leave_and_return, dispatch, check_rate, process_message,
  process_all, is_closed,
}
use project_sos_backend.Sessions.GameServer.{
  GameRequest, handle_token_validate, handle_game_server_heartbeat, token_validate_request,
  slot_released, game_server_heartbeat, process_game_message, close_game_server,
}
use project_sos_backend.Sessions.Machine.{free_client, step}
use project_sos_backend.Sessions.Connections.Closing.{close-closed}
use project_sos_backend.Network.Room.{
  Inside, released, from_game, game_ended, lobby_wait_ended, redis_set, event_of, room_host,
}
use project_sos_backend.Network.Silence.{Closes}
use project_sos_backend.Base.{
  ℕ, ◌≡◌, refl, ap, ◌∙◌, String, true, Option, none, some, List, [], ◌∷◌, lookup, if_cases,
  option_cases, Option-cases, inl, inr, arith, ◌==◌,
}

module _ {S : Type 0} where
  abbrev IsClosed : ℕ → Server S → Type 0
  IsClosed b w = is_closed w b ≡ true

  -- Sessions that are closed in one state are closed in the other.
  abbrev pub StillClosed : Server S → Server S → Type 0
  StillClosed v w = (b : ℕ) → is_closed v b ≡ true → is_closed w b ≡ true

  StillClosed-clients : (v w : Server S) → w.clients ≡ v.clients → StillClosed v w
  StillClosed-clients v w e b down =
      ap (λ f. elim (f b) [ none ↦ true | some c ↦ c.closed ]) e ∙ down

  set_player_id-StillClosed :
      (a : ℕ) (id : String) (w : Server S) → StillClosed w (set_player_id a id w)
  unfolding set_player_id set_client
  set_player_id-StillClosed a id w b down = ground arith

  handle_disconnect-StillClosed :
      (id : String) (w : Server S) → StillClosed w (handle_disconnect id w)
  unfolding handle_disconnect unregister_session
  handle_disconnect-StillClosed id w =
      StillClosed-clients w (handle_leave_room id w) (handle_leave_room-Shrinks id w).clients

  close-StillClosed : (a : ℕ) (w : Server S) → StillClosed w (close a w)
  unfolding close disconnect_player remove_lobby_session
  close-StillClosed a w b down =
      option_cases (IsClosed b) (w.clients a) _ _ (λ _. down)
        λ c found.
          if_cases (IsClosed b) c.closed _ _ (λ _. down)
            λ _.
              let w1 =
                remove_lobby_session a
                  (record w { clients = set_client a (record c { closed = true }) w.clients }) in
              let first : is_closed w1 b ≡ true = unfold set_client in ground arith in
              if_cases (IsClosed b) (c.player_id == "") _ _ (λ _. first)
                λ _.
                  set_player_id-StillClosed a "" (handle_disconnect c.player_id w1) b
                    (handle_disconnect-StillClosed c.player_id w1 b first)

  create_accepted-StillClosed :
      (config : Config S) (request : CreateRoomRequest) (a : ℕ) (w : Server S)
      → StillClosed w (create_accepted config request a w)
  unfolding create_accepted enter set_player_id set_client remove_lobby_session
      notify_room_list_changed
  create_accepted-StillClosed config request a w b down = ground arith

  handle_create_room-StillClosed :
      (config : Config S) (request : CreateRoomRequest) (a : ℕ) (w : Server S)
      → StillClosed w (handle_create_room config request a w)
  unfolding handle_create_room send_reject_to
  handle_create_room-StillClosed config request a w b down =
      let more = create_accepted-StillClosed config request a w b down in ground (arith, more)

  join_accepted-StillClosed :
      (request : JoinRoomRequest) (room : Room) (a : ℕ) (w : Server S)
      → StillClosed w (join_accepted request room a w)
  unfolding join_accepted enter set_player_id set_client remove_lobby_session
      notify_room_list_changed
  join_accepted-StillClosed request room a w b down = ground arith

  handle_join_room-StillClosed :
      (request : JoinRoomRequest) (a : ℕ) (w : Server S)
      → StillClosed w (handle_join_room request a w)
  unfolding handle_join_room join_found send_reject_to
  handle_join_room-StillClosed request a w b down =
      elim (Option-cases (lookup request.room_id w.rooms)) [
        | inl gone ↦ ground arith
        | inr (room, found) ↦
            let more = join_accepted-StillClosed request room a w b down in ground (arith, more)
      ]

  slot_found-StillClosed :
      (config : Config S) (id sid r : String) (room : Room) (w : Server S)
      → StillClosed w (slot_found config id sid r room w)
  unfolding slot_found
  slot_found-StillClosed config id sid r room w b down =
      let back =
        StillClosed-clients w (return_to_lobby id w) (return_to_lobby-Shrinks id w).clients b
          down in
      ground (arith, back)

  handle_slot_released-StillClosed :
      (config : Config S) (id sid : String) (w : Server S)
      → StillClosed w (handle_slot_released config id sid w)
  unfolding handle_slot_released
  handle_slot_released-StillClosed config id sid w b down =
      option_cases (IsClosed b) (w.player_to_room id) _ _ (λ _. down)
        λ r _.
          option_cases (IsClosed b) (lookup r w.rooms) _ _ (λ _. down)
            λ room _. slot_found-StillClosed config id sid r room w b down

module _ {S : Type 0} (config : Config S) (limiter : Option (RateLimiter S)) where
  dispatch-StillClosed :
      (a : ℕ) (request : Request) (w : Server S) → StillClosed w (dispatch config a request w)
  unfolding dispatch leave_and_return add_lobby_session handle_room_list_request
  dispatch-StillClosed a (create_room request) w b down =
      handle_create_room-StillClosed config request a w b down
  dispatch-StillClosed a (join_room request) w b down =
      handle_join_room-StillClosed request a w b down
  dispatch-StillClosed a leave_room w b down =
      let id = player_id_of w a in
      let w1 = add_lobby_session a (handle_leave_room id w) in
      let e : (notify_room_list_changed w1).clients ≡ w.clients =
        (notify-Shrinks w1).clients ∙ (handle_leave_room-Shrinks id w).clients in
      let more = StillClosed-clients w (notify_room_list_changed w1) e b down in
      if_cases (IsClosed b) (id == "") _ _ (λ _. down) λ _. more
  dispatch-StillClosed a toggle_ready w b down =
      let id = player_id_of w a in
      let more =
        StillClosed-clients w (handle_toggle_ready id w) (handle_toggle_ready-Shrinks id w).clients
          b down in
      if_cases (IsClosed b) (id == "") _ _ (λ _. down) λ _. more
  dispatch-StillClosed a start_game w b down =
      let id = player_id_of w a in
      let more =
        StillClosed-clients w (handle_start_game config id w)
          (handle_start_game-Shrinks config id w).clients b down in
      if_cases (IsClosed b) (id == "") _ _ (λ _. down) λ _. more
  dispatch-StillClosed a (room_list_request page size) w b down = down
  dispatch-StillClosed a heartbeat w b down = down
  dispatch-StillClosed a other w b down = down

  check_rate-clients : (a : ℕ) (w : Server S) → (check_rate limiter a w).1.clients ≡ w.clients
  unfolding check_rate
  check_rate-clients a w = ground arith

  process_message-StillClosed :
      (a : ℕ) (request : Request) (w : Server S)
      → StillClosed w (process_message config limiter a request w)
  unfolding process_message
  process_message-StillClosed a request w b down =
      let w1 = (check_rate limiter a w).1 in
      let first = StillClosed-clients w w1 (check_rate-clients a w) b down in
      if_cases (IsClosed b) (check_rate limiter a w).0 _ _
        (λ _. dispatch-StillClosed a request w1 b first)
        (λ _. close-StillClosed a (record w1 { io = send a (reject rate_limited) w1.io }) b first)

  process_all-StillClosed :
      (a : ℕ) (requests : List Request) (w : Server S)
      → StillClosed w (process_all config limiter a requests w)
  unfolding process_all
  process_all-StillClosed a [] w b down = down
  process_all-StillClosed a (request ∷ requests) w b down =
      let w1 = process_message config limiter a request w in
      let first = process_message-StillClosed a request w b down in
      if_cases (IsClosed b) (is_closed w1 a) _ _ (λ _. first)
        λ _. process_all-StillClosed a requests w1 b first

module _ {S : Type 0} (config : Config S) (store : Store S) (limiter : Option (RateLimiter S)) where
  step-StillClosed :
      (e : Inside S) (w : Server S) → StillClosed w (step config store limiter (event_of e) w)
  unfolding step process_game_message close_game_server handle_token_validate
      handle_game_server_heartbeat
  step-StillClosed (released a) w b down =
      let more = close-StillClosed a w b down in unfold free_client in ground (arith, more)
  step-StillClosed (from_game g (token_validate_request token)) w b down = down
  step-StillClosed (from_game g (slot_released id sid)) w b down =
      handle_slot_released-StillClosed config id sid w b down
  step-StillClosed (from_game g (game_server_heartbeat id)) w b down = down
  step-StillClosed (from_game g GameRequest.other) w b down = down
  step-StillClosed (game_ended g) w b down =
      let more =
        StillClosed-clients w (handle_game_server_disconnect config w)
          (handle_game_server_disconnect-Shrinks config w).clients b down in
      ground (arith, more)
  step-StillClosed (lobby_wait_ended cancelled) w b down =
      StillClosed-clients w (lobby_timer_fired cancelled w)
        (lobby_timer_fired-Shrinks cancelled w).clients b down
  step-StillClosed (redis_set s) w b down = down

  pub room_host-Closes : Closes (room_host config store limiter)
  unfolding room_host accept add_lobby_session set_client
  room_host-Closes = record {
    connect = λ a b ip w down differs. ground (arith, down, differs);
    process = λ a b now requests w down. process_all-StillClosed config limiter a requests w b down;
    close = λ a b w down. close-StillClosed a w b down;
    closing = λ a w. close-closed a w;
    other = λ e b w down. step-StillClosed e w b down;
    clear = λ b w. refl;
  }
