-- ===== src/RoomManager/Game.antt =====
-- `handleStartGame`, `handleSlotReleased`, `handleGameServerDisconnect` and `hasActiveGame` of
-- src/room/room/RoomManager.cpp.
use project_sos_backend.Common.SessionStore.{
  create_token, register_game_session, unregister_game_session,
}
use project_sos_backend.Room.Players.{PlayerData}
use project_sos_backend.Room.{
  Room, in_game, is_waiting, is_host, can_start, set_state, set_session_id, remove_player,
  player_ids, player_count,
}
use project_sos_backend.RoomManager.Proto.{
  Envelope, game_start, reject, not_host, not_all_ready, game_server_busy, room_closed,
  session_created, session_ended,
}
use project_sos_backend.RoomManager.State.{
  Server, Config, Io, remove, send_to, broadcast_to, notify_room_list_changed,
}
use project_sos_backend.RoomManager.Leave.{return_to_lobby, release_players}
use project_sos_backend.Base.{
  suc, String, Bool, false, not, ◌&&◌, ◌||◌, none, some, List, [], ◌∷◌, ◌++◌, map, lookup, insert,
  erase, eqb, ◌==◌, if◌then◌else◌,
}

unfoldable pub has_active_game : List (String × Room) → Bool
has_active_game [] = false
has_active_game ((id, room) ∷ rooms) = not (is_waiting room.state) || has_active_game rooms

-- The keys of the rooms in game.
unfoldable pub in_game_room_ids : List (String × Room) → List String
in_game_room_ids [] = []
in_game_room_ids ((id, room) ∷ rooms) =
    let rest = in_game_room_ids rooms in if is_waiting room.state then rest else id ∷ rest

module _ {S : Type 0} (config : Config S) where
  -- An exception is logged, and the game starts all the same.
  unfoldable pub register_session_id : String → Io S → Io S
  register_session_id session_id io = elim config.session_store [
    | none ↦ io
    | some store ↦ record io { redis = (register_game_session store session_id io.redis).1 }
  ]

  unfoldable pub unregister_session_id : String → Io S → Io S
  unregister_session_id session_id io = elim config.session_store [
    | none ↦ io
    | some store ↦ record io { redis = (unregister_game_session store session_id io.redis).1 }
  ]

  -- `generateUuid()`
  unfoldable pub draw_uuid : Io S → String × Io S
  draw_uuid io = (config.uuid io.drawn, record io { drawn = suc io.drawn })

  -- A token of the store, or a plain UUID where there is no store or it throws.
  unfoldable pub issue_token : String → String → Io S → String × Io S
  unfolding draw_uuid
  issue_token player_id session_id io = elim config.session_store [
    | none ↦ draw_uuid io
    | some store ↦
        let (token, redis') = create_token store player_id session_id io.drawn io.redis in
        let io' = record io { redis = redis'; drawn = suc io.drawn } in
        elim token [ none ↦ draw_uuid io' | some t ↦ (t, io') ]
  ]

  abbrev pub game_start_message : String → String → Envelope
  game_start_message session_id token = game_start (record {
    session_id = session_id;
    auth_token = token;
    game_server_host = config.game_server_host;
    game_server_port = config.game_server_port;
  })

  -- The loop that sends a `GameStart` with a token of its own to each player.
  unfoldable pub send_game_starts : Server S → String → List String → Io S → Io S
  unfolding issue_token
  send_game_starts w session_id [] io = io
  send_game_starts w session_id (id ∷ ids) io =
      let (token, io') = issue_token id session_id io in
      send_game_starts w session_id ids (send_to w id (game_start_message session_id token) io')

  unfoldable pub notify_session_created : String → Room → Io S → Io S
  notify_session_created session_id room io =
      if config.has_chat_channel
      then record io {
        notices =
            io.notices
            ++ session_created session_id
                (map (λ (p : PlayerData). (p.player_id, p.player_name)) room.players)
              ∷ [];
      }
      else io

  unfoldable pub notify_session_ended : String → Io S → Io S
  notify_session_ended session_id io =
      if config.has_chat_channel && not (session_id == "")
      then record io { notices = io.notices ++ session_ended session_id ∷ [] }
      else io

  -- The checks have passed: the room is in game under a new session id, and all are told.
  unfoldable pub start_accepted : String → Room → Server S → Server S
  unfolding set_state set_session_id draw_uuid register_session_id send_game_starts
      notify_session_created notify_room_list_changed
  start_accepted room_id room w =
      let (session_id, io1) = draw_uuid w.io in
      let room' = set_session_id (set_state room in_game) session_id in
      let w1 = record w { rooms = insert room_id room' w.rooms } in
      let io2 = register_session_id session_id io1 in
      let io3 = send_game_starts w1 session_id (player_ids room') io2 in
      notify_room_list_changed (record w1 { io = notify_session_created session_id room' io3 })

  unfoldable pub start_found : String → String → Room → Server S → Server S
  unfolding start_accepted
  start_found player_id room_id room w =
      if not (is_host room player_id)
      then record w { io = send_to w player_id (reject not_host) w.io }
      else if has_active_game w.rooms
      then record w { io = send_to w player_id (reject game_server_busy) w.io }
      else if not (can_start room)
      then record w { io = send_to w player_id (reject not_all_ready) w.io }
      else start_accepted room_id room w

  unfoldable pub handle_start_game : String → Server S → Server S
  unfolding start_found
  handle_start_game player_id w = elim (w.player_to_room player_id) [
    | none ↦ w
    | some room_id ↦ elim (lookup room_id w.rooms) [
      | none ↦ w
      | some room ↦ start_found player_id room_id room w
    ]
  ]

  -- The game of `room` has ended: the store and the chat server are told.
  unfoldable pub end_session : Room → Io S → Io S
  unfolding unregister_session_id notify_session_ended
  end_session room io =
      notify_session_ended room.session_id (unregister_session_id room.session_id io)

  unfoldable pub slot_found : String → String → String → Room → Server S → Server S
  unfolding end_session return_to_lobby
  slot_found player_id session_id room_id room w =
      if not (session_id == "") && not (room.session_id == session_id)
      then w
      else (let w1 = return_to_lobby player_id w in
          let room' = (remove_player room player_id).0 in
          let w2 = record w1 {
            rooms = insert room_id room' w1.rooms;
            player_to_room = remove player_id w1.player_to_room;
            sessions = remove player_id w1.sessions;
          } in
          if eqb (player_count room') 0
          then record w2 { io = end_session room' w2.io; rooms = erase room_id w2.rooms }
          else w2)

  unfoldable pub handle_slot_released : String → String → Server S → Server S
  unfolding slot_found
  handle_slot_released player_id session_id w = elim (w.player_to_room player_id) [
    | none ↦ w
    | some room_id ↦ elim (lookup room_id w.rooms) [
      | none ↦ record w {
        player_to_room = remove player_id w.player_to_room;
        sessions = remove player_id w.sessions;
      }
      | some room ↦ slot_found player_id session_id room_id room w
    ]
  ]

  -- One room of the loop of `handleGameServerDisconnect`.
  unfoldable pub close_game : String → Server S → Server S
  unfolding end_session release_players
  close_game room_id w = elim (lookup room_id w.rooms) [
    | none ↦ w
    | some room ↦
        let io1 = broadcast_to w (player_ids room) (reject room_closed) w.io in
        let w1 = release_players (player_ids room) (record w { io = end_session room io1 }) in
        record w1 { rooms = erase room_id w1.rooms }
  ]

  unfoldable pub close_games : List String → Server S → Server S
  close_games [] w = w
  close_games (id ∷ ids) w = close_games ids (close_game id w)

  unfoldable pub handle_game_server_disconnect : Server S → Server S
  handle_game_server_disconnect w = close_games (in_game_room_ids w.rooms) w
