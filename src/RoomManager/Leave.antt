-- ===== src/RoomManager/Leave.antt =====
-- `handleLeaveRoom`, `removeRoom`, `handleDisconnect` and `handleToggleReady` of
-- src/room/room/RoomManager.cpp.
use project_sos_backend.Room.{
  Room, is_host, remove_player, toggle_ready, player_count, to_room_info, player_ids,
}
use project_sos_backend.RoomManager.Proto.{room_update, reject, room_closed}
use project_sos_backend.RoomManager.State.{
  Server, remove, find_session, broadcast_to, broadcast_except, add_lobby_session,
  unregister_session, notify_room_list_changed,
}
use project_sos_backend.Base.{
  String, none, some, List, [], ◌∷◌, lookup, insert, erase, ltb, if◌then◌else◌,
}

module _ {S : Type 0} where
  -- The player's session, if it is connected, joins the lobby.
  unfoldable pub return_to_lobby : String → Server S → Server S
  unfolding add_lobby_session
  return_to_lobby player_id w = elim (find_session w player_id) [
    | none ↦ w
    | some a ↦ add_lobby_session a w
  ]

  -- The loop over the players of a room that is closed.
  unfoldable pub release_players : List String → Server S → Server S
  unfolding return_to_lobby
  release_players [] w = w
  release_players (id ∷ ids) w =
      let w1 = return_to_lobby id w in
      release_players ids (record w1 { player_to_room = remove id w1.player_to_room })

  unfoldable pub remove_room : String → String → Server S → Server S
  unfolding release_players broadcast_except
  remove_room room_id excluded w = elim (lookup room_id w.rooms) [
    | none ↦ w
    | some room ↦
        let w1 = record w {
          io = broadcast_except w (player_ids room) (reject room_closed) excluded w.io;
        } in
        let w2 = release_players (player_ids room) w1 in
        record w2 { rooms = erase room_id w2.rooms }
  ]

  -- What is left to do when a player who is not the host has left `room`.
  unfoldable pub tell_others : Room → Server S → Server S
  tell_others room w =
      if ltb 0 (player_count room)
      then record w { io = broadcast_to w (player_ids room) (room_update (to_room_info room)) w.io }
      else w

  -- The player's room was found: it changes in place, so the map holds the changed room.
  unfoldable pub leave_found : String → String → Room → Server S → Server S
  unfolding remove_room tell_others notify_room_list_changed
  leave_found player_id room_id room w =
      let room' = (remove_player room player_id).0 in
      let w1 = record w {
        rooms = insert room_id room' w.rooms;
        player_to_room = remove player_id w.player_to_room;
      } in
      if is_host room player_id
      then notify_room_list_changed (remove_room room_id player_id w1)
      else notify_room_list_changed (tell_others room' w1)

  unfoldable pub handle_leave_room : String → Server S → Server S
  unfolding leave_found
  handle_leave_room player_id w = elim (w.player_to_room player_id) [
    | none ↦ w
    | some room_id ↦ elim (lookup room_id w.rooms) [
      | none ↦ record w { player_to_room = remove player_id w.player_to_room }
      | some room ↦ leave_found player_id room_id room w
    ]
  ]

  unfoldable pub handle_disconnect : String → Server S → Server S
  unfolding handle_leave_room unregister_session
  handle_disconnect player_id w = unregister_session player_id (handle_leave_room player_id w)

  unfoldable pub toggle_found : String → String → Room → Server S → Server S
  unfolding toggle_ready
  toggle_found player_id room_id room w =
      if is_host room player_id
      then w
      else (let room' = toggle_ready room player_id in
          let w1 = record w { rooms = insert room_id room' w.rooms } in
          record w1 {
            io = broadcast_to w1 (player_ids room') (room_update (to_room_info room')) w1.io;
          })

  unfoldable pub handle_toggle_ready : String → Server S → Server S
  unfolding toggle_found
  handle_toggle_ready player_id w = elim (w.player_to_room player_id) [
    | none ↦ w
    | some room_id ↦ elim (lookup room_id w.rooms) [
      | none ↦ w
      | some room ↦ toggle_found player_id room_id room w
    ]
  ]
