-- ===== src/RoomManager/Enter.antt =====
-- `handleCreateRoom` and `handleJoinRoom` of src/room/room/RoomManager.cpp.
use project_sos_backend.Room.{
  Room, new_room, is_waiting, is_full, add_player, to_room_info, player_ids,
}
use project_sos_backend.RoomManager.Proto.{
  CreateRoomRequest, JoinRoomRequest, create_room_response, join_room_response, room_update,
  duplicate_player, invalid_request, already_in_room, room_not_found, room_full,
}
use project_sos_backend.RoomManager.State.{
  Server, Config, put, find_session, send, send_reject_to, broadcast_except, remove_lobby_session,
  notify_room_list_changed, player_id_of, set_player_id,
}
use project_sos_backend.Base.{
  ℕ, suc, String, Bool, true, false, not, ◌&&◌, ◌||◌, none, some, length, lookup, insert, ltb, leb,
  eqb, ◌==◌, if◌then◌else◌,
}

module _ {S : Type 0} where
  -- Another session is connected under this id.
  abbrev pub is_duplicate : Server S → String → ℕ → Bool
  is_duplicate w player_id a = elim (find_session w player_id) [
    | none ↦ false
    | some existing ↦ not (eqb existing a)
  ]

  -- This session speaks for another id.
  abbrev pub speaks_for_other : Server S → String → ℕ → Bool
  speaks_for_other w player_id a =
      not (player_id_of w a == "") && not (player_id_of w a == player_id)

  abbrev pub is_mapped : Server S → String → Bool
  is_mapped w player_id = elim (w.player_to_room player_id) [ none ↦ false | some _ ↦ true ]

  -- What both handlers do once the player is in the room `room`, stored under `room_id`.
  unfoldable pub enter : String → Room → String → ℕ → Server S → Server S
  unfolding remove_lobby_session set_player_id
  enter room_id room player_id a w =
      let w1 = record w {
        rooms = insert room_id room w.rooms;
        player_to_room = put player_id room_id w.player_to_room;
      } in
      let w2 = set_player_id a player_id w1 in
      remove_lobby_session a (record w2 { sessions = put player_id a w2.sessions })

  -- The room is made and the reply is sent, once the checks have passed.
  unfoldable pub create_accepted : Config S → CreateRoomRequest → ℕ → Server S → Server S
  unfolding enter notify_room_list_changed
  create_accepted config request a w =
      let room_id = config.uuid w.io.drawn in
      let room =
        new_room room_id request.room_name request.player_id request.player_name
          request.max_players in
      let w1 =
        enter room_id room request.player_id a
          (record w { io = record w.io { drawn = suc w.io.drawn } }) in
      notify_room_list_changed
        (record w1 { io = send a (create_room_response true (to_room_info room)) w1.io })

  unfoldable pub handle_create_room : Config S → CreateRoomRequest → ℕ → Server S → Server S
  unfolding create_accepted send_reject_to
  handle_create_room config request a w =
      if is_duplicate w request.player_id a
      then send_reject_to a duplicate_player w
      else if speaks_for_other w request.player_id a
      then send_reject_to a invalid_request w
      else if is_mapped w request.player_id
      then send_reject_to a already_in_room w
      else if leb config.max_rooms (length w.rooms)
      then send_reject_to a invalid_request w
      else if ltb request.max_players 1 || ltb config.max_players_per_room request.max_players
      then send_reject_to a invalid_request w
      else create_accepted config request a w

  unfoldable pub join_accepted : JoinRoomRequest → Room → ℕ → Server S → Server S
  unfolding enter notify_room_list_changed
  join_accepted request room a w =
      let room' = (add_player room request.player_id request.player_name).0 in
      let w1 = enter request.room_id room' request.player_id a w in
      let io1 = send a (join_room_response true (to_room_info room')) w1.io in
      notify_room_list_changed (record w1 {
        io =
            broadcast_except w1 (player_ids room') (room_update (to_room_info room'))
              request.player_id io1;
      })

  -- The checks on the room that was found.
  unfoldable pub join_found : JoinRoomRequest → Room → ℕ → Server S → Server S
  unfolding join_accepted send_reject_to
  join_found request room a w =
      if not (is_waiting room.state)
      then send_reject_to a invalid_request w
      else if is_full room
      then send_reject_to a room_full w
      else join_accepted request room a w

  unfoldable pub handle_join_room : JoinRoomRequest → ℕ → Server S → Server S
  unfolding join_found send_reject_to
  handle_join_room request a w =
      if is_duplicate w request.player_id a
      then send_reject_to a duplicate_player w
      else if speaks_for_other w request.player_id a
      then send_reject_to a invalid_request w
      else if is_mapped w request.player_id
      then send_reject_to a already_in_room w
      else elim (lookup request.room_id w.rooms) [
        | none ↦ send_reject_to a room_not_found w
        | some room ↦ join_found request room a w
      ]
