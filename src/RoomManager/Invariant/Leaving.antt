-- ===== src/RoomManager/Invariant/Leaving.antt =====
-- `handleLeaveRoom`, `handleDisconnect` and `handleToggleReady` of src/room/room/RoomManager.cpp
-- keep the invariant of the rooms.
use project_sos_backend.Room.{Room, is_host, remove_player, toggle_ready, player_ids, to_room_info}
use project_sos_backend.Room.Laws.{
  remove_player-IsValid, remove_player-SameSetup, has_player-remove_player, toggle_ready-IsValid,
  toggle_ready-SameSetup, has_player-toggle_ready, mem_id-room,
}
use project_sos_backend.RoomManager.Proto.{room_update, reject, room_closed}
use project_sos_backend.RoomManager.State.{Server, Config, remove, broadcast_except}
use project_sos_backend.RoomManager.Leave.{
  release_players, remove_room, tell_others, leave_found, handle_leave_room, handle_disconnect,
  toggle_found, handle_toggle_ready,
}
use project_sos_backend.RoomManager.Frames.{
  SameBook, notify-SameBook, drawn-broadcast_to, drawn-broadcast_except, unmapped,
  release_players-Released,
}
use project_sos_backend.RoomManager.Invariant.{Holds, Holds-SameBook, Inv-update, Inv-erase}
use project_sos_backend.Base.{
  ◌≡◌, refl, String, some, lookup, insert, erase, if_cases, option_cases, arith,
}

module _ {S : Type 0} (config : Config S) where
  -- A room is closed once all its players have been released.
  pub close_room-Holds :
      (r : String) (room : Room) (w : Server S)
      → Holds config w
      → lookup r w.rooms ≡ some room
      → let w' = release_players (player_ids room) w in
        Holds config (record w' { rooms = erase r w'.rooms })
  close_room-Holds r room w v found =
      let ids = player_ids room in
      let w' = release_players ids w in
      let e = release_players-Released ids w in
      rw (e.rooms, e.io)
        (Inv-erase v r w'.player_to_room
          (λ p. unfold unmapped in ground (arith, e.mapping p, mem_id-room room p, v.agree p r))
          (λ p s ne.
            unfold unmapped in ground (arith, e.mapping p, mem_id-room room p, v.agree p r)))

  pub remove_room-Holds :
      (r excluded : String) (w : Server S)
      → Holds config w
      → Holds config (remove_room r excluded w)
  unfolding remove_room
  remove_room-Holds r excluded w v =
      option_cases (Holds config) (lookup r w.rooms) _ _ (λ _. v)
        λ room found.
          close_room-Holds r room
            (record w {
              io = broadcast_except w (player_ids room) (reject room_closed) excluded w.io;
            })
            (rw (drawn-broadcast_except w (player_ids room) (reject room_closed) excluded w.io) v)
            found

  tell_others-SameBook : (room : Room) (w : Server S) → SameBook w (tell_others room w)
  unfolding tell_others
  tell_others-SameBook room w =
      ground (arith, drawn-broadcast_to w (player_ids room) (room_update (to_room_info room)) w.io)

  leave_found-Holds :
      (id r : String) (room : Room) (w : Server S)
      → Holds config w
      → w.player_to_room id ≡ some r
      → lookup r w.rooms ≡ some room
      → Holds config (leave_found id r room w)
  unfolding leave_found
  leave_found-Holds id r room w v points found =
      let room' = (remove_player room id).0 in
      let w1 = record w {
        rooms = insert r room' w.rooms;
        player_to_room = remove id w.player_to_room;
      } in
      let valid = (v.good r room found).valid in
      let v1 : Holds config w1 =
        Inv-update v r room room' (remove id w.player_to_room) found
          (remove_player-IsValid room id valid) (remove_player-SameSetup room id)
          (λ p. ground (arith, has_player-remove_player room id p valid, v.agree p r))
          (λ p s ne. ground arith) in
      if_cases (Holds config) (is_host room id) _ _
        (λ _.
          Holds-SameBook config (notify-SameBook (remove_room r id w1))
            (remove_room-Holds r id w1 v1))
        (λ _.
          Holds-SameBook config (notify-SameBook (tell_others room' w1))
            (Holds-SameBook config (tell_others-SameBook room' w1) v1))

  -- `handleLeaveRoom` keeps the invariant: for a player in no room, for the host and for a guest.
  pub handle_leave_room-Holds :
      (id : String) (w : Server S) → Holds config w → Holds config (handle_leave_room id w)
  unfolding handle_leave_room
  handle_leave_room-Holds id w v =
      option_cases (Holds config) (w.player_to_room id) _ _ (λ _. v)
        λ r points.
          option_cases (Holds config) (lookup r w.rooms) _ _ (λ lost. ground (arith, v.agree id r))
            λ room found. leave_found-Holds id r room w v points found

  pub handle_disconnect-Holds :
      (id : String) (w : Server S) → Holds config w → Holds config (handle_disconnect id w)
  unfolding handle_disconnect
  handle_disconnect-Holds id w v = handle_leave_room-Holds id w v

  toggle_found-Holds :
      (id r : String) (room : Room) (w : Server S)
      → Holds config w
      → lookup r w.rooms ≡ some room
      → Holds config (toggle_found id r room w)
  unfolding toggle_found
  toggle_found-Holds id r room w v found =
      let room' = toggle_ready room id in
      let w1 = record w { rooms = insert r room' w.rooms } in
      if_cases (Holds config) (is_host room id) _ _ (λ _. v)
        λ _.
          rw (drawn-broadcast_to w1 (player_ids room') (room_update (to_room_info room')) w1.io) (
            Inv-update v r room room' w.player_to_room found
              (toggle_ready-IsValid room id (v.good r room found).valid)
              (toggle_ready-SameSetup room id)
              (λ p. ground (arith, has_player-toggle_ready room id p, v.agree p r))
              (λ p s ne. refl))

  -- `handleToggleReady` keeps the invariant.
  pub handle_toggle_ready-Holds :
      (id : String) (w : Server S) → Holds config w → Holds config (handle_toggle_ready id w)
  unfolding handle_toggle_ready
  handle_toggle_ready-Holds id w v =
      option_cases (Holds config) (w.player_to_room id) _ _ (λ _. v)
        λ r points.
          option_cases (Holds config) (lookup r w.rooms) _ _ (λ _. v)
            λ room found. toggle_found-Holds id r room w v found
