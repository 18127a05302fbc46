-- ===== src/Sessions/Connections/Entering.antt =====
-- Whoever enters a room by `handleCreateRoom` or `handleJoinRoom` of src/room/room/RoomManager.cpp has
-- an open connection, and `handleSlotReleased` forgets no connection of another player.
use project_sos_backend.Room.{Room, add_player, is_waiting, is_full, remove_player, player_count}
use project_sos_backend.RoomManager.Proto.{CreateRoomRequest, JoinRoomRequest}
use project_sos_backend.RoomManager.State.{Server, Config}
use project_sos_backend.RoomManager.Enter.{
  is_duplicate, speaks_for_other, is_mapped, enter, create_accepted, handle_create_room,
  join_accepted, handle_join_room,
}
use project_sos_backend.RoomManager.Leave.{return_to_lobby}
use project_sos_backend.RoomManager.Game.{slot_found, handle_slot_released}
use project_sos_backend.RoomManager.Connected.{
  connected_in, Connected, Connected-Shrinks, notify-Shrinks, return_to_lobby-Shrinks,
}
use project_sos_backend.Sessions.Client.{is_closed}
use project_sos_backend.Base.{
  ℕ, ◌≡◌, String, false, not, ◌&&◌, ◌||◌, if_cases, option_cases, lookup, length, leb, ltb, eqb,
  arith, ◌==◌,
}

module _ {S : Type 0} where
  enter-Connected :
      (r : String) (room : Room) (id : String) (a : ℕ) (w : Server S)
      → Connected w
      → is_closed w a ≡ false
      → speaks_for_other w id a ≡ false
      → Connected (enter r room id a w)
  unfolding enter connected_in
  enter-Connected r room id a w h live own p s ne e = ground (arith, h p s ne)

  slot_found-Connected :
      (id sid r : String) (room : Room) (config : Config S) (w : Server S)
      → Connected w
      → Connected (slot_found config id sid r room w)
  unfolding slot_found connected_in
  slot_found-Connected id sid r room config w h =
      let w1 = return_to_lobby id w in
      let h1 = Connected-Shrinks (return_to_lobby-Shrinks id w) h in
      if_cases Connected (not (sid == "") && not (room.session_id == sid)) _ _ (λ _. h)
        λ _.
          if_cases Connected (eqb (player_count (remove_player room id).0) 0) _ _
            (λ _ p s ne e. ground (arith, h1 p s ne)) (λ _ p s ne e. ground (arith, h1 p s ne))

  create_accepted-Connected :
      (config : Config S) (request : CreateRoomRequest) (a : ℕ) (w : Server S)
      → Connected w
      → is_closed w a ≡ false
      → speaks_for_other w request.player_id a ≡ false
      → Connected (create_accepted config request a w)
  unfolding create_accepted
  create_accepted-Connected config request a w h live own = Connected-Shrinks (notify-Shrinks _) (
      enter-Connected (config.uuid w.io.drawn) _ request.player_id a (record w { io = _ }) h live
        own)

  -- `handleCreateRoom` of an open session leaves no player without a connection.
  pub handle_create_room-Connected :
      (config : Config S) (request : CreateRoomRequest) (a : ℕ) (w : Server S)
      → Connected w
      → is_closed w a ≡ false
      → Connected (handle_create_room config request a w)
  unfolding handle_create_room
  handle_create_room-Connected config request a w h live =
      if_cases Connected (is_duplicate w request.player_id a) _ _ (λ _. h)
        λ _.
          if_cases Connected (speaks_for_other w request.player_id a) _ _ (λ _. h)
            λ own.
              if_cases Connected (is_mapped w request.player_id) _ _ (λ _. h)
                λ _.
                  if_cases Connected (leb config.max_rooms (length w.rooms)) _ _ (λ _. h)
                    λ _.
                      if_cases Connected
                        (ltb request.max_players 1
                          || ltb config.max_players_per_room request.max_players)
                        _ _ (λ _. h) λ _. create_accepted-Connected config request a w h live own

  join_accepted-Connected :
      (request : JoinRoomRequest) (room : Room) (a : ℕ) (w : Server S)
      → Connected w
      → is_closed w a ≡ false
      → speaks_for_other w request.player_id a ≡ false
      → Connected (join_accepted request room a w)
  unfolding join_accepted
  join_accepted-Connected request room a w h live own = Connected-Shrinks (notify-Shrinks _) (
      enter-Connected request.room_id (add_player room request.player_id request.player_name).0
        request.player_id a w h live own)

  -- `handleJoinRoom` of an open session leaves no player without a connection.
  pub handle_join_room-Connected :
      (request : JoinRoomRequest) (a : ℕ) (w : Server S)
      → Connected w
      → is_closed w a ≡ false
      → Connected (handle_join_room request a w)
  unfolding handle_join_room
  handle_join_room-Connected request a w h live =
      if_cases Connected (is_duplicate w request.player_id a) _ _ (λ _. h)
        λ _.
          if_cases Connected (speaks_for_other w request.player_id a) _ _ (λ _. h)
            λ own.
              if_cases Connected (is_mapped w request.player_id) _ _ (λ _. h)
                λ _.
                  option_cases Connected (lookup request.room_id w.rooms) _ _ (λ _. h)
                    λ room found.
                      if_cases Connected (not (is_waiting room.state)) _ _ (λ _. h)
                        λ _.
                          if_cases Connected (is_full room) _ _ (λ _. h)
                            λ _. join_accepted-Connected request room a w h live own

  pub handle_slot_released-Connected :
      (config : Config S) (id sid : String) (w : Server S)
      → Connected w
      → Connected (handle_slot_released config id sid w)
  unfolding handle_slot_released connected_in
  handle_slot_released-Connected config id sid w h =
      option_cases Connected (w.player_to_room id) _ _ (λ _. h)
        λ r _.
          option_cases Connected (lookup r w.rooms) _ _ (λ _ p s ne e. ground (arith, h p s ne))
            λ room _. slot_found-Connected id sid r room config w h
