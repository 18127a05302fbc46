-- ===== src/RoomManager/Invariant/Entering.antt =====
-- `handleCreateRoom` and `handleJoinRoom` of src/room/room/RoomManager.cpp keep the invariant of
-- the rooms.
use project_sos_backend.Room.{
  Room, is_waiting, has_player, is_full, new_room, add_player, to_room_info, player_ids,
}
use project_sos_backend.Room.Players.{any_player}
use project_sos_backend.Room.Laws.{
  new_room-IsValid, add_player-IsValid, add_player_iff, add_player-SameSetup, has_player-add_player,
}
use project_sos_backend.RoomManager.Proto.{
  create_room_response, CreateRoomRequest, JoinRoomRequest, join_room_response, room_update,
}
use project_sos_backend.RoomManager.State.{Server, Config, put, broadcast_except, send}
use project_sos_backend.RoomManager.Enter.{
  is_duplicate, speaks_for_other, is_mapped, enter, create_accepted, handle_create_room,
  join_accepted, handle_join_room,
}
use project_sos_backend.RoomManager.Frames.{notify-SameBook, drawn-broadcast_except}
use project_sos_backend.RoomManager.Invariant.{
  Inv, limits_of, Holds, IsSane, Holds-SameBook, Inv-update, Inv-add,
}
use project_sos_backend.Base.{
  ℕ, suc, ◌≤◌, ◌<◌, ◌≡◌, refl, String, true, false, not, ◌||◌, none, some, length, lookup, insert,
  if_cases, option_cases, leb, ltb, arith,
}

add_accepted :
    (room : Room) (id name : String)
    → is_waiting room.state ≡ true
    → is_full room ≡ false
    → has_player room id ≡ false
    → (add_player room id name).1 ≡ true
unfolding is_full
add_accepted room id name still free new = (add_player_iff room id name).1 (ground arith)

not_mapped :
    {S : Type 0} (w : Server S) (id : String) → is_mapped w id ≡ false → w.player_to_room id ≡ none
not_mapped w id h = ground arith

module _ {S : Type 0} where
  record Entered (room_id : String) (room : Room) (id : String) (v w : Server S) : Type 0 where
    rooms : w.rooms ≡ insert room_id room v.rooms
    mapping : w.player_to_room ≡ put id room_id v.player_to_room
    drawn : w.io.drawn ≡ v.io.drawn

  enter-Entered :
      (room_id : String) (room : Room) (id : String) (a : ℕ) (w : Server S)
      → Entered room_id room id w (enter room_id room id a w)
  unfolding enter
  enter-Entered room_id room id a w = ground arith

  Holds-enter :
      (config : Config S) (room_id : String) (room : Room) (id : String) (a : ℕ) (w : Server S)
      → Inv
          (limits_of config)
          (insert room_id room w.rooms)
          (put id room_id w.player_to_room)
          w.io.drawn
      → Holds config (enter room_id room id a w)
  Holds-enter config room_id room id a w h =
      let e = enter-Entered room_id room id a w in rw (e.rooms, e.mapping, e.drawn) h

module _ {S : Type 0} (config : Config S) (sane : IsSane config) where
  create_accepted-Holds :
      (request : CreateRoomRequest) (a : ℕ) (w : Server S)
      → Holds config w
      → w.player_to_room request.player_id ≡ none
      → length w.rooms < config.max_rooms
      → 1 ≤ request.max_players
      → request.max_players ≤ config.max_players_per_room
      → Holds config (create_accepted config request a w)
  unfolding create_accepted
  create_accepted-Holds request a w v out space least most =
      let r = config.uuid w.io.drawn in
      let room =
        new_room r request.room_name request.player_id request.player_name request.max_players in
      let w0 = record w { io = record w.io { drawn = suc w.io.drawn } } in
      let w1 = enter r room request.player_id a w0 in
      Holds-SameBook config
        (notify-SameBook
          (record w1 { io = send a (create_room_response true (to_room_info room)) w1.io }))
        (Holds-enter config r room request.player_id a w0 (
          Inv-add v room request.player_id sane.distinct out space
            (record {
              keyed = unfold new_room in refl;
              valid =
                  new_room-IsValid r request.room_name request.player_id request.player_name
                    request.max_players least (omega (arith, sane.word));
              limited = unfold new_room in most;
            })
            (unfold new_room in refl) (λ p. unfold new_room has_player any_player in ground arith)))

  join_accepted-Holds :
      (request : JoinRoomRequest) (room : Room) (a : ℕ) (w : Server S)
      → Holds config w
      → w.player_to_room request.player_id ≡ none
      → lookup request.room_id w.rooms ≡ some room
      → is_waiting room.state ≡ true
      → is_full room ≡ false
      → Holds config (join_accepted request room a w)
  unfolding join_accepted
  join_accepted-Holds request room a w v out found open_ free =
      let id = request.player_id in
      let room' = (add_player room id request.player_name).0 in
      let w1 = enter request.room_id room' id a w in
      let added : (add_player room id request.player_name).1 ≡ true =
        add_accepted room id request.player_name open_ free
          (ground (arith, v.agree id request.room_id)) in
      let io1 = send a (join_room_response true (to_room_info room')) w1.io in
      let io2 = broadcast_except w1 (player_ids room') (room_update (to_room_info room')) id io1 in
      Holds-SameBook config (notify-SameBook (record w1 { io = io2 })) (
        rw (drawn-broadcast_except w1 (player_ids room') (room_update (to_room_info room')) id io1)
          (Holds-enter config request.room_id room' id a w (
            Inv-update v request.room_id room room' (put id request.room_id w.player_to_room) found
              (add_player-IsValid room id request.player_name
                (v.good request.room_id room found).valid)
              (add_player-SameSetup room id request.player_name)
              (λ p. ground (
                arith,
                has_player-add_player room id request.player_name p added,
                v.agree p request.room_id,
              ))
              (λ p s ne. ground arith))))

  -- `handleCreateRoom` keeps the invariant, whether it makes a room or rejects the request.
  pub handle_create_room-Holds :
      (request : CreateRoomRequest) (a : ℕ) (w : Server S)
      → Holds config w
      → Holds config (handle_create_room config request a w)
  unfolding handle_create_room
  handle_create_room-Holds request a w v =
      if_cases (Holds config) (is_duplicate w request.player_id a) _ _ (λ _. v)
        λ _.
          if_cases (Holds config) (speaks_for_other w request.player_id a) _ _ (λ _. v)
            λ _.
              if_cases (Holds config) (is_mapped w request.player_id) _ _ (λ _. v)
                λ out.
                  if_cases (Holds config) (leb config.max_rooms (length w.rooms)) _ _ (λ _. v)
                    λ space.
                      if_cases (Holds config)
                        (ltb request.max_players 1
                          || ltb config.max_players_per_room request.max_players)
                        _ _ (λ _. v)
                        λ size.
                          create_accepted-Holds request a w v (not_mapped w request.player_id out)
                            (ground arith) (ground arith) (ground arith)

  -- `handleJoinRoom` keeps the invariant, whether the player joins or is rejected.
  pub handle_join_room-Holds :
      (request : JoinRoomRequest) (a : ℕ) (w : Server S)
      → Holds config w
      → Holds config (handle_join_room request a w)
  unfolding handle_join_room
  handle_join_room-Holds request a w v =
      if_cases (Holds config) (is_duplicate w request.player_id a) _ _ (λ _. v)
        λ _.
          if_cases (Holds config) (speaks_for_other w request.player_id a) _ _ (λ _. v)
            λ _.
              if_cases (Holds config) (is_mapped w request.player_id) _ _ (λ _. v)
                λ out.
                  option_cases (Holds config) (lookup request.room_id w.rooms) _ _ (λ _. v)
                    λ room found.
                      if_cases (Holds config) (not (is_waiting room.state)) _ _ (λ _. v)
                        λ still.
                          if_cases (Holds config) (is_full room) _ _ (λ _. v)
                            λ free.
                              join_accepted-Holds request room a w v
                                (not_mapped w request.player_id out) found (ground arith) free
