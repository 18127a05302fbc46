-- ===== src/RoomManager/Invariant/Playing.antt =====
-- `handleStartGame`, `handleSlotReleased` and `handleGameServerDisconnect` of
-- src/room/room/RoomManager.cpp keep the invariant of the rooms.
use project_sos_backend.Room.Players.{PlayerData, any_player}
use project_sos_backend.Room.{
  Room, in_game, has_player, is_host, can_start, set_state, set_session_id, remove_player,
  player_count, player_ids,
}
use project_sos_backend.Room.Laws.{
  IsValid, remove_player-IsValid, remove_player-SameSetup, has_player-remove_player,
  player_count_lem,
}
use project_sos_backend.RoomManager.Proto.{
  reject, not_host, not_all_ready, game_server_busy, room_closed,
}
use project_sos_backend.RoomManager.State.{Server, Config, remove, broadcast_to}
use project_sos_backend.RoomManager.Leave.{return_to_lobby}
use project_sos_backend.RoomManager.Game.{
  has_active_game, in_game_room_ids, register_session_id, send_game_starts, notify_session_created,
  end_session, start_accepted, start_found, handle_start_game, slot_found, handle_slot_released,
  close_game, close_games, handle_game_server_disconnect,
}
use project_sos_backend.RoomManager.Frames.{
  notify-SameBook, drawn-send_to, drawn-broadcast_to, return_to_lobby-SameBook, drawn-end_session,
  drawn-register_session_id, drawn-notify_session_created, send_game_starts-later,
}
use project_sos_backend.RoomManager.Invariant.{
  Inv, limits_of, Holds, Holds-SameBook, Inv-later, Inv-update, Inv-erase, Agree-insert,
  AllGood-insert, OneGame-insert, Fresh-insert, has_active_game-lookup,
}
use project_sos_backend.RoomManager.Invariant.Leaving.{close_room-Holds}
use project_sos_backend.Base.{
  suc, ◌≡◌, refl, String, false, not, ◌&&◌, some, List, [], ◌∷◌, length, lookup, insert,
  length-insert, eqb, if_cases, option_cases, arith, ◌==◌, lookup-insert,
}

-- A room that counts no players has none.
player_count-zero :
    (room : Room) (p : String) → IsValid room → player_count room ≡ 0 → has_player room p ≡ false
unfolding has_player
player_count-zero room p v zero_ =
    none_listed room.players p (omega (arith, player_count_lem room v))
  where
    none_listed : (ps : List PlayerData) (q : String) → length ps ≡ 0 → any_player q ps ≡ false
    none_listed [] q h = unfold any_player in refl
    none_listed (x ∷ ps) q h = absurd (omega arith)

module _ {S : Type 0} (config : Config S) where
  -- The room is in game from now on, under a session id of its own.
  Holds-start :
      (r sid : String) (room : Room) (w : Server S)
      → Holds config w
      → lookup r w.rooms ≡ some room
      → has_active_game w.rooms ≡ false
      → let room' = set_session_id (set_state room in_game) sid in
        Inv (limits_of config) (insert r room' w.rooms) w.player_to_room w.io.drawn
  unfolding set_session_id set_state
  Holds-start r sid room w v found idle =
      let room' = set_session_id (set_state room in_game) sid in
      let g = v.good r room found in
      record {
        agree =
            Agree-insert w.rooms w.player_to_room r room' w.player_to_room v.agree
              (λ p. unfold has_player in ground (arith, v.agree p r)) (λ p s ne. refl);
        good = AllGood-insert w.rooms config.max_players_per_room r room' v.good (record {
          keyed = g.keyed;
          valid = record { distinct = g.valid.distinct; fits = g.valid.fits; word = g.valid.word };
          limited = g.limited;
        });
        one_game =
            OneGame-insert w.rooms r room' v.one_game
              (λ s y _ e playing. ground (arith, has_active_game-lookup w.rooms s y idle e));
        bounded = rw (length-insert r room' w.rooms, found) v.bounded;
        fresh =
            Fresh-insert w.rooms config.uuid w.io.drawn r room' v.fresh (λ n h k. cc (v.fresh n h));
      }

  start_accepted-Holds :
      (r : String) (room : Room) (w : Server S)
      → Holds config w
      → lookup r w.rooms ≡ some room
      → has_active_game w.rooms ≡ false
      → Holds config (start_accepted config r room w)
  unfolding start_accepted
  start_accepted-Holds r room w v found idle =
      let sid = config.uuid w.io.drawn in
      let io1 = record w.io { drawn = suc w.io.drawn } in
      let room' = set_session_id (set_state room in_game) sid in
      let w1 = record w { rooms = insert r room' w.rooms } in
      let io2 = register_session_id config sid io1 in
      let io3 = send_game_starts config w1 sid (player_ids room') io2 in
      let io4 = notify_session_created config sid room' io3 in
      Holds-SameBook config (notify-SameBook (record w1 { io = io4 })) (
        Inv-later
          (omega (
            arith,
            drawn-notify_session_created config sid room' io3,
            send_game_starts-later config w1 sid (player_ids room') io2,
            drawn-register_session_id config sid io1,
          ))
          (Holds-start r sid room w v found idle))

  start_found-Holds :
      (id r : String) (room : Room) (w : Server S)
      → Holds config w
      → lookup r w.rooms ≡ some room
      → Holds config (start_found config id r room w)
  unfolding start_found
  start_found-Holds id r room w v found =
      if_cases (Holds config) (not (is_host room id)) _ _
        (λ _. rw (drawn-send_to w id (reject not_host) w.io) v)
        λ _.
          if_cases (Holds config) (has_active_game w.rooms) _ _
            (λ _. rw (drawn-send_to w id (reject game_server_busy) w.io) v)
            λ idle.
              if_cases (Holds config) (not (can_start room)) _ _
                (λ _. rw (drawn-send_to w id (reject not_all_ready) w.io) v)
                λ _. start_accepted-Holds r room w v found idle

  -- `handleStartGame` keeps the invariant, at most one game at a time included.
  pub handle_start_game-Holds :
      (id : String) (w : Server S) → Holds config w → Holds config (handle_start_game config id w)
  unfolding handle_start_game
  handle_start_game-Holds id w v =
      option_cases (Holds config) (w.player_to_room id) _ _ (λ _. v)
        λ r points.
          option_cases (Holds config) (lookup r w.rooms) _ _ (λ _. v)
            λ room found. start_found-Holds id r room w v found

  slot_found-Holds :
      (id sid r : String) (room : Room) (w : Server S)
      → Holds config w
      → w.player_to_room id ≡ some r
      → lookup r w.rooms ≡ some room
      → Holds config (slot_found config id sid r room w)
  unfolding slot_found
  slot_found-Holds id sid r room w v points found =
      let w1 = return_to_lobby id w in
      let same = return_to_lobby-SameBook id w in
      let v1 = Holds-SameBook config same v in
      let found1 : lookup r w1.rooms ≡ some room = rw same.rooms found in
      let points1 : w1.player_to_room id ≡ some r = rw same.mapping points in
      let room' = (remove_player room id).0 in
      let w2 = record w1 {
        rooms = insert r room' w1.rooms;
        player_to_room = remove id w1.player_to_room;
        sessions = remove id w1.sessions;
      } in
      let valid = (v1.good r room found1).valid in
      let v2 : Holds config w2 =
        Inv-update v1 r room room' (remove id w1.player_to_room) found1
          (remove_player-IsValid room id valid) (remove_player-SameSetup room id)
          (λ p. ground (arith, has_player-remove_player room id p valid, v1.agree p r))
          (λ p s ne. ground arith) in
      if_cases (Holds config) (not (sid == "") && not (room.session_id == sid)) _ _ (λ _. v)
        λ _.
          if_cases (Holds config) (eqb (player_count room') 0) _ _
            (λ empty. rw (drawn-end_session config room' w2.io) (
              Inv-erase v2 r (remove id w1.player_to_room)
                (λ p. ground (
                  arith,
                  v2.agree p r,
                  lookup-insert r r room' w1.rooms,
                  player_count-zero room' p (remove_player-IsValid room id valid),
                ))
                (λ p s ne. refl)))
            (λ _. v2)

  -- `handleSlotReleased` keeps the invariant, on every branch.
  pub handle_slot_released-Holds :
      (id sid : String) (w : Server S)
      → Holds config w
      → Holds config (handle_slot_released config id sid w)
  unfolding handle_slot_released
  handle_slot_released-Holds id sid w v =
      option_cases (Holds config) (w.player_to_room id) _ _ (λ _. v)
        λ r points.
          option_cases (Holds config) (lookup r w.rooms) _ _ (λ lost. ground (arith, v.agree id r))
            λ room found. slot_found-Holds id sid r room w v points found

  close_game-Holds :
      (r : String) (w : Server S) → Holds config w → Holds config (close_game config r w)
  unfolding close_game
  close_game-Holds r w v =
      option_cases (Holds config) (lookup r w.rooms) _ _ (λ _. v)
        λ room found.
          let io1 = broadcast_to w (player_ids room) (reject room_closed) w.io in
          close_room-Holds config r room (record w { io = end_session config room io1 })
            (rw
              (
                drawn-end_session config room io1,
                drawn-broadcast_to w (player_ids room) (reject room_closed) w.io,
              )
              v)
            found

  close_games-Holds :
      (ids : List String) (w : Server S) → Holds config w → Holds config (close_games config ids w)
  unfolding close_games
  close_games-Holds [] w v = v
  close_games-Holds (r ∷ ids) w v =
      close_games-Holds ids (close_game config r w) (close_game-Holds r w v)

  -- `handleGameServerDisconnect` keeps the invariant.
  pub handle_game_server_disconnect-Holds :
      (w : Server S) → Holds config w → Holds config (handle_game_server_disconnect config w)
  unfolding handle_game_server_disconnect
  handle_game_server_disconnect-Holds w v = close_games-Holds (in_game_room_ids w.rooms) w v
