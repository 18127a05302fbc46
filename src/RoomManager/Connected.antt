-- ===== src/RoomManager/Connected.antt =====
-- Which players of src/room/room/RoomManager.cpp have an open connection. Most handlers change
-- neither the sessions nor their objects, and add no player to a room.
use project_sos_backend.Room.{Room, is_host, remove_player, can_start, player_ids}
use project_sos_backend.RoomManager.Proto.{reject, room_closed}
use project_sos_backend.RoomManager.State.{
  Server, Config, Client, broadcast_to, broadcast_except, remove, notify_room_list_changed,
}
use project_sos_backend.RoomManager.Leave.{
  return_to_lobby, release_players, remove_room, tell_others, leave_found, handle_leave_room,
  toggle_found, handle_toggle_ready,
}
use project_sos_backend.RoomManager.Game.{
  in_game_room_ids, has_active_game, end_session, start_accepted, start_found, handle_start_game,
  close_game, close_games, handle_game_server_disconnect,
}
use project_sos_backend.RoomManager.Listing.{send_first_page, lobby_timer_fired}
use project_sos_backend.Base.{
  ℕ, ◌≡◌, ◌≢◌, refl, ◌∙◌, String, Bool, true, false, not, ◌&&◌, Option, none, some, List, [], ◌∷◌,
  lookup, insert, if_cases, Option-cases, inl, inr, option_cases, arith, ◌==◌,
}

unfoldable pub connected_in : (String → Option ℕ) → (ℕ → Option Client) → String → Bool
connected_in sessions clients p = elim (sessions p) [
  | none ↦ false
  | some a ↦ elim (clients a) [ none ↦ false | some c ↦ not c.closed && c.player_id == p ]
]

module _ {S : Type 0} where
  -- The session under which a player is registered is open, and speaks for the player.
  abbrev pub is_connected : Server S → String → Bool
  is_connected w p = connected_in w.sessions w.clients p

  -- Every player of a room, but for the empty id, is connected.
  abbrev pub Connected : Server S → Type 0
  Connected w = (p r : String) → p ≢ "" → w.player_to_room p ≡ some r → is_connected w p ≡ true

  pub record Shrinks (v w : Server S) : Type 0 where
    pub sessions : w.sessions ≡ v.sessions
    pub clients : w.clients ≡ v.clients
    pub mapping : (p r : String) → w.player_to_room p ≡ some r → v.player_to_room p ≡ some r

  pub Shrinks-refl : (w : Server S) → Shrinks w w
  Shrinks-refl w = record { sessions = refl; clients = refl; mapping = λ p r e. e }

  pub Shrinks-trans : {u v w : Server S} → Shrinks u v → Shrinks v w → Shrinks u w
  Shrinks-trans h k = record {
    sessions = k.sessions ∙ h.sessions;
    clients = k.clients ∙ h.clients;
    mapping = λ p r e. h.mapping p r (k.mapping p r e);
  }

  pub Connected-Shrinks : {v w : Server S} → Shrinks v w → Connected v → Connected w
  Connected-Shrinks s h p r ne e = rw (s.sessions, s.clients) (h p r ne (s.mapping p r e))

  pub notify-Shrinks : (w : Server S) → Shrinks w (notify_room_list_changed w)
  unfolding notify_room_list_changed
  notify-Shrinks w = record {
    sessions = ground arith;
    clients = ground arith;
    mapping = λ p r e. ground arith;
  }

  -- The mapping loses at most the player `id`.
  unmap-Shrinks :
      (id : String) (w : Server S)
      → Shrinks w (record w { player_to_room = remove id w.player_to_room })
  unmap-Shrinks id w = record { sessions = refl; clients = refl; mapping = λ p r e. ground arith }

  pub return_to_lobby-Shrinks : (id : String) (w : Server S) → Shrinks w (return_to_lobby id w)
  unfolding return_to_lobby
  return_to_lobby-Shrinks id w = record {
    sessions = ground arith;
    clients = ground arith;
    mapping = λ p r e. ground arith;
  }

  release_players-Shrinks : (ids : List String) (w : Server S) → Shrinks w (release_players ids w)
  unfolding release_players
  release_players-Shrinks [] w = Shrinks-refl w
  release_players-Shrinks (id ∷ ids) w =
      let w1 = return_to_lobby id w in
      Shrinks-trans (return_to_lobby-Shrinks id w) (
        Shrinks-trans (unmap-Shrinks id w1) (
          release_players-Shrinks ids (record w1 { player_to_room = remove id w1.player_to_room })))

  remove_room-Shrinks : (r x : String) (w : Server S) → Shrinks w (remove_room r x w)
  unfolding remove_room
  remove_room-Shrinks r x w =
      option_cases (Shrinks w) (lookup r w.rooms) _ _ (λ _. Shrinks-refl w)
        λ room _.
          let w1 = record w {
            io = broadcast_except w (player_ids room) (reject room_closed) x w.io;
          } in
          let s = release_players-Shrinks (player_ids room) w1 in
          record { sessions = s.sessions; clients = s.clients; mapping = s.mapping }

  tell_others-Shrinks : (room : Room) (w : Server S) → Shrinks w (tell_others room w)
  unfolding tell_others
  tell_others-Shrinks room w = record {
    sessions = ground arith;
    clients = ground arith;
    mapping = λ p r e. ground arith;
  }

  -- The state in which the room and the mapping have lost the player.
  abbrev without_player : String → String → Room → Server S → Server S
  without_player id r room w = record w {
    rooms = insert r (remove_player room id).0 w.rooms;
    player_to_room = remove id w.player_to_room;
  }

  leave_found-Shrinks :
      (id r : String) (room : Room) (w : Server S)
      → Shrinks (without_player id r room w) (leave_found id r room w)
  unfolding leave_found
  leave_found-Shrinks id r room w =
      let room' = (remove_player room id).0 in
      let w1 = without_player id r room w in
      if_cases (Shrinks w1) (is_host room id) _ _
        (λ _. Shrinks-trans (remove_room-Shrinks r id w1) (notify-Shrinks (remove_room r id w1)))
        (λ _. Shrinks-trans (tell_others-Shrinks room' w1) (notify-Shrinks (tell_others room' w1)))

  gone-Shrinks :
      {v w : Server S} (id : String)
      → Shrinks v w
      → v.player_to_room id ≡ none
      → w.player_to_room id ≡ none
  gone-Shrinks {v} {w} id s e = elim (Option-cases (w.player_to_room id)) [
    | inl gone ↦ gone
    | inr (r, f) ↦ cc (s.mapping id r f)
  ]

  -- A player who leaves enters no room, and nobody else does.
  pub handle_leave_room-Shrinks : (id : String) (w : Server S) → Shrinks w (handle_leave_room id w)
  unfolding handle_leave_room
  handle_leave_room-Shrinks id w =
      option_cases (Shrinks w) (w.player_to_room id) _ _ (λ _. Shrinks-refl w)
        λ r _.
          option_cases (Shrinks w) (lookup r w.rooms) _ _ (λ _. unmap-Shrinks id w)
            λ room _.
              Shrinks-trans {v = without_player id r room w}
                (record { sessions = refl; clients = refl; mapping = λ p q e. ground arith })
                (leave_found-Shrinks id r room w)

  -- Whatever the state, a player who has left is in no room.
  pub handle_leave_room-gone :
      (id : String) (w : Server S) → (handle_leave_room id w).player_to_room id ≡ none
  unfolding handle_leave_room
  handle_leave_room-gone id w =
      option_cases (λ (v : Server S). v.player_to_room id ≡ none) (w.player_to_room id) _ _ (λ e. e)
        λ r _.
          option_cases (λ (v : Server S). v.player_to_room id ≡ none) (lookup r w.rooms) _ _
            (λ _. ground arith)
            λ room _. gone-Shrinks id (leave_found-Shrinks id r room w) (ground arith)

  pub handle_toggle_ready-Shrinks :
      (id : String) (w : Server S) → Shrinks w (handle_toggle_ready id w)
  unfolding handle_toggle_ready toggle_found
  handle_toggle_ready-Shrinks id w =
      option_cases (Shrinks w) (w.player_to_room id) _ _ (λ _. Shrinks-refl w)
        λ r _.
          option_cases (Shrinks w) (lookup r w.rooms) _ _ (λ _. Shrinks-refl w)
            λ room _.
              if_cases (Shrinks w) (is_host room id) _ _ (λ _. Shrinks-refl w)
                λ _. record { sessions = refl; clients = refl; mapping = λ p q e. e }

  send_first_page-Shrinks : (lobby : List ℕ) (w : Server S) → Shrinks w (send_first_page lobby w)
  unfolding send_first_page
  send_first_page-Shrinks [] w = Shrinks-refl w
  send_first_page-Shrinks (a ∷ lobby) w = record {
    sessions = refl;
    clients = refl;
    mapping = λ p r e. e;
  }

  pub lobby_timer_fired-Shrinks : (c : Bool) (w : Server S) → Shrinks w (lobby_timer_fired c w)
  unfolding lobby_timer_fired
  lobby_timer_fired-Shrinks true w = record {
    sessions = refl;
    clients = refl;
    mapping = λ p r e. e;
  }
  lobby_timer_fired-Shrinks false w =
      let s =
        send_first_page-Shrinks w.lobby_sessions (record w { lobby_broadcast_pending = false }) in
      record { sessions = s.sessions; clients = s.clients; mapping = s.mapping }

module _ {S : Type 0} (config : Config S) where
  start_accepted-Shrinks :
      (r : String) (room : Room) (w : Server S) → Shrinks w (start_accepted config r room w)
  unfolding start_accepted
  start_accepted-Shrinks r room w =
      let s = notify-Shrinks _ in
      record { sessions = s.sessions; clients = s.clients; mapping = s.mapping }

  pub handle_start_game-Shrinks :
      (id : String) (w : Server S) → Shrinks w (handle_start_game config id w)
  unfolding handle_start_game start_found
  handle_start_game-Shrinks id w =
      option_cases (Shrinks w) (w.player_to_room id) _ _ (λ _. Shrinks-refl w)
        λ r _.
          option_cases (Shrinks w) (lookup r w.rooms) _ _ (λ _. Shrinks-refl w)
            λ room _.
              if_cases (Shrinks w) (not (is_host room id)) _ _
                (λ _. record { sessions = refl; clients = refl; mapping = λ p r e. e })
                λ _.
                  if_cases (Shrinks w) (has_active_game w.rooms) _ _
                    (λ _. record { sessions = refl; clients = refl; mapping = λ p r e. e })
                    λ _.
                      if_cases (Shrinks w) (not (can_start room)) _ _
                        (λ _. record { sessions = refl; clients = refl; mapping = λ p r e. e })
                        λ _. start_accepted-Shrinks r room w

  close_game-Shrinks : (r : String) (w : Server S) → Shrinks w (close_game config r w)
  unfolding close_game
  close_game-Shrinks r w =
      option_cases (Shrinks w) (lookup r w.rooms) _ _ (λ _. Shrinks-refl w)
        λ room _.
          let w1 = record w {
            io =
                end_session config room
                  (broadcast_to w (player_ids room) (reject room_closed) w.io);
          } in
          let s = release_players-Shrinks (player_ids room) w1 in
          record { sessions = s.sessions; clients = s.clients; mapping = s.mapping }

  close_games-Shrinks : (ids : List String) (w : Server S) → Shrinks w (close_games config ids w)
  unfolding close_games
  close_games-Shrinks [] w = Shrinks-refl w
  close_games-Shrinks (r ∷ ids) w =
      Shrinks-trans (close_game-Shrinks r w) (close_games-Shrinks ids (close_game config r w))

  pub handle_game_server_disconnect-Shrinks :
      (w : Server S) → Shrinks w (handle_game_server_disconnect config w)
  unfolding handle_game_server_disconnect
  handle_game_server_disconnect-Shrinks w = close_games-Shrinks (in_game_room_ids w.rooms) w
