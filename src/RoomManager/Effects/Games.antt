-- ===== src/RoomManager/Effects/Games.antt =====
-- Games that start and end: `handleStartGame`, `handleSlotReleased` and
-- `handleGameServerDisconnect` of src/room/room/RoomManager.cpp.
use project_sos_backend.Room.Players.{erase_player}
use project_sos_backend.Room.{
  Room, in_game, is_host, can_start, set_state, set_session_id, remove_player, player_count,
  has_player,
}
use project_sos_backend.RoomManager.Proto.{session_ended}
use project_sos_backend.RoomManager.State.{Server, Config, send_to}
use project_sos_backend.RoomManager.Leave.{return_to_lobby}
use project_sos_backend.RoomManager.Game.{
  has_active_game, start_accepted, start_found, handle_start_game, end_session,
  unregister_session_id, notify_session_ended, slot_found, handle_slot_released,
}
use project_sos_backend.RoomManager.Frames.{
  notify-SameBook, return_to_lobby-SameBook, io-return_to_lobby,
}
use project_sos_backend.RoomManager.Invariant.{Rooms, has_active_game-lookup}
use project_sos_backend.Base.{
  ◌≡◌, ◌≢◌, refl, String, true, false, not, none, some, [], ◌∷◌, ◌++◌, lookup, insert,
  lookup-insert, lookup-erase, Bool-cases, inl, inr, if_cases, option_cases, arith, ◌==◌,
  if◌then◌else◌,
}

pub has_active_game-in_game :
    (rooms : Rooms) (r : String) (room : Room)
    → lookup r rooms ≡ some room
    → room.state ≡ in_game
    → has_active_game rooms ≡ true
has_active_game-in_game rooms r room found plays = elim (Bool-cases (has_active_game rooms)) [
  | inl e ↦ e
  | inr e ↦ ground (arith, has_active_game-lookup rooms r room e found)
]

module _ {S : Type 0} where
  -- Only messages to sessions have been added.
  pub record OnlySent (v w : Server S) : Type 0 where
    pub rooms : w.rooms ≡ v.rooms
    pub mapping : w.player_to_room ≡ v.player_to_room
    pub sessions : w.sessions ≡ v.sessions
    pub lobby : w.lobby_sessions ≡ v.lobby_sessions
    pub pending : w.lobby_broadcast_pending ≡ v.lobby_broadcast_pending
    pub clients : w.clients ≡ v.clients
    pub notices : w.io.notices ≡ v.io.notices
    pub redis : w.io.redis ≡ v.io.redis
    pub drawn : w.io.drawn ≡ v.io.drawn

  OnlySent-refl : (w : Server S) → OnlySent w w
  OnlySent-refl w = record {
    rooms = refl;
    mapping = refl;
    sessions = refl;
    lobby = refl;
    pending = refl;
    clients = refl;
    notices = refl;
    redis = refl;
    drawn = refl;
  }

  -- While a game runs, a request to start one changes nothing but the messages to sessions.
  pub handle_start_game-busy :
      (config : Config S) (p : String) (w : Server S)
      → has_active_game w.rooms ≡ true
      → OnlySent w (handle_start_game config p w)
  unfolding handle_start_game start_found send_to
  handle_start_game-busy config p w busy =
      option_cases (OnlySent w) (w.player_to_room p) _ _ (λ _. OnlySent-refl w)
        λ r _.
          option_cases (OnlySent w) (lookup r w.rooms) _ _ (λ _. OnlySent-refl w)
            λ room _.
              if_cases (OnlySent w) (not (is_host room p)) _ _ (λ _. ground arith)
                λ _.
                  if_cases (OnlySent w) (has_active_game w.rooms) _ _ (λ _. ground arith) λ idle. cc

  start_accepted-rooms :
      (config : Config S) (r : String) (room : Room) (w : Server S)
      → (start_accepted config r room w).rooms
        ≡ insert r (set_session_id (set_state room in_game) (config.uuid w.io.drawn)) w.rooms
  unfolding start_accepted
  start_accepted-rooms config r room w = (notify-SameBook _).rooms

  -- When the host asks to start, no game runs and all are ready, the room is in game under the
  -- next UUID, and in the state that follows a request to start a game, by whomever, changes
  -- nothing but the messages to sessions.
  pub handle_start_game-once :
      (config : Config S) (p r q : String) (room : Room) (w : Server S)
      → w.player_to_room p ≡ some r
      → lookup r w.rooms ≡ some room
      → is_host room p ≡ true
      → has_active_game w.rooms ≡ false
      → can_start room ≡ true
      → let w' = handle_start_game config p w in
        (lookup r w'.rooms
          ≡ some (record room { state = in_game; session_id = config.uuid w.io.drawn }))
        × OnlySent w' (handle_start_game config q w')
  unfolding handle_start_game start_found set_state set_session_id
  handle_start_game-once config p r q room w points found host idle ready =
      let room' : Room = record room { state = in_game; session_id = config.uuid w.io.drawn } in
      let e = start_accepted-rooms config r room w in
      let there : lookup r (handle_start_game config p w).rooms ≡ some room' =
        rw (points, found, host, idle, ready, handle_start_game, start_found, e)
          (ground (arith, lookup-insert r r room' w.rooms)) in
      (
        there,
        handle_start_game-busy config q (handle_start_game config p w)
            (has_active_game-in_game (handle_start_game config p w).rooms r room' there refl),
      )

  -- When the last player of a room is released under the id of the room's session, which is not
  -- empty, and there is a chat channel: the room, the player's place and the player's session
  -- entry are gone, the other rooms stay, and the chat server is told, once, that the session has
  -- ended.
  pub handle_slot_released-last :
      (config : Config S) (p r : String) (room : Room) (w : Server S)
      → w.player_to_room p ≡ some r
      → lookup r w.rooms ≡ some room
      → has_player room p ≡ true
      → erase_player p room.players ≡ []
      → room.session_id ≢ ""
      → config.has_chat_channel ≡ true
      → let w' = handle_slot_released config p room.session_id w in
        ((s : String) → lookup s w'.rooms ≡ (if s == r then none else lookup s w.rooms))
        × (w'.player_to_room p ≡ none)
        × (w'.sessions p ≡ none)
        × (w'.io.notices ≡ w.io.notices ++ session_ended room.session_id ∷ [])
  unfolding handle_slot_released slot_found remove_player player_count end_session
      unregister_session_id notify_session_ended return_to_lobby
  handle_slot_released-last config p r room w points found inside last named chat =
      let same = return_to_lobby-SameBook p w in
      (
        (λ s. ground (
          arith,
          same.rooms,
          lookup-erase r s (insert r (remove_player room p).0 (return_to_lobby p w).rooms),
          lookup-insert r s (remove_player room p).0 (return_to_lobby p w).rooms,
        )),
        ground (arith, same.mapping),
        ground arith,
        ground (arith, io-return_to_lobby p w),
      )
