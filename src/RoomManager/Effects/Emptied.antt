-- ===== src/RoomManager/Effects/Emptied.antt =====
-- A room in game that has no players, under every request: src/room/room/RoomManager.cpp.
use project_sos_backend.Room.Players.{any_player}
use project_sos_backend.Room.{
  Room, in_game, has_player, is_host, remove_player, toggle_ready, player_ids,
}
use project_sos_backend.RoomManager.Proto.{CreateRoomRequest, JoinRoomRequest, reject, room_closed}
use project_sos_backend.RoomManager.State.{Server, Config, remove, broadcast_except}
use project_sos_backend.RoomManager.Enter.{handle_create_room, handle_join_room}
use project_sos_backend.RoomManager.Leave.{
  remove_room, tell_others, leave_found, handle_leave_room, handle_disconnect, toggle_found,
  handle_toggle_ready, return_to_lobby,
}
use project_sos_backend.RoomManager.Game.{handle_start_game, slot_found, handle_slot_released}
use project_sos_backend.RoomManager.Frames.{
  notify-SameBook, release_players-Released, return_to_lobby-SameBook,
}
use project_sos_backend.RoomManager.Invariant.{Holds}
use project_sos_backend.RoomManager.Effects.Admission.{handle_create_room_lem, handle_join_room_lem}
use project_sos_backend.RoomManager.Effects.Games.{handle_start_game-busy, has_active_game-in_game}
use project_sos_backend.Base.{
  ℕ, ◌≡◌, ◌≢◌, refl, String, false, some, if_cases, option_cases, inl, inr, lookup, insert,
  lookup-insert, lookup-erase, arith, [],
}

module _ {S : Type 0} (config : Config S) (r : String) (room : Room) (empty : room.players ≡ [])
    (plays : room.state ≡ in_game) where
  abbrev pub There : Server S → Type 0
  There w = lookup r w.rooms ≡ some room

  -- No player is mapped to the room.
  pub elsewhere :
      (p s : String) (w : Server S) → Holds config w → There w → w.player_to_room p ≡ some s → s ≢ r
  unfolding has_player any_player
  elsewhere p s w v there points e =
      let nobody : has_player room p ≡ false = rw empty refl in ground (arith, v.agree p r)

  There-insert :
      (s : String) (other : Room) (w : Server S)
      → s ≢ r
      → There w
      → lookup r (insert s other w.rooms) ≡ some room
  There-insert s other w ne there = rw (lookup-insert s r other w.rooms) (ground arith)

  pub handle_create_room-There :
      (request : CreateRoomRequest) (a : ℕ) (w : Server S)
      → Holds config w
      → There w
      → There (handle_create_room config request a w)
  handle_create_room-There request a w v there = elim (handle_create_room_lem config request a w) [
    | inl (may, e) ↦ ground (arith, e.rooms r, v.fresh w.io.drawn)
    | inr (refused, (reason, e)) ↦ rw e there
  ]

  pub handle_join_room-There :
      (request : JoinRoomRequest) (a : ℕ) (w : Server S)
      → There w
      → There (handle_join_room request a w)
  handle_join_room-There request a w there = elim (handle_join_room_lem request a w) [
    | inl (other, may, e) ↦ ground (arith, e.rooms r, may.found, may.waits, plays)
    | inr (refused, (reason, e)) ↦ rw e there
  ]

  remove_room-There : (s x : String) (w : Server S) → s ≢ r → There w → There (remove_room s x w)
  unfolding remove_room
  remove_room-There s x w ne there =
      option_cases There (lookup s w.rooms) _ _ (λ _. there)
        λ other _.
          let w1 : Server S = record w {
            io = broadcast_except w (player_ids other) (reject room_closed) x w.io;
          } in
          rw ((release_players-Released (player_ids other) w1).rooms, lookup-erase s r w.rooms)
            (ground arith)

  leave_found-There :
      (p s : String) (other : Room) (w : Server S)
      → s ≢ r
      → There w
      → There (leave_found p s other w)
  unfolding leave_found tell_others
  leave_found-There p s other w ne there =
      let other' = (remove_player other p).0 in
      let w1 : Server S = record w {
        rooms = insert s other' w.rooms;
        player_to_room = remove p w.player_to_room;
      } in
      let there1 : There w1 = There-insert s other' w ne there in
      if_cases There (is_host other p) _ _
        (λ _. rw (notify-SameBook (remove_room s p w1)).rooms (remove_room-There s p w1 ne there1))
        λ _. rw (notify-SameBook (tell_others other' w1)).rooms (ground arith)

  pub handle_leave_room-There :
      (p : String) (w : Server S) → Holds config w → There w → There (handle_leave_room p w)
  unfolding handle_leave_room
  handle_leave_room-There p w v there =
      option_cases There (w.player_to_room p) _ _ (λ _. there)
        λ s points.
          option_cases There (lookup s w.rooms) _ _ (λ _. there)
            λ other _. leave_found-There p s other w (elsewhere p s w v there points) there

  pub handle_disconnect-There :
      (p : String) (w : Server S) → Holds config w → There w → There (handle_disconnect p w)
  unfolding handle_disconnect
  handle_disconnect-There p w v there = handle_leave_room-There p w v there

  pub handle_toggle_ready-There :
      (p : String) (w : Server S) → Holds config w → There w → There (handle_toggle_ready p w)
  unfolding handle_toggle_ready toggle_found
  handle_toggle_ready-There p w v there =
      option_cases There (w.player_to_room p) _ _ (λ _. there)
        λ s points.
          option_cases There (lookup s w.rooms) _ _ (λ _. there)
            λ other _.
              if_cases There (is_host other p) _ _ (λ _. there)
                λ _. There-insert s (toggle_ready other p) w (elsewhere p s w v there points) there

  pub handle_start_game-There :
      (p : String) (w : Server S) → There w → There (handle_start_game config p w)
  handle_start_game-There p w there =
      rw
        (handle_start_game-busy config p w
          (has_active_game-in_game w.rooms r room there plays)).rooms
        there

  slot_found-There :
      (p t s : String) (other : Room) (w : Server S)
      → s ≢ r
      → There w
      → There (slot_found config p t s other w)
  unfolding slot_found
  slot_found-There p t s other w ne there =
      let w1 = return_to_lobby p w in
      let same = return_to_lobby-SameBook p w in
      let other' = (remove_player other p).0 in
      let there1 : There w1 = rw same.rooms there in
      let kept = There-insert s other' w1 ne there1 in
      ground (arith, lookup-erase s r (insert s other' w1.rooms))

  -- A slot that is released is the slot of a player of another room.
  pub handle_slot_released-There :
      (p t : String) (w : Server S)
      → Holds config w
      → There w
      → There (handle_slot_released config p t w)
  unfolding handle_slot_released
  handle_slot_released-There p t w v there =
      option_cases There (w.player_to_room p) _ _ (λ _. there)
        λ s points.
          option_cases There (lookup s w.rooms) _ _ (λ _. there)
            λ other _. slot_found-There p t s other w (elsewhere p s w v there points) there
