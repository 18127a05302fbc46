-- ===== src/RoomManager/Effects/Closing.antt =====
-- Rooms that close: `removeRoom` through `handleLeaveRoom` of src/room/room/RoomManager.cpp.
use project_sos_backend.Room.Players.{erase_player}
use project_sos_backend.Room.{Room, has_player, is_host, remove_player, player_ids}
use project_sos_backend.Room.Laws.{has_player-remove_player, mem_id-room}
use project_sos_backend.RoomManager.Proto.{reject, room_closed}
use project_sos_backend.RoomManager.State.{Server, Config, remove, broadcast_except}
use project_sos_backend.RoomManager.Leave.{remove_room, leave_found, handle_leave_room, tell_others}
use project_sos_backend.RoomManager.Frames.{
  SameBook, notify-SameBook, unmapped, release_players-Released,
}
use project_sos_backend.RoomManager.Invariant.{Holds}
use project_sos_backend.Base.{
  [], ◌≡◌, refl, String, Bool, true, false, none, some, lookup, insert, lookup-insert, lookup-erase,
  arith, ◌==◌, if◌then◌else◌,
}

module _ {S : Type 0} where
  -- The room `r` is gone, and the players for whom `out` holds are in no room.
  pub record Closed (r : String) (out : String → Bool) (v w : Server S) : Type 0 where
    pub rooms : (s : String) → lookup s w.rooms ≡ (if s == r then none else lookup s v.rooms)
    pub mapping : (p : String) → w.player_to_room p ≡ (if out p then none else v.player_to_room p)

  Closed-SameBook :
      {r : String} {out : String → Bool} {u v w : Server S}
      → SameBook v w
      → Closed r out u v
      → Closed r out u w
  Closed-SameBook same c = record {
    rooms = rw same.rooms c.rooms;
    mapping = rw same.mapping c.mapping;
  }

  remove_room-Closed :
      (r x : String) (room : Room) (w : Server S)
      → lookup r w.rooms ≡ some room
      → Closed r (has_player room) w (remove_room r x w)
  unfolding remove_room unmapped
  remove_room-Closed r x room w found =
      let w1 : Server S = record w {
        io = broadcast_except w (player_ids room) (reject room_closed) x w.io;
      } in
      let e = release_players-Released (player_ids room) w1 in
      rw (found, remove_room)
        (record {
          rooms = λ s. rw (e.rooms, lookup-erase r s w.rooms) refl;
          mapping = λ p. ground (arith, e.mapping p, mem_id-room room p);
        })

  -- In a state that keeps the invariant of the rooms, when the host leaves, the room is gone,
  -- every player who was in it is in no room, the other players stay where they are, and the other
  -- rooms are as they were.
  pub handle_leave_room-Closed :
      (config : Config S) (p r : String) (room : Room) (w : Server S)
      → Holds config w
      → w.player_to_room p ≡ some r
      → lookup r w.rooms ≡ some room
      → is_host room p ≡ true
      → Closed r (has_player room) w (handle_leave_room p w)
  unfolding handle_leave_room leave_found
  handle_leave_room-Closed config p r room w v points found host =
      let room' = (remove_player room p).0 in
      let w1 : Server S = record w {
        rooms = insert r room' w.rooms;
        player_to_room = remove p w.player_to_room;
      } in
      let found1 : lookup r w1.rooms ≡ some room' =
        ground (arith, lookup-insert r r room' w.rooms) in
      let closed = remove_room-Closed r p room' w1 found1 in
      let same = notify-SameBook (remove_room r p w1) in
      let valid = (v.good r room found).valid in
      rw (points, found, host, handle_leave_room, leave_found)
        (Closed-SameBook same (record {
          rooms = λ s. ground (arith, closed.rooms s, lookup-insert r s room' w.rooms);
          mapping = λ q.
              ground
                (arith, closed.mapping q, has_player-remove_player room p q valid, v.agree p r);
        }))

  -- The last guest leaves an empty room behind.
  pub handle_leave_room-emptied :
      (p r : String) (room : Room) (w : Server S)
      → w.player_to_room p ≡ some r
      → lookup r w.rooms ≡ some room
      → is_host room p ≡ false
      → has_player room p ≡ true
      → erase_player p room.players ≡ []
      → lookup r (handle_leave_room p w).rooms ≡ some (record room { players = [] })
  unfolding handle_leave_room leave_found remove_player tell_others
  handle_leave_room-emptied p r room w points found guest inside last =
      let room' : Room = record room { players = [] } in
      let w1 : Server S = record w {
        rooms = insert r room' w.rooms;
        player_to_room = remove p w.player_to_room;
      } in
      let same = notify-SameBook (tell_others room' w1) in
      ground (arith, lookup-insert r r room' w.rooms, same.rooms)
