-- ===== src/RoomManager/Listing.antt =====
-- `handleRoomListRequest` and `broadcastRoomListToLobby` of src/room/room/RoomManager.cpp, and the
-- completion handler of the lobby timer. The order of the rooms is that of the map.
use project_sos_backend.Room.{Room, RoomSummary, is_waiting, to_room_summary}
use project_sos_backend.RoomManager.Proto.{Envelope, room_list_response}
use project_sos_backend.RoomManager.State.{Server, Io, lock, send}
use project_sos_backend.Base.{
  ℕ, zero, suc, ◌+◌, ◌*◌, ◌%◌, ◌^◌, String, Bool, ◌&&◌, none, some, List, [], ◌∷◌, length,
  get_elem?, ltb, eqb, min, if◌then◌else◌,
}

abbrev pub lobby_broadcast_page_size : ℕ
lobby_broadcast_page_size = 20

unfoldable pub waiting_rooms : List (String × Room) → List Room
waiting_rooms [] = []
waiting_rooms ((id, room) ∷ rooms) =
    let rest = waiting_rooms rooms in if is_waiting room.state then room ∷ rest else rest

-- `if (page_size == 0) page_size = 20; if (page_size > 100) page_size = 100;`
unfoldable pub clamp_page_size : ℕ → ℕ
clamp_page_size page_size =
    let page_size' = if eqb page_size 0 then 20 else page_size in
    if ltb 100 page_size' then 100 else page_size'

-- `for (i = offset; i < total && i < limit; ++i)` over the rooms, with `fuel` rounds left. The
-- index stays below `total` while the loop runs, so `++i` does not wrap.
unfoldable pub page_loop : ℕ → ℕ → ℕ → ℕ → List Room → List RoomSummary
page_loop zero i total limit rooms = []
page_loop (suc fuel) i total limit rooms =
    let rest = page_loop fuel (i + 1) total limit rooms in
    if ltb i total && ltb i limit
    then elim (get_elem? rooms i) [ none ↦ rest | some room ↦ to_room_summary room ∷ rest ]
    else []

-- The page and the total, in `uint32_t` arithmetic. The loop ends within `total + 1` rounds.
unfoldable pub room_page : ℕ → ℕ → List Room → List RoomSummary × ℕ
unfolding clamp_page_size page_loop
room_page page page_size rooms =
    let size = clamp_page_size page_size in
    let total = length rooms % 2 ^ 32 in
    let offset = page * size % 2 ^ 32 in
    (page_loop (suc total) offset total ((offset + size) % 2 ^ 32) rooms, total)

module _ {S : Type 0} where
  unfoldable pub handle_room_list_request : ℕ → ℕ → ℕ → Server S → Server S
  unfolding room_page
  handle_room_list_request page page_size a w =
      let (rooms, total) = room_page page page_size (waiting_rooms w.rooms) in
      record w { io = send a (room_list_response rooms total) w.io }

  -- The lobby sessions whose objects exist are sent the list; the others leave the map.
  unfoldable pub send_to_lobby : Server S → Envelope → List ℕ → Io S → Io S
  send_to_lobby w envelope [] io = io
  send_to_lobby w envelope (a ∷ lobby) io =
      send_to_lobby w envelope lobby (elim (lock w a) [ none ↦ io | some b ↦ send b envelope io ])

  unfoldable pub unexpired : Server S → List ℕ → List ℕ
  unexpired w [] = []
  unexpired w (a ∷ lobby) =
      let rest = unexpired w lobby in elim (lock w a) [ none ↦ rest | some _ ↦ a ∷ rest ]

  -- With nobody in the lobby nothing is sent. `for (i = 0; i < count; ++i)` makes the list.
  unfoldable pub send_first_page : List ℕ → Server S → Server S
  unfolding send_to_lobby unexpired page_loop
  send_first_page [] w = w
  send_first_page (a ∷ lobby) w =
      let rooms = waiting_rooms w.rooms in
      let total = length rooms % 2 ^ 32 in
      let count = min total lobby_broadcast_page_size in
      let page = page_loop (suc count) 0 count count rooms in
      record w {
        io = send_to_lobby w (room_list_response page total) (a ∷ lobby) w.io;
        lobby_sessions = unexpired w (a ∷ lobby);
      }

  unfoldable pub broadcast_room_list_to_lobby : Server S → Server S
  unfolding send_first_page
  broadcast_room_list_to_lobby w = send_first_page w.lobby_sessions w

  -- The timer has expired, or `stop` has cancelled it (`cancelled`).
  unfoldable pub lobby_timer_fired : Bool → Server S → Server S
  unfolding broadcast_room_list_to_lobby
  lobby_timer_fired cancelled w =
      let w1 = record w { lobby_broadcast_pending = Bool.false } in
      if cancelled then w1 else broadcast_room_list_to_lobby w1
