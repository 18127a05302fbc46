-- ===== src/RoomManager/Effects/Admission.antt =====
-- Who may create or join a room: `handleCreateRoom` and `handleJoinRoom` of
-- src/room/room/RoomManager.cpp, on every branch.
use project_sos_backend.Room.{Room, new_room, is_waiting, is_full, add_player}
use project_sos_backend.RoomManager.Proto.{CreateRoomRequest, JoinRoomRequest, RejectReason, reject}
use project_sos_backend.RoomManager.State.{
  Server, Config, send_reject_to, player_id_of, find_session, notify_room_list_changed,
  set_player_id,
}
use project_sos_backend.RoomManager.Enter.{
  is_duplicate, speaks_for_other, is_mapped, enter, create_accepted, handle_create_room,
  join_accepted, join_found, handle_join_room,
}
use project_sos_backend.Base.{
  ℕ, suc, ◌≡◌, ◌≤◌, ◌<◌, ◌⊎◌, refl, String, true, false, not, ◌||◌, none, some, [], ◌∷◌, ◌++◌, inl,
  inr, length, lookup, lookup-insert, ltb, leb, if_cases, option_cases, Option-cases, arith, ◌==◌,
  if◌then◌else◌,
}

module _ {S : Type 0} where
  -- The id is not in use by another session, the session speaks for no other id, and the player is
  -- in no room.
  pub record MayEnter (id : String) (a : ℕ) (w : Server S) : Type 0 where
    pub alone : (b : ℕ) → find_session w id ≡ some b → b ≡ a
    pub own : (player_id_of w a ≡ "") ⊎ (player_id_of w a ≡ id)
    pub outside : w.player_to_room id ≡ none

  pub record MayCreate (config : Config S) (request : CreateRoomRequest) (a : ℕ) (w : Server S)
      : Type 0 where
    pub enter : MayEnter request.player_id a w
    pub space : length w.rooms < config.max_rooms
    pub least : 1 ≤ request.max_players
    pub most : request.max_players ≤ config.max_players_per_room

  -- The state is `w` but for one rejection to the session `a`.
  abbrev pub Rejected : ℕ → Server S → Server S → Type 0
  Rejected a w w' =
      (reason : RejectReason) × (w'
        ≡ record w { io = record w.io { sent = w.io.sent ++ (a, reject reason) ∷ [] } })

  -- The room is there, and the player is in it, by the session `a`.
  pub record Entered (r : String) (room : Room) (id : String) (a : ℕ) (w w' : Server S)
      : Type 0 where
    pub rooms : (s : String) → lookup s w'.rooms ≡ (if s == r then some room else lookup s w.rooms)
    pub mapping :
        (p : String) → w'.player_to_room p ≡ (if p == id then some r else w.player_to_room p)
    pub sessions : (p : String) → w'.sessions p ≡ (if p == id then some a else w.sessions p)

  enter-Entered :
      (r : String) (room : Room) (id : String) (a : ℕ) (w : Server S)
      → Entered r room id a w (enter r room id a w)
  unfolding enter set_player_id
  enter-Entered r room id a w = record {
    rooms = λ s. ground (arith, lookup-insert r s room w.rooms);
    mapping = λ p. ground arith;
    sessions = λ p. ground arith;
  }

  -- The notice to the lobby and messages to sessions.
  Entered-notify :
      {r : String} {room : Room} {id : String} {a : ℕ} {w w' : Server S}
      → Entered r room id a w w'
      → Entered r room id a w (notify_room_list_changed w')
  unfolding notify_room_list_changed
  Entered-notify h = record {
    rooms = λ s. ground (arith, h.rooms s);
    mapping = λ p. ground (arith, h.mapping p);
    sessions = λ p. ground (arith, h.sessions p);
  }

  may_enter :
      (id : String) (a : ℕ) (w : Server S)
      → is_duplicate w id a ≡ false
      → speaks_for_other w id a ≡ false
      → is_mapped w id ≡ false
      → MayEnter id a w
  may_enter id a w h k l = record {
    alone = λ b e. ground arith;
    own = ground arith;
    outside = ground arith;
  }

  not_duplicate :
      (id : String) (a : ℕ) (w : Server S)
      → ((b : ℕ) → find_session w id ≡ some b → b ≡ a)
      → is_duplicate w id a ≡ false
  not_duplicate id a w h = elim (Option-cases (find_session w id)) [
    | inl e ↦ ground arith
    | inr (b, e) ↦ ground (arith, h b e)
  ]

  may_not_enter :
      (id : String) (a : ℕ) (w : Server S)
      → MayEnter id a w
      → (is_duplicate w id a || speaks_for_other w id a || is_mapped w id) ≡ false
  may_not_enter id a w m = ground (arith, not_duplicate id a w m.alone, m.own, m.outside)

  -- A request to create a room is accepted exactly when the player may enter and the limits allow the
  -- room: then the room has the next UUID and the player as its host. If not, all that happens is one
  -- rejection to the session.
  pub handle_create_room_lem :
      (config : Config S) (request : CreateRoomRequest) (a : ℕ) (w : Server S)
      → let w' = handle_create_room config request a w in
        let r = config.uuid w.io.drawn in
        (MayCreate config request a w
          × Entered r
              (new_room r request.room_name request.player_id request.player_name
                request.max_players)
              request.player_id
              a
              w
              w')
        ⊎ (¬ MayCreate config request a w × Rejected a w w')
  unfolding handle_create_room send_reject_to create_accepted
  handle_create_room_lem config request a w =
      let r = config.uuid w.io.drawn in
      let room =
        new_room r request.room_name request.player_id request.player_name request.max_players in
      let P : Server S → Type 0 = λ w'.
        (MayCreate config request a w × Entered r room request.player_id a w w')
        ⊎ (¬ MayCreate config request a w × Rejected a w w') in
      if_cases P (is_duplicate w request.player_id a) _ _
        (λ e. inr (λ m. cc (may_not_enter request.player_id a w m.enter), (_, refl)))
        λ h.
          if_cases P (speaks_for_other w request.player_id a) _ _
            (λ e. inr (λ m. ground (arith, may_not_enter request.player_id a w m.enter), (_, refl)))
            λ k.
              if_cases P (is_mapped w request.player_id) _ _
                (λ e.
                  inr (λ m. ground (arith, may_not_enter request.player_id a w m.enter), (_, refl)))
                λ l.
                  if_cases P (leb config.max_rooms (length w.rooms)) _ _
                    (λ e. inr (λ m. ground (arith, m.space), (_, refl)))
                    λ space.
                      if_cases P
                        (ltb request.max_players 1
                          || ltb config.max_players_per_room request.max_players)
                        _ _ (λ e. inr (λ m. ground (arith, m.least, m.most), (_, refl)))
                        λ fits. inl (
                          record {
                            enter = may_enter request.player_id a w h k l;
                            space = ground arith;
                            least = ground arith;
                            most = ground arith;
                          },
                          Entered-notify (
                              let e =
                                enter-Entered r room request.player_id a
                                  (record w { io = record w.io { drawn = suc w.io.drawn } }) in
                              record {
                                rooms = e.rooms;
                                mapping = e.mapping;
                                sessions = e.sessions;
                              }),
                        )

  pub record MayJoin (request : JoinRoomRequest) (room : Room) (a : ℕ) (w : Server S) : Type 0 where
    pub enter : MayEnter request.player_id a w
    pub found : lookup request.room_id w.rooms ≡ some room
    pub waits : is_waiting room.state ≡ true
    pub space : length room.players < room.max_players

  -- A request to join is accepted exactly when the player may enter and the room is there, waits and has
  -- a free place: then the player is added to it. If not, all that happens is one rejection to the session.
  pub handle_join_room_lem :
      (request : JoinRoomRequest) (a : ℕ) (w : Server S)
      → let w' = handle_join_room request a w in
        ((room : Room) × MayJoin request room a w
          × Entered request.room_id
              (add_player room request.player_id request.player_name).0
              request.player_id
              a
              w
              w')
        ⊎ (((room : Room) → ¬ MayJoin request room a w) × Rejected a w w')
  unfolding handle_join_room join_found send_reject_to join_accepted is_full
  handle_join_room_lem request a w =
      let P : Server S → Type 0 = λ w'.
        ((room : Room) × MayJoin request room a w
          × Entered request.room_id (add_player room request.player_id request.player_name).0
              request.player_id a w w')
        ⊎ (((room : Room) → ¬ MayJoin request room a w) × Rejected a w w') in
      if_cases P (is_duplicate w request.player_id a) _ _
        (λ e.
          inr (λ room m. ground (arith, may_not_enter request.player_id a w m.enter), (_, refl)))
        λ h.
          if_cases P (speaks_for_other w request.player_id a) _ _
            (λ e.
              inr
                (λ room m. ground (arith, may_not_enter request.player_id a w m.enter), (_, refl)))
            λ k.
              if_cases P (is_mapped w request.player_id) _ _
                (λ e. inr (
                  λ room m. ground (arith, may_not_enter request.player_id a w m.enter),
                  (_, refl),
                ))
                λ l.
                  option_cases P (lookup request.room_id w.rooms) _ _
                    (λ e. inr (λ room m. ground (arith, m.found), (_, refl)))
                    λ room found.
                      if_cases P (not (is_waiting room.state)) _ _
                        (λ e. inr (λ room' m. ground (arith, m.found, m.waits), (_, refl)))
                        λ waits.
                          if_cases P (is_full room) _ _
                            (λ e. inr (λ room' m. ground (arith, m.found, m.space), (_, refl)))
                            λ space.
                              let e =
                                enter-Entered request.room_id
                                  (add_player room request.player_id request.player_name).0
                                  request.player_id a w in
                              inl (
                                room,
                                record {
                                  enter = may_enter request.player_id a w h k l;
                                  found = found;
                                  waits = ground arith;
                                  space = ground arith;
                                },
                                Entered-notify (record {
                                  rooms = e.rooms;
                                  mapping = e.mapping;
                                  sessions = e.sessions;
                                }),
                              )
