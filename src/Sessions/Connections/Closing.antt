-- ===== src/Sessions/Connections/Closing.antt =====
-- The life of a session object of src/room/server/ClientSession.cpp: a new one speaks for nobody, and
-- one that is closed or destroyed leaves no player behind.
use project_sos_backend.RoomManager.State.{
  Server, Client, set_client, set_player_id, unregister_session, remove_lobby_session,
}
use project_sos_backend.RoomManager.Leave.{handle_leave_room, handle_disconnect}
use project_sos_backend.RoomManager.Frames.{set_player_id-SameBook}
use project_sos_backend.RoomManager.Connected.{
  connected_in, is_connected, Connected, handle_leave_room-Shrinks, handle_leave_room-gone,
}
use project_sos_backend.Sessions.Client.{accept, disconnect_player, close, is_closed}
use project_sos_backend.Sessions.Machine.{free_client}
use project_sos_backend.Base.{
  ℕ, ◌≡◌, ◌≢◌, refl, ap, String, true, Option, none, some, if_cases, option_cases, arith, ◌==◌,
}

module _ {S : Type 0} where
  -- The session object at `a` has just been marked as closed.
  abbrev marked : ℕ → Client → Server S → Server S
  marked a c w =
      remove_lobby_session a
        (record w { clients = set_client a (record c { closed = true }) w.clients })

  marked-Connected :
      (a : ℕ) (c : Client) (w : Server S) (p r : String)
      → Connected w
      → w.clients a ≡ some c
      → p ≢ ""
      → p ≢ c.player_id
      → w.player_to_room p ≡ some r
      → connected_in w.sessions (marked a c w).clients p ≡ true
  unfolding connected_in remove_lobby_session set_client
  marked-Connected a c w p r h found ne other_ e = ground (arith, h p r ne e)

  -- The player of a closed session has left: its entry goes, and the id is cleared.
  forget-connected :
      (a : ℕ) (id p : String) (w : Server S)
      → is_closed w a ≡ true
      → p ≢ id
      → is_connected w p ≡ true
      → is_connected (set_player_id a "" (unregister_session id w)) p ≡ true
  unfolding connected_in unregister_session set_player_id
  forget-connected a id p w dead ne e = ground arith

  closed_after :
      (a : ℕ) (c : Client) (w w1 : Server S)
      → w1.clients ≡ (marked a c w).clients
      → is_closed w1 a ≡ true
  unfolding remove_lobby_session set_client
  closed_after a c w w1 e = ground (arith, ap (λ (f : ℕ → Option Client). f a) e)

  disconnect_player-Connected :
      (a : ℕ) (c : Client) (w : Server S)
      → Connected w
      → w.clients a ≡ some c
      → Connected (disconnect_player a c.player_id (marked a c w))
  unfolding disconnect_player handle_disconnect unregister_session remove_lobby_session
  disconnect_player-Connected a c w h found =
      let id = c.player_id in
      let w0 = marked a c w in
      let w1 = handle_leave_room id w0 in
      let s = handle_leave_room-Shrinks id w0 in
      let dead : is_closed w1 a ≡ true = closed_after a c w w1 s.clients in
      if_cases Connected (id == "") w0 (set_player_id a "" (unregister_session id w1))
        (λ none_ p r ne e. marked-Connected a c w p r h found ne (ground arith) e)
        (λ some_ p r ne e.
          let stays = kept p r e in
          let other_ : p ≢ id = λ q. cc (handle_leave_room-gone id w0, ap w1.player_to_room q) in
          forget-connected a id p w1 dead other_ (
            rw (s.sessions, s.clients)
              (marked-Connected a c w p r h found ne other_ (s.mapping p r stays))))
    where
      kept :
          (p r : String)
          → (set_player_id a "" (
                unregister_session c.player_id
                  (handle_leave_room c.player_id (marked a c w)))).player_to_room
              p
            ≡ some r
          → (handle_leave_room c.player_id (marked a c w)).player_to_room p ≡ some r
      kept p r e =
          let same =
            (set_player_id-SameBook a "" (
              unregister_session c.player_id
                (handle_leave_room c.player_id (marked a c w)))).mapping in
          rw same at e

  -- Closing a session takes its player out of the room first.
  pub close-Connected : (a : ℕ) (w : Server S) → Connected w → Connected (close a w)
  unfolding close
  close-Connected a w h =
      option_cases Connected (w.clients a) _ _ (λ _. h)
        λ c found.
          if_cases Connected c.closed _ _ (λ _. h) λ _. disconnect_player-Connected a c w h found

  -- After `close` the object, if there is one, is closed.
  pub close-closed : (a : ℕ) (w : Server S) → is_closed (close a w) a ≡ true
  unfolding close disconnect_player
  close-closed a w =
      option_cases (λ (v : Server S). is_closed v a ≡ true) (w.clients a) _ _ (λ e. ground arith)
        λ c found.
          if_cases (λ (v : Server S). is_closed v a ≡ true) c.closed _ _ (λ done. ground arith)
            λ _.
              if_cases (λ (v : Server S). is_closed v a ≡ true) (c.player_id == "") (marked a c w)
                (set_player_id a "" (handle_disconnect c.player_id (marked a c w)))
                (λ _. closed_after a c w (marked a c w) refl)
                (λ _. still_closed a (handle_disconnect c.player_id (marked a c w)) (
                  closed_after a c w (handle_disconnect c.player_id (marked a c w)) (
                    unfold handle_disconnect unregister_session in
                    (handle_leave_room-Shrinks c.player_id (marked a c w)).clients)))
    where
      still_closed :
          (b : ℕ) (v : Server S) → is_closed v b ≡ true → is_closed (set_player_id b "" v) b ≡ true
      still_closed b v e = unfold set_player_id in ground arith

  pub accept-Connected :
      (a : ℕ) (ip : String) (w : Server S)
      → Connected w
      → w.clients a ≡ none
      → Connected (accept a ip w)
  unfolding accept connected_in
  accept-Connected a ip w h free p r ne e = ground (arith, h p r ne e)

  pub free-Connected :
      (a : ℕ) (w : Server S)
      → Connected w
      → is_closed w a ≡ true
      → Connected (record w { clients = free_client a w.clients })
  unfolding free_client connected_in
  free-Connected a w h dead p r ne e = ground (arith, h p r ne e)
