-- ===== src/Chat/Members/Kept.antt =====
-- Every handler of src/chat/channel/ChannelManager.cpp keeps the invariant of the channels, and so
-- does every event of the chat server.
use project_sos_backend.RoomManager.State.{put}
use project_sos_backend.Chat.Proto.{ChatAuth, receive, error, auth_result, not_authenticated}
use project_sos_backend.Chat.State.{
  Chat, Config, PlayerState, SessionChannel, add_member, send_to, set_client, forget_player,
}
use project_sos_backend.Chat.Auth.{
  history_key, player_state, mark_authenticated, send_messages, send_history, kick_session,
  replace_connection, save_membership, register_player, enter_lobby, enter_session, authenticate,
  handle_auth,
}
use project_sos_backend.Chat.Members.{
  Holds, SameMaps, SameMaps-refl, SameMaps-trans, Holds-SameMaps, send-SameMaps, send_to-SameMaps,
  has_member-add_member, forget_player-Holds, players-forget_player,
}
use project_sos_backend.Base.{
  ℕ, ◌≡◌, ◌≢◌, refl, ap, String, Bool, true, false, ◌||◌, Option, none, some, List, [], ◌∷◌, inl,
  inr, Option-cases, if_cases, option_cases, eqb, arith, ◌==◌,
}
use mathlib.Core.List.{reverse}

module _ {S : Type 0} where
  pub kick_session-SameMaps : (e a : ℕ) (w : Chat S) → SameMaps w (kick_session e a w)
  unfolding kick_session
  kick_session-SameMaps e a w =
      option_cases (SameMaps w) (w.clients e) _ _ (λ _. SameMaps-refl w)
        λ c _.
          if_cases (SameMaps w) (eqb e a) _ _ (λ _. SameMaps-refl w)
            λ _.
              let w1 = record w {
                clients =
                    set_client e (record c { player_id = ""; authenticated = false }) w.clients;
              } in
              let s = send-SameMaps e (error not_authenticated) w1 in
              record { players = s.players; lobby = s.lobby; channels = s.channels }

  replace_connection-Holds :
      (p : String) (a : ℕ) (w : Chat S) → Holds w → Holds (replace_connection p a w)
  unfolding replace_connection
  replace_connection-Holds p a w h =
      option_cases Holds (w.players p) _ _ (λ _. h)
        λ state found.
          Holds-SameMaps (kick_session-SameMaps state.session a (forget_player p state w))
            (forget_player-Holds p state w h found)

  pub replace_connection-gone :
      (p : String) (a : ℕ) (w : Chat S) → (replace_connection p a w).players p ≡ none
  unfolding replace_connection
  replace_connection-gone p a w =
      option_cases (λ (v : Chat S). v.players p ≡ none) (w.players p) _ _ (λ e. e)
        λ state found. ground (
          arith,
          ap (λ (f : String → Option PlayerState). f p)
              (kick_session-SameMaps state.session a (forget_player p state w)).players,
          players-forget_player p state w p,
        )

  pub register_player-SameMaps :
      (request : ChatAuth) (in_lobby : Bool) (a : ℕ) (w : Chat S)
      → SameMaps
          (record w { players = put request.player_id (player_state request in_lobby a) w.players })
          (register_player request in_lobby a w)
  unfolding register_player
  register_player-SameMaps request in_lobby a w =
      let s = send-SameMaps a (auth_result true) (record w {
        players = put request.player_id (player_state request in_lobby a) w.players;
        clients = mark_authenticated request.player_id a w.clients;
      }) in
      record { players = s.players; lobby = s.lobby; channels = s.channels }

  enter_lobby-Holds :
      (request : ChatAuth) (a : ℕ) (w : Chat S)
      → Holds w
      → w.players request.player_id ≡ none
      → request.session_id ≡ ""
      → Holds (enter_lobby request a w)
  unfolding enter_lobby
  enter_lobby-Holds request a w h new none_ =
      let id = request.player_id in
      let w1 = record w { lobby_members = add_member id w.lobby_members } in
      Holds-SameMaps (register_player-SameMaps request true a w1) (record {
        in_lobby = λ p. ground (arith, h.in_lobby p, has_member-add_member p id w.lobby_members);
        in_session = λ p s l. ground (arith, h.in_session p s);
        one = λ p. ground (arith, h.one p);
        unlisted = h.unlisted;
      })

module _ {S : Type 0} (config : Config S) where
  send_messages-SameMaps :
      (p : String) (ms : List String) (w : Chat S) → SameMaps w (send_messages config p ms w)
  unfolding send_messages
  send_messages-SameMaps p [] w = SameMaps-refl w
  send_messages-SameMaps p (m ∷ ms) w = elim (Option-cases (config.parse m)) [
    | inl none_ ↦ rw (none_, send_messages) (send_messages-SameMaps p ms w)
    | inr (r, some_) ↦
        rw (some_, send_messages)
          (SameMaps-trans (send_to-SameMaps p (receive r) w)
            (send_messages-SameMaps p ms (send_to p (receive r) w)))
  ]

  send_history-SameMaps : (p s : String) (w : Chat S) → SameMaps w (send_history config p s w)
  unfolding send_history
  send_history-SameMaps p s w =
      option_cases (SameMaps w) config.redis _ _ (λ _. SameMaps-refl w)
        λ redis _.
          let (result, r) = redis.lrange (history_key s) config.history_size w.redis in
          let w1 = record w { redis = r } in
          option_cases (SameMaps w) result w1 (λ ms. send_messages config p (reverse ms) w1)
            (λ _. record { players = refl; lobby = refl; channels = refl })
            λ ms _.
              let same = send_messages-SameMaps p (reverse ms) w1 in
              record { players = same.players; lobby = same.lobby; channels = same.channels }

  -- The maps after a player has entered a session's channel.
  pub enter_session-SameMaps :
      (request : ChatAuth) (channel : SessionChannel) (a : ℕ) (w : Chat S)
      → SameMaps
          (record w {
            players = put request.player_id (player_state request false a) w.players;
            session_channels =
                put request.session_id
                  (record channel { members = add_member request.player_id channel.members })
                  w.session_channels;
          })
          (enter_session config request channel a w)
  unfolding enter_session
  enter_session-SameMaps request channel a w =
      let id = request.player_id in
      let w1 = record w {
        session_channels =
            put request.session_id (record channel { members = add_member id channel.members })
              w.session_channels;
        redis = save_membership config request w.redis;
      } in
      let s = register_player-SameMaps request false a w1 in
      SameMaps-trans (record { players = s.players; lobby = s.lobby; channels = s.channels })
        (send_history-SameMaps id request.session_id (register_player request false a w1))

  enter_session-Holds :
      (request : ChatAuth) (channel : SessionChannel) (a : ℕ) (w : Chat S)
      → Holds w
      → w.players request.player_id ≡ none
      → request.session_id ≢ ""
      → w.session_channels request.session_id ≡ some channel
      → Holds (enter_session config request channel a w)
  enter_session-Holds request channel a w h new sid found =
      Holds-SameMaps (enter_session-SameMaps request channel a w) (record {
        in_lobby = λ p. ground (arith, h.in_lobby p);
        in_session = λ p s l.
            ground
              (arith, h.in_session p s, has_member-add_member p request.player_id channel.members);
        one = λ p. ground (arith, h.one p);
        unlisted = λ p. ground (arith, h.unlisted p);
      })

  authenticate-Holds :
      (request : ChatAuth) (a : ℕ) (w : Chat S)
      → Holds w
      → w.players request.player_id ≡ none
      → Holds (authenticate config request a w)
  unfolding authenticate
  authenticate-Holds request a w h new =
      if_cases Holds (request.session_id == "") _ _
        (λ e. enter_lobby-Holds request a w h new (ground arith))
        λ sid.
          option_cases Holds (w.session_channels request.session_id) _ _
            (λ _. Holds-SameMaps (send-SameMaps a (auth_result false) w) h)
            λ channel found. enter_session-Holds request channel a w h new (ground arith) found

  -- `handleAuth` keeps the channels and the players in step, on every branch.
  pub handle_auth-Holds :
      (request : ChatAuth) (a : ℕ) (w : Chat S) → Holds w → Holds (handle_auth config request a w)
  unfolding handle_auth
  handle_auth-Holds request a w h =
      let id = request.player_id in
      if_cases Holds (id == "" || request.player_name == "") _ _
        (λ _. Holds-SameMaps (send-SameMaps a (auth_result false) w) h)
        λ _.
          authenticate-Holds request a (replace_connection id a w)
            (replace_connection-Holds id a w h) (replace_connection-gone id a w)
