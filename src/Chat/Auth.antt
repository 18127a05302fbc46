-- ===== src/Chat/Auth.antt =====
-- `handleAuth` and `sendHistory` of src/chat/channel/ChannelManager.cpp.
use Prim.Native.String.{◌++◌ as ◌+++◌}
use mathlib.Core.List.{reverse}
use project_sos_backend.RoomManager.State.{put}
use project_sos_backend.Chat.Proto.{ChatAuth, auth_result, receive, error, not_authenticated}
use project_sos_backend.Chat.State.{
  Chat, Config, Client, PlayerState, SessionChannel, add_member, set_client, send, send_to, try_all,
  forget_player,
}
use project_sos_backend.Base.{
  ℕ, String, Bool, true, false, ◌||◌, Option, none, some, List, [], ◌∷◌, eqb, ◌==◌, if◌then◌else◌,
}

abbrev pub history_key : String → String
history_key session_id = "chat:history:" +++ session_id +++ ":ALL"

abbrev pub player_state : ChatAuth → Bool → ℕ → PlayerState
player_state request in_lobby a = record {
  player_name = request.player_name;
  session_id = request.session_id;
  session = a;
  in_lobby = in_lobby;
}

-- `setPlayerId(player_id)` and `setAuthenticated(true)`
unfoldable pub mark_authenticated : String → ℕ → (ℕ → Option Client) → ℕ → Option Client
unfolding set_client
mark_authenticated player_id a clients = elim (clients a) [
  | none ↦ clients
  | some c ↦ set_client a (record c { player_id = player_id; authenticated = true }) clients
]

module _ {S : Type 0} where
  -- `existing_session`, if its object is not the one that authenticates now.
  unfoldable pub kick_session : ℕ → ℕ → Chat S → Chat S
  unfolding set_client send
  kick_session existing a w = elim (w.clients existing) [
    | none ↦ w
    | some c ↦
        if eqb existing a
        then w
        else send existing (error not_authenticated) (record w {
          clients =
              set_client existing (record c { player_id = ""; authenticated = false }) w.clients;
        })
  ]

  -- An earlier connection under the id loses its state first, and is told afterwards.
  unfoldable pub replace_connection : String → ℕ → Chat S → Chat S
  unfolding forget_player kick_session
  replace_connection player_id a w = elim (w.players player_id) [
    | none ↦ w
    | some state ↦ kick_session state.session a (forget_player player_id state w)
  ]

  -- `players_[player_id] = state`, and the session object speaks for the player.
  unfoldable pub register_player : ChatAuth → Bool → ℕ → Chat S → Chat S
  unfolding mark_authenticated send
  register_player request in_lobby a w = send a (auth_result true) (record w {
    players = put request.player_id (player_state request in_lobby a) w.players;
    clients = mark_authenticated request.player_id a w.clients;
  })

  unfoldable pub enter_lobby : ChatAuth → ℕ → Chat S → Chat S
  unfolding register_player add_member
  enter_lobby request a w =
      register_player request true a
        (record w { lobby_members = add_member request.player_id w.lobby_members })

module _ {S : Type 0} (config : Config S) where
  -- The loop of `sendHistory`: what does not parse is skipped.
  unfoldable pub send_messages : String → List String → Chat S → Chat S
  unfolding send_to
  send_messages player_id [] w = w
  send_messages player_id (m ∷ ms) w =
      send_messages player_id ms
        (elim (config.parse m) [ none ↦ w | some r ↦ send_to player_id (receive r) w ])

  -- The list has the newest message first, and is sent from its end.
  unfoldable pub send_history : String → String → Chat S → Chat S
  unfolding send_messages
  send_history player_id session_id w = elim config.redis [
    | none ↦ w
    | some redis ↦
        let (result, s) = redis.lrange (history_key session_id) config.history_size w.redis in
        let w1 = record w { redis = s } in
        elim result [ none ↦ w1 | some messages ↦ send_messages player_id (reverse messages) w1 ]
  ]

  unfoldable pub save_membership : ChatAuth → S → S
  unfolding try_all
  save_membership request s = elim config.redis [
    | none ↦ s
    | some redis ↦
        try_all
          (redis.hset ("chat:session:" +++ request.session_id) request.player_id request.player_name
            ∷ redis.setex ("chat:player:" +++ request.player_id) request.session_id
                config.session_ttl
            ∷ redis.setex ("chat:name:" +++ request.player_id) request.player_name
                config.session_ttl
            ∷ redis.expire ("chat:session:" +++ request.session_id) config.session_ttl
            ∷ [])
          s
  ]

  unfoldable pub enter_session : ChatAuth → SessionChannel → ℕ → Chat S → Chat S
  unfolding register_player add_member save_membership send_history
  enter_session request channel a w =
      let joined = record channel { members = add_member request.player_id channel.members } in
      let w1 = record w {
        session_channels = put request.session_id joined w.session_channels;
        redis = save_membership request w.redis;
      } in
      send_history request.player_id request.session_id (register_player request false a w1)

  -- What follows once an earlier connection has been replaced.
  unfoldable pub authenticate : ChatAuth → ℕ → Chat S → Chat S
  unfolding enter_lobby enter_session
  authenticate request a w =
      if request.session_id == ""
      then enter_lobby request a w
      else elim (w.session_channels request.session_id) [
        | none ↦ send a (auth_result false) w
        | some channel ↦ enter_session request channel a w
      ]

  unfoldable pub handle_auth : ChatAuth → ℕ → Chat S → Chat S
  unfolding replace_connection authenticate
  handle_auth request a w =
      if request.player_id == "" || request.player_name == ""
      then send a (auth_result false) w
      else authenticate request a (replace_connection request.player_id a w)
