-- ===== src/Chat/Channels.antt =====
-- `handleDisconnect`, `handleSessionCreated` and `handleSessionEnded` of
-- src/chat/channel/ChannelManager.cpp.
use Prim.Native.String.{◌++◌ as ◌+++◌}
use project_sos_backend.Common.Redis.{Redis}
use project_sos_backend.RoomManager.State.{put, remove}
use project_sos_backend.Chat.State.{Chat, Config, add_member, try_all, forget_player}
use project_sos_backend.Chat.Auth.{history_key}
use project_sos_backend.Base.{String, Bool, true, false, none, some, List, [], ◌∷◌}

module _ {S : Type 0} where
  unfoldable pub handle_disconnect : String → Chat S → Chat S
  unfolding forget_player
  handle_disconnect player_id w = elim (w.players player_id) [
    | none ↦ w
    | some state ↦ forget_player player_id state w
  ]

  -- One member of a session that has ended goes to the lobby, if the player is known.
  unfoldable pub move_to_lobby : String → Chat S → Chat S
  unfolding add_member
  move_to_lobby player_id w = elim (w.players player_id) [
    | none ↦ w
    | some state ↦ record w {
      players = put player_id (record state { session_id = ""; in_lobby = true }) w.players;
      lobby_members = add_member player_id w.lobby_members;
    }
  ]

  unfoldable pub move_all : List String → Chat S → Chat S
  unfolding move_to_lobby
  move_all [] w = w
  move_all (p ∷ ps) w = move_all ps (move_to_lobby p w)

  -- `del` returns a value that is not used.
  abbrev delete : Redis S → String → S → Bool × S
  delete redis key s =
      let (result, s') = redis.del key s in (elim result [ none ↦ false | some _ ↦ true ], s')

module _ {S : Type 0} (config : Config S) where
  -- The Redis commands for one player of a new session.
  unfoldable pub save_player : String → String → String → S → S
  unfolding try_all
  save_player session_id player_id player_name s = elim config.redis [
    | none ↦ s
    | some redis ↦
        try_all
          (redis.hset ("chat:session:" +++ session_id) player_id player_name
            ∷ redis.setex ("chat:name:" +++ player_id) player_name config.session_ttl
            ∷ [])
          s
  ]

  unfoldable pub save_players : String → List (String × String) → S → S
  unfolding save_player
  save_players session_id [] s = s
  save_players session_id ((id, name) ∷ players) s =
      save_players session_id players (save_player session_id id name s)

  unfoldable pub expected_ids : List (String × String) → List String → List String
  unfolding add_member
  expected_ids [] ids = ids
  expected_ids ((id, name) ∷ players) ids = expected_ids players (add_member id ids)

  unfoldable pub set_session_ttl : String → S → S
  unfolding try_all
  set_session_ttl session_id s = elim config.redis [
    | none ↦ s
    | some redis ↦ try_all (redis.expire ("chat:session:" +++ session_id) config.session_ttl ∷ []) s
  ]

  -- The channel is put under its id, whether or not there was one.
  unfoldable pub handle_session_created : String → List (String × String) → Chat S → Chat S
  unfolding save_players expected_ids set_session_ttl
  handle_session_created session_id players w = record w {
    session_channels =
        put session_id (record { members = []; expected_players = expected_ids players [] })
          w.session_channels;
    redis = set_session_ttl session_id (save_players session_id players w.redis);
  }

  unfoldable pub delete_session : String → S → S
  unfolding try_all
  delete_session session_id s = elim config.redis [
    | none ↦ s
    | some redis ↦
        try_all
          (delete redis ("chat:session:" +++ session_id)
            ∷ delete redis (history_key session_id)
            ∷ [])
          s
  ]

  unfoldable pub handle_session_ended : String → Chat S → Chat S
  unfolding move_all delete_session
  handle_session_ended session_id w = elim (w.session_channels session_id) [
    | none ↦ w
    | some channel ↦
        let w1 = move_all channel.members w in
        record w1 {
          session_channels = remove session_id w1.session_channels;
          redis = delete_session session_id w1.redis;
        }
  ]
