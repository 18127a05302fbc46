-- ===== src/Common/SessionStore.antt =====
-- src/common/redis/SessionStore.cpp. A method returns `none` or `false` where it throws. JSON text
-- (`nlohmann::json`) and the random UUIDs are parameters: `dump player session` is the text of the
-- object, `parse` the two fields or the exception, and `uuid n` the n-th UUID drawn.
use Prim.Native.String.{◌++◌ as ◌+++◌}
use project_sos_backend.Common.Redis.{Redis}
use project_sos_backend.Base.{ℕ, String, Bool, Option, none, some, if◌then◌else◌}

pub record TokenData : Type 0 where
  pub player_id : String
  pub session_id : String

pub record Store (S : Type 0) : Type 0 where
  pub redis : Redis S
  pub uuid : ℕ → String
  pub dump : TokenData → String
  pub parse : String → Option TokenData
  pub token_ttl : ℕ
  pub heartbeat_ttl : ℕ

module _ {S : Type 0} (store : Store S) where
  -- The token is drawn before `setex` is called, so a draw is spent also when that throws.
  unfoldable pub create_token : String → String → ℕ → S → Option String × S
  create_token player_id session_id n s =
      let token = store.uuid n in
      let value = store.dump (record { player_id = player_id; session_id = session_id }) in
      let (done, s') = store.redis.setex ("token:" +++ token) value store.token_ttl s in
      (if done then some token else none, s')

  -- The outer `none` is an exception, the inner one `std::nullopt`.
  unfoldable pub validate_token : String → S → Option (Option TokenData) × S
  validate_token token s =
      let key = "token:" +++ token in
      let (result, s') = store.redis.get key s in
      elim result [
        | none ↦ (none, s')
        | some none ↦ (some none, s')
        | some (some value) ↦
            let (deleted, s'') = store.redis.del key s' in
            elim deleted [ none ↦ (none, s'') | some _ ↦ (some (store.parse value), s'') ]
      ]

  unfoldable pub register_game_session : String → S → Bool × S
  register_game_session session_id s = store.redis.sadd "active_sessions" session_id s

  unfoldable pub unregister_game_session : String → S → Bool × S
  unregister_game_session session_id s = store.redis.srem "active_sessions" session_id s

  unfoldable pub update_game_server_heartbeat : String → S → Bool × S
  update_game_server_heartbeat server_id s =
      store.redis.setex ("game_server:" +++ server_id) "alive" store.heartbeat_ttl s

  unfoldable pub is_game_server_alive : String → S → Option Bool × S
  is_game_server_alive server_id s = store.redis.exists ("game_server:" +++ server_id) s
