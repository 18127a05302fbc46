-- ===== src/Common/Redis.antt =====
-- The commands of src/common/redis/RedisClient.cpp. Each forwards to redis-plus-plus and the Redis
-- server, which are not part of the repository: the server's state `S` and what a command does to
-- it are parameters. `none`, or `false` where a command returns nothing that is used, stands for a
-- `std::exception`; the server may have carried out a command whose call throws.
use project_sos_backend.Base.{ℕ, String, Bool, Option, List}

pub record Redis (S : Type 0) : Type 0 where
  pub get : String → S → Option (Option String) × S
  pub setex : String → String → ℕ → S → Bool × S
  pub del : String → S → Option Bool × S
  pub incr : String → S → Option ℕ × S
  pub expire : String → ℕ → S → Bool × S
  pub sadd : String → String → S → Bool × S
  pub srem : String → String → S → Bool × S
  pub exists : String → S → Option Bool × S
  pub hset : String → String → String → S → Bool × S
  pub lpush : String → String → S → Bool × S
  -- `ltrim(key, 0, stop)` and `lrange(key, 0, stop)`; the last argument but the state is `stop + 1`.
  pub ltrim : String → ℕ → S → Bool × S
  pub lrange : String → ℕ → S → Option (List String) × S
