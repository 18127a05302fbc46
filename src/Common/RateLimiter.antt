-- ===== src/Common/RateLimiter.antt =====
-- src/common/ratelimit/RateLimiter.cpp. `none` is an exception of one of the two commands.
use Prim.Native.String.{◌++◌ as ◌+++◌}
use project_sos_backend.Common.Redis.{Redis}
use project_sos_backend.Base.{ℕ, String, Bool, Option, none, some, leb, eqb, if◌then◌else◌}

pub record RateLimiter (S : Type 0) : Type 0 where
  pub redis : Redis S
  pub max_requests : ℕ
  pub window : ℕ
  pub key_prefix : String

-- The first request of a window sets its end; those up to `max_requests` are allowed.
unfoldable pub allow : {S : Type 0} → RateLimiter S → String → S → Option Bool × S
allow limiter identifier s =
    let key = limiter.key_prefix +++ identifier in
    let (result, s') = limiter.redis.incr key s in
    elim result [
      | none ↦ (none, s')
      | some count ↦
          let (done, s'') = limiter.redis.expire key limiter.window s' in
          let verdict = leb count limiter.max_requests in
          if eqb count 1 then (if done then some verdict else none, s'') else (some verdict, s')
    ]
