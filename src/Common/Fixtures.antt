-- ===== src/Common/Fixtures.antt =====
-- Values for the tests: a Redis whose commands all fail, stores on top of it, and UUIDs that are
-- texts of growing length.
use Prim.Native.String.len.{cons}
use Prim.Native.String.{len}
use project_sos_backend.Common.Redis.{Redis}
use project_sos_backend.Common.SessionStore.{Store}
use project_sos_backend.Base.{
  ℕ, zero, suc, ◌+◌, ◌≡◌, ◌≢◌, ◌==◌, refl, ap, String, false, none, some, arith,
}

abbrev pub failing_redis : {S : Type 0} → Redis S
failing_redis = record {
  get = λ _ s. (none, s);
  setex = λ _ _ _ s. (false, s);
  del = λ _ s. (none, s);
  incr = λ _ s. (none, s);
  expire = λ _ _ s. (false, s);
  sadd = λ _ _ s. (false, s);
  srem = λ _ _ s. (false, s);
  exists = λ _ s. (none, s);
  hset = λ _ _ _ s. (false, s);
  lpush = λ _ _ s. (false, s);
  ltrim = λ _ _ s. (false, s);
  lrange = λ _ _ s. (none, s);
}

unfoldable pub unary : ℕ → String
unary zero = "u"
unary (suc n) = String.◌∷◌ "u" (unary n)

len-unary : (n : ℕ) → len (unary n) ≡ n + 1
unfolding unary
len-unary zero = refl
len-unary (suc n) = omega (arith, len-unary n, cons "u" (unary n))

pub unary_distinct : (m n : ℕ) → unary m ≡ unary n → m ≡ n
unary_distinct m n e = omega (arith, len-unary m, len-unary n, ap len e)

abbrev pub fixed_store : {S : Type 0} → Redis S → Store S
fixed_store redis = record {
  redis = redis;
  uuid = unary;
  dump = λ _. "fields";
  parse = λ _. some (record { player_id = "ann"; session_id = "game" });
  token_ttl = 60;
  heartbeat_ttl = 30;
}

pub differs : (s t : String) → (s == t) ≡ false → s ≢ t
differs s t h = ground arith
