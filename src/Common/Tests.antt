-- ===== src/Common/Tests.antt =====
-- Tokens and the rate limit over a Redis that is a function from keys.
use Prim.Native.String.{◌++◌ as ◌+++◌}
use project_sos_backend.RoomManager.State.{put, remove}
use project_sos_backend.Common.Redis.{Redis}
use project_sos_backend.Common.RateLimiter.{RateLimiter}
use project_sos_backend.Common.Tokens.{StoresTexts, Counts, allowed_of, allowed_of_lem}
use project_sos_backend.Common.Fixtures.{failing_redis}
use project_sos_backend.Base.{
  ℕ, suc, ◌+◌, min, ◌≡◌, refl, String, true, Option, none, some, ◌==◌, if◌then◌else◌,
}

abbrev pub texts : Redis (String → Option String)
texts = record failing_redis {
  setex = λ k v _ s. (true, put k v s);
  get = λ k s. (some (s k), s);
  del = λ k s. (some true, remove k s);
}

pub texts-StoresTexts : StoresTexts texts (λ s k. s k)
texts-StoresTexts = record {
  setex_done = λ _ _ _ _. refl;
  setex_read = λ _ _ _ _ _. refl;
  get_value = λ _ _. refl;
  get_read = λ _ _ _. refl;
  del_done = λ _ _. (true, refl);
  del_read = λ _ _ _. refl;
}

abbrev pub nothing_stored : String → Option String
nothing_stored _ = none

abbrev counters : Redis (String → ℕ)
counters = record failing_redis {
  incr = λ k s. (some (suc (s k)), λ j. if j == k then suc (s k) else s j);
  expire = λ _ _ s. (true, s);
}

counters-Counts : Counts counters (λ s k. s k)
counters-Counts = record {
  incr_value = λ _ _. refl;
  incr_count = λ _ _ _. refl;
  expire_done = λ _ _ _. refl;
  expire_count = λ _ _ _ _. refl;
}

abbrev limiter : RateLimiter (String → ℕ)
limiter = record { redis = counters; max_requests = 3; window = 60; key_prefix = "rate:" }

abbrev two_counted : String → ℕ
two_counted _ = 2

allowed_of_lem_example :
    allowed_of limiter "10.0.0.1" 5 two_counted + min (two_counted ("rate:" +++ "10.0.0.1")) 3
    ≡ min (two_counted ("rate:" +++ "10.0.0.1") + 5) 3
allowed_of_lem_example =
    allowed_of_lem limiter (λ s k. s k) "10.0.0.1" 5 two_counted counters-Counts
