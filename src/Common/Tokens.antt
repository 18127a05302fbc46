-- ===== src/Common/Tokens.antt =====
-- What the tokens of src/common/redis/SessionStore.cpp and the limit of
-- src/common/ratelimit/RateLimiter.cpp are good for, when Redis does what it documents.
use Prim.Native.String.{◌++◌ as ◌+++◌}
use project_sos_backend.Common.Redis.{Redis}
use project_sos_backend.Common.SessionStore.{TokenData, Store, create_token, validate_token}
use project_sos_backend.Common.RateLimiter.{RateLimiter, allow}
use project_sos_backend.Base.{
  ℕ, zero, suc, ◌+◌, ◌≡◌, String, min, Bool, true, Option, none, some, leb, arith, ◌==◌,
  if◌then◌else◌,
}

module _ {S : Type 0} (redis : Redis S) (read : S → String → Option String) where
  -- SETEX, GET and DEL on the texts that the server stores, while no command fails and nothing
  -- expires.
  pub record StoresTexts : Type 0 where
    pub setex_done : (k v : String) (t : ℕ) (s : S) → (redis.setex k v t s).0 ≡ true
    pub setex_read :
        (k v j : String) (t : ℕ) (s : S)
        → read (redis.setex k v t s).1 j ≡ (if j == k then some v else read s j)
    pub get_value : (k : String) (s : S) → (redis.get k s).0 ≡ some (read s k)
    pub get_read : (k j : String) (s : S) → read (redis.get k s).1 j ≡ read s j
    pub del_done : (k : String) (s : S) → (n : Bool) × ((redis.del k s).0 ≡ some n)
    pub del_read :
        (k j : String) (s : S) → read (redis.del k s).1 j ≡ (if j == k then none else read s j)

module _ {S : Type 0} (store : Store S) (read : S → String → Option String)
    (laws : StoresTexts store.redis read) where
  -- While Redis stores texts as documented, no command fails and nothing expires, and where the
  -- text of the token's fields reads back as them: a token tells the player and the session it was
  -- made for the first time it is validated, and nothing the second time.
  pub validate_token-create_token :
      (player session : String) (n : ℕ) (s : S)
      → let fields : TokenData = record { player_id = player; session_id = session } in
        store.parse (store.dump fields) ≡ some fields
        → let s1 = (create_token store player session n s).1 in
          let first = validate_token store (store.uuid n) s1 in
          ((create_token store player session n s).0 ≡ some (store.uuid n))
          × (first.0 ≡ some (some fields))
          × ((validate_token store (store.uuid n) first.1).0 ≡ some none)
  unfolding create_token validate_token
  validate_token-create_token player session n s reads =
      let key = "token:" +++ store.uuid n in
      let fields : TokenData = record { player_id = player; session_id = session } in
      let s1 = (store.redis.setex key (store.dump fields) store.token_ttl s).1 in
      let s2 = (store.redis.get key s1).1 in
      let s3 = (store.redis.del key s2).1 in
      let there : read s1 key ≡ some (store.dump fields) =
        ground (arith, laws.setex_read key (store.dump fields) key store.token_ttl s) in
      let gone : read s3 key ≡ none = ground (arith, laws.del_read key key s2) in
      (
        ground (arith, laws.setex_done key (store.dump fields) store.token_ttl s),
        ground (arith, laws.get_value key s1, laws.del_done key s2),
        ground (arith, laws.get_value key s1, laws.del_done key s2, laws.get_value key s3),
      )

module _ {S : Type 0} (redis : Redis S) (count : S → String → ℕ) where
  -- INCR and EXPIRE on the counters, while no command fails and no window ends.
  pub record Counts : Type 0 where
    pub incr_value : (k : String) (s : S) → (redis.incr k s).0 ≡ some (suc (count s k))
    pub incr_count :
        (k j : String) (s : S)
        → count (redis.incr k s).1 j ≡ (if j == k then suc (count s k) else count s j)
    pub expire_done : (k : String) (t : ℕ) (s : S) → (redis.expire k t s).0 ≡ true
    pub expire_count : (k j : String) (t : ℕ) (s : S) → count (redis.expire k t s).1 j ≡ count s j

module _ {S : Type 0} (limiter : RateLimiter S) where
  -- One call counts, and compares with the limit.
  allow_lem :
      (count : S → String → ℕ) (id : String) (s : S)
      → Counts limiter.redis count
      → let k = limiter.key_prefix +++ id in
        ((allow limiter id s).0 ≡ some (leb (suc (count s k)) limiter.max_requests))
        × (count (allow limiter id s).1 k ≡ suc (count s k))
  unfolding allow
  allow_lem count id s laws =
      let k = limiter.key_prefix +++ id in
      let s1 = (limiter.redis.incr k s).1 in
      ground (
        arith,
        laws.incr_value k s,
        laws.incr_count k k s,
        laws.expire_done k limiter.window s1,
        laws.expire_count k k limiter.window s1,
      )

  -- How many of `n` requests in a row of one identifier are allowed.
  abbrev pub allowed_of : String → ℕ → S → ℕ
  allowed_of id zero s = 0
  allowed_of id (suc n) s =
      elim (allow limiter id s).0 [ some true ↦ 1 | _ ↦ 0 ] + allowed_of id n (allow limiter id s).1

  -- While Redis counts as documented, no command fails and the window does not end: of `n`
  -- requests in a row, as many are allowed as the limit has left for the identifier.
  pub allowed_of_lem :
      (count : S → String → ℕ) (id : String) (n : ℕ) (s : S)
      → Counts limiter.redis count
      → let k = limiter.key_prefix +++ id in
        allowed_of id n s + min (count s k) limiter.max_requests
        ≡ min (count s k + n) limiter.max_requests
  allowed_of_lem count id zero s laws = omega arith
  allowed_of_lem count id (suc n) s laws =
      let k = limiter.key_prefix +++ id in
      let step = allow_lem count id s laws in
      ground (arith, step.0, step.1, allowed_of_lem count id n (allow limiter id s).1 laws)
