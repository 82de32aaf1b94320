-- ===== src/RateLimit/Redis.antt =====
-- RedisRateLimiter. The Redis server is a parameter: INCR and EXPIRE on its store, or the
-- exception of a server that does not answer.
use online_banking_system.Prelude.{ℕ, Bool, true, Option, none, some, ◌==◌, leb, if◌then◌else◌}
use online_banking_system.RateLimit.Texts.{Text}

pub record Redis : Type 1 where
  pub Store : Type 0
  -- the counter after INCR of a key at a time
  pub incr : Text → ℕ → Store → Option (ℕ × Store)
  -- EXPIRE of a key after some seconds
  pub expire : Text → ℕ → ℕ → Store → Option Store

module _ (redis : Redis) where
  unfoldable pub redis_answer : ℕ → ℕ → redis.Store → Option redis.Store → Bool × redis.Store
  redis_answer current limit store none = (true, store)
  redis_answer current limit _ (some store) = (leb current limit, store)

  unfoldable pub redis_counted :
      ℕ → Text → ℕ → ℕ → redis.Store → Option (ℕ × redis.Store) → Bool × redis.Store
  unfolding redis_answer
  redis_counted now key limit window_seconds before none = (true, before)
  redis_counted now key limit window_seconds before (some (current, store)) =
      if current == 1
      then redis_answer current limit store (redis.expire key now window_seconds store)
      else (leb current limit, store)

  -- RedisRateLimiter.is_allowed: it fails open.
  unfoldable pub redis_is_allowed : ℕ → Text → ℕ → ℕ → redis.Store → Bool × redis.Store
  unfolding redis_counted
  redis_is_allowed now key limit window_seconds store =
      redis_counted now key limit window_seconds store (redis.incr key now store)
