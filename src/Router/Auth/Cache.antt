-- ===== src/Router/Auth/Cache.antt =====
-- The token cache on Redis.
use alya.Prelude.{Option, none, some, String, Bool, if◌then◌else◌}
use alya.Prelude.Int.{ℤ, pos, is_zero}
use alya.Router.Auth.Types.{TokenCache}
use alya.Router.Auth.ClaimChecks.{before}

-- NewRedisTokenCache: the state is that of Redis, `exists` and `set` are its two calls, the latter
-- with the expiration, in nanoseconds.
unfoldable pub new_redis_token_cache :
    {C : Type 0} → (String → C → Option ℤ) → (String → ℤ → C → C × Bool) → ℤ → TokenCache C
new_redis_token_cache exists_call set_call expiration =
    let expiry = if is_zero expiration then pos 30000000000 else expiration in
    record {
      get =
          λ token c. elim (exists_call token c) [ none ↦ none | some n ↦ some (before (pos 0) n) ];
      set = λ token c. set_call token expiry c;
    }
