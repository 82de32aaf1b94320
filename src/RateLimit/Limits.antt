-- ===== src/RateLimit/Limits.antt =====
-- RateLimitMiddleware, with the limits of `_build_rate_limits` in backend/app/main.py.
use Prim.Native.Char.{code}
use Prim.Native.String.{String}
use online_banking_system.Prelude.{
  ℕ, Bool, true, Option, none, some, List, [], ◌∷◌, ◌++◌, if◌then◌else◌,
}
use online_banking_system.RateLimit.Texts.{Text, startswith}
use online_banking_system.RateLimit.InMemory.{Hits, is_allowed, Limit}

-- A literal of the source.
abbrev pub literal : String → Text
literal String.[] = []
literal (String.◌∷◌ c s) = code c ∷ literal s

-- `settings.api_v1_prefix` and the limits of backend/app/core/config.py
pub record RateLimitSettings : Type 0 where
  pub api_v1_prefix : Text
  pub rate_limit_login_per_minute : ℕ
  pub rate_limit_register_per_minute : ℕ
  pub rate_limit_password_reset_per_minute : ℕ
  pub rate_limit_transfer_per_minute : ℕ
  pub rate_limit_default_per_minute : ℕ

abbrev pub per_minute : ℕ → Limit
per_minute n = record { limit = n; window_seconds = 60 }

unfoldable pub build_rate_limits : RateLimitSettings → List (Text × Limit)
build_rate_limits settings =
    let under = λ (s : String). settings.api_v1_prefix ++ literal s in
    (under "/auth/login", per_minute settings.rate_limit_login_per_minute)
    ∷ (under "/auth/register/confirm", per_minute settings.rate_limit_login_per_minute)
    ∷ (under "/auth/register/resend-otp", per_minute settings.rate_limit_password_reset_per_minute)
    ∷ (under "/auth/register", per_minute settings.rate_limit_register_per_minute)
    ∷ (
      under "/auth/password/reset-request",
      per_minute settings.rate_limit_password_reset_per_minute,
    )
    ∷ (under "/auth", per_minute settings.rate_limit_login_per_minute)
    ∷ (under "/transactions/transfer", per_minute settings.rate_limit_transfer_per_minute)
    ∷ (settings.api_v1_prefix, per_minute settings.rate_limit_default_per_minute)
    ∷ []

-- The first prefix of the loop that the path starts with.
unfoldable pub first_match : Text → List (Text × Limit) → Option (Text × Limit)
unfolding startswith
first_match path [] = none
first_match path ((prefix, limit) ∷ limits) =
    if startswith path prefix then some (prefix, limit) else first_match path limits

-- f"ratelimit:{prefix}:{client_ip}"
unfoldable pub limiter_key : Text → Text → Text
limiter_key prefix client_ip = literal "ratelimit:" ++ prefix ++ literal ":" ++ client_ip

-- RateLimitMiddleware.__call__ for an HTTP request: whether the application is called, or 429 is
-- sent.
unfoldable pub admit_matched : ℕ → Text → Option (Text × Limit) → Hits → Bool × Hits
unfolding is_allowed limiter_key
admit_matched now client_ip none hits = (true, hits)
admit_matched now client_ip (some (prefix, p)) hits =
    is_allowed now (limiter_key prefix client_ip) p.limit p.window_seconds hits

unfoldable pub admit_request : List (Text × Limit) → ℕ → Text → Text → Hits → Bool × Hits
unfolding first_match admit_matched
admit_request limits now path client_ip hits =
    admit_matched now client_ip (first_match path limits) hits
