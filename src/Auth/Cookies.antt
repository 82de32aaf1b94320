-- ===== src/Auth/Cookies.antt =====
-- The refresh token's cookie: backend/app/modules/auth/cookies.py, and what a browser makes of it.
use online_banking_system.Prelude.{ℕ, ◌*◌, ◌+◌, Bool, Option, none, some, ltb, if◌then◌else◌}
use online_banking_system.Auth.Tokens.{TokenSettings}

-- What the headers of a response do to the cookie: `set_cookie` with its value, `max_age` and
-- `secure`, `delete_cookie`, or nothing.
pub data CookieChange : Type 0 where
  no_change : CookieChange
  set_cookie : ℕ → ℕ → Bool → CookieChange
  delete_cookie : CookieChange

-- `is_production` is a setting.
abbrev pub set_refresh_token_cookie : Bool → TokenSettings → ℕ → CookieChange
set_refresh_token_cookie is_production settings refresh_token =
    set_cookie refresh_token (settings.refresh_token_expire_days * 24 * 60 * 60) is_production

abbrev pub clear_refresh_token_cookie : CookieChange
clear_refresh_token_cookie = delete_cookie

-- The cookie of a browser: its value, and when the browser forgets it.
pub record Cookie : Type 0 where
  pub value : ℕ
  pub expires_at : ℕ

-- What a browser keeps after a response that arrives at `now`.
abbrev pub store_cookie : ℕ → CookieChange → Option Cookie → Option Cookie
store_cookie now no_change jar = jar
store_cookie now (set_cookie value max_age secure) jar =
    some (record { value = value; expires_at = now + max_age })
store_cookie now delete_cookie jar = none

-- read_refresh_token_cookie: the cookie that the browser sends, while it has not expired.
abbrev pub read_refresh_token_cookie : ℕ → Option Cookie → Option ℕ
read_refresh_token_cookie now none = none
read_refresh_token_cookie now (some c) = if ltb now c.expires_at then some c.value else none
