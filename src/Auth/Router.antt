-- ===== src/Auth/Router.antt =====
-- The endpoints of backend/app/modules/auth/router.py. `cookie` is the refresh token's cookie of the
-- request, `credentials` its bearer token. An endpoint answers with a body and what it does to the
-- cookie; one that raises leaves the cookie alone, since the handler of the exception makes a new
-- response. `others` is what other requests commit between the reads of a service and its writes.
use online_banking_system.Prelude.{ℕ, Bool, Option, none, some, [], ◌∷◌}
use online_banking_system.Db.{unauthorized, Db}
use online_banking_system.Session.Actions.{Action, ◌>>=◌, ◌>>◌, pure, raise, check, send}
use online_banking_system.Session.Messages.{notify, Channel, Template}
use online_banking_system.Transfers.{Settings}
use online_banking_system.Auth.Crypto.{Crypto}
use online_banking_system.Auth.Users.{RegisterRequest}
use online_banking_system.Auth.Tokens.{TokenSettings, Draw, TokenResponse}
use online_banking_system.Auth.Login.{LoginReply, mfa_challenge, tokens, login}
use online_banking_system.Auth.TwoFactor.{
  setup_two_factor, enable_two_factor, disable_two_factor, verify_mfa_login,
}
use online_banking_system.Auth.Registration.{
  register, confirm_registration, resend_registration_otp,
}
use online_banking_system.Auth.Refresh.{refresh, logout}
use online_banking_system.Auth.Passwords.{
  change_password, request_password_reset, confirm_password_reset,
}
use online_banking_system.Auth.Access.{get_current_user}
use online_banking_system.Auth.Cookies.{
  CookieChange, no_change, set_refresh_token_cookie, clear_refresh_token_cookie,
}

-- AccessTokenResponse: the tokens without the refresh token.
pub record AccessTokenResponse : Type 0 where
  pub user_id : ℕ
  pub expires_in : ℕ

-- AccessTokenResponse.from_tokens
abbrev pub from_tokens : TokenResponse → AccessTokenResponse
from_tokens t = record { user_id = t.user_id; expires_in = t.expires_in }

-- The bodies: an empty one, RegisterResponse and ResendRegistrationOtpResponse, the two shapes of
-- LoginResponse, AccessTokenResponse, SetupTwoFactorResponse.
pub data Body : Type 0 where
  no_content : Body
  registered : ℕ → ℕ → Body
  code_sent : ℕ → Body
  mfa_required : ℕ → Body
  access_token : AccessTokenResponse → Body
  two_factor_secret : ℕ → Body

abbrev pub Response : Type 0
Response = Body × CookieChange

-- The body alone.
abbrev pub respond : {A : Type 0} → Action A → (A → Body) → Action Response
respond m body = do value ← m; pure (body value, no_change)

abbrev pub empty : Action (Unit {0}) → Action Response
empty m = respond m (λ _. no_content)

module _ (crypto : Crypto) (is_production : Bool) (token_settings : TokenSettings) where
  -- The new tokens: the refresh token goes into the cookie only.
  abbrev pub with_tokens : TokenResponse → Response
  with_tokens t = (
    access_token (from_tokens t),
    set_refresh_token_cookie is_production token_settings t.refresh_token,
  )

  abbrev pub login_response : LoginReply → Response
  login_response (mfa_challenge challenge_token) = (mfa_required challenge_token, no_change)
  login_response (tokens t) = with_tokens t

  unfoldable pub login_endpoint : Draw → ℕ → ℕ → Action Response
  login_endpoint draw email password = do
    reply ← login crypto token_settings draw email password
    pure (login_response reply)

  unfoldable pub refresh_endpoint : (Db → Db) → Draw → Option ℕ → Action Response
  refresh_endpoint others draw none = raise unauthorized
  refresh_endpoint others draw (some raw) = do
    fresh ← refresh crypto token_settings others draw raw
    pure (with_tokens fresh)

  unfoldable pub logout_endpoint : ℕ → Option ℕ → Action Response
  logout_endpoint now none = pure (no_content, clear_refresh_token_cookie)
  logout_endpoint now (some raw) = do
    logout crypto now raw
    pure (no_content, clear_refresh_token_cookie)

  unfoldable pub verify_login_endpoint : Draw → ℕ → ℕ → Action Response
  verify_login_endpoint draw challenge_token code = do
    opened ← verify_mfa_login crypto token_settings draw challenge_token code
    pure (with_tokens opened)

-- request_password_reset: the answer is the same whether the address is known or not.
unfoldable pub send_reset : Option (ℕ × ℕ) → Action (Unit {0})
send_reset none = pure tt
send_reset (some (user_id, reset_token)) =
    send (notify user_id Channel.email Template.password_reset reset_token ∷ [])

pub data SignUpEndpoint : Type 0 where
  sign_up : ℕ → ℕ → ℕ → RegisterRequest → SignUpEndpoint
  confirm_sign_up : ℕ → ℕ → SignUpEndpoint
  resend_sign_up_code : ℕ → ℕ → SignUpEndpoint

pub data PasswordEndpoint : Type 0 where
  change_to : ℕ → ℕ → PasswordEndpoint
  request_reset : ℕ → PasswordEndpoint
  reset_to : ℕ → ℕ → PasswordEndpoint

pub data TwoFactorEndpoint : Type 0 where
  set_up : ℕ → TwoFactorEndpoint
  enable : ℕ → TwoFactorEndpoint
  disable : ℕ → ℕ → TwoFactorEndpoint

pub data SessionEndpoint : Type 0 where
  log_in : Draw → ℕ → ℕ → SessionEndpoint
  refresh_session : Draw → SessionEndpoint
  log_out : SessionEndpoint
  verify_login : Draw → ℕ → ℕ → SessionEndpoint

unfoldable pub serve_sign_up : Crypto → (Db → Db) → Settings → ℕ → SignUpEndpoint → Action Response
serve_sign_up crypto others settings now (sign_up hash user_id customer_id payload) =
    respond (register others settings now hash user_id customer_id payload)
      (λ reply. registered reply.0 reply.1)
serve_sign_up crypto others settings now (confirm_sign_up user_id code) =
    empty (confirm_registration crypto others now user_id code)
serve_sign_up crypto others settings now (resend_sign_up_code hash user_id) =
    respond (resend_registration_otp settings now hash user_id) code_sent

module _ (crypto : Crypto) (now : ℕ) (credentials : Option ℕ) where
  unfoldable pub serve_password : PasswordEndpoint → Action Response
  unfolding get_current_user send_reset
  serve_password (change_to new_hash current) = do
    user ← check (get_current_user crypto now credentials)
    empty (change_password crypto new_hash now current user.0 user.1)
  serve_password (request_reset email) = do
    result ← request_password_reset crypto now email
    empty (send_reset result)
  serve_password (reset_to new_hash reset_token) =
      empty (confirm_password_reset crypto new_hash now reset_token)

  unfoldable pub serve_two_factor : TwoFactorEndpoint → Action Response
  unfolding get_current_user
  serve_two_factor (set_up secret) = do
    user ← check (get_current_user crypto now credentials)
    respond (setup_two_factor crypto secret user.0 user.1) two_factor_secret
  serve_two_factor (enable code) = do
    user ← check (get_current_user crypto now credentials)
    empty (enable_two_factor crypto now code user.0 user.1)
  serve_two_factor (disable password code) = do
    user ← check (get_current_user crypto now credentials)
    empty (disable_two_factor crypto now password code user.0 user.1)

unfoldable pub serve_session :
    Crypto → Bool → TokenSettings → (Db → Db) → ℕ → Option ℕ → SessionEndpoint → Action Response
unfolding login_endpoint refresh_endpoint logout_endpoint verify_login_endpoint
serve_session crypto is_production settings others now cookie (log_in draw email password) =
    login_endpoint crypto is_production settings draw email password
serve_session crypto is_production settings others now cookie (refresh_session draw) =
    refresh_endpoint crypto is_production settings others draw cookie
serve_session crypto is_production settings others now cookie log_out =
    logout_endpoint crypto is_production settings now cookie
serve_session crypto is_production settings others now cookie (verify_login draw challenge code) =
    verify_login_endpoint crypto is_production settings draw challenge code
