-- ===== src/Auth/Login.antt =====
-- AuthService.login.
use online_banking_system.Prelude.{
  ℕ, ◌+◌, ◌*◌, Bool, not, ◌||◌, Option, none, some, [], ◌∷◌, if◌then◌else◌,
}
use online_banking_system.Db.{invalid_credentials, account_blocked, email_not_verified, Error, User}
use online_banking_system.Session.Actions.{
  Action, ◌>>=◌, ◌>>◌, pure, raise, check, modify, commit, send,
}
use online_banking_system.Session.Check.{ok}
use online_banking_system.Session.Messages.{audit, audit_attempt, AuditAction}
use online_banking_system.Auth.Crypto.{Crypto, Claims, TokenKind}
use online_banking_system.Auth.Users.{get_by_email, mark_login}
use online_banking_system.Auth.Tokens.{
  TokenSettings, Draw, TokenResponse, token_response, issue_token_pair,
}

-- LoginResponse: a challenge token, or the tokens of the new session.
pub data LoginReply : Type 0 where
  mfa_challenge : ℕ → LoginReply
  tokens : TokenResponse → LoginReply

-- create_mfa_challenge_token
abbrev pub challenge_claims : ℕ → ℕ → Claims
challenge_claims user_id now = record {
  sub = user_id;
  kind = TokenKind.mfa_challenge;
  pwd_fp = none;
  exp = now + 5 * 60;
}

-- `user.is_blocked or not user.is_active`
abbrev pub shut_out : User → Bool
shut_out u = u.is_blocked || not u.enabled

module _ (crypto : Crypto) (settings : TokenSettings) where
  -- The audit entry of a refused login, and its error.
  unfoldable pub refused_login : ℕ → AuditAction → Error → Action LoginReply
  refused_login id action e = do send (audit id action id ∷ []); raise e

  unfoldable pub open_login : AuditAction → Draw → ℕ → Action TokenResponse
  unfolding mark_login issue_token_pair
  open_login action draw id = do
    modify (mark_login id draw.now)
    modify (issue_token_pair crypto settings draw id)
    commit
    send (audit id action id ∷ [])
    pure (token_response settings draw id)

  -- The password is right.
  unfoldable pub known_login : Draw → ℕ → User → Action LoginReply
  unfolding refused_login open_login
  known_login draw id u =
      if shut_out u
      then refused_login id AuditAction.login_blocked account_blocked
      else if not u.email_verified
      then refused_login id AuditAction.login_email_not_verified email_not_verified
      else if u.totp_enabled
      then (do
        send (audit id AuditAction.login_password_ok_awaiting_mfa id ∷ [])
        pure (mfa_challenge (crypto.encode (challenge_claims id draw.now))))
      else (do opened ← open_login AuditAction.login_success draw id; pure (tokens opened))

  unfoldable pub login_as : Draw → ℕ → Option (ℕ × User) → Action LoginReply
  unfolding known_login
  login_as draw password none = do
    send (audit_attempt none AuditAction.login_failed ∷ [])
    raise invalid_credentials
  login_as draw password (some (id, u)) =
      if crypto.verify_password password u.password_hash then known_login draw id u else (do
        send (audit_attempt (some id) AuditAction.login_failed ∷ [])
        raise invalid_credentials)

  unfoldable pub login : Draw → ℕ → ℕ → Action LoginReply
  unfolding login_as get_by_email
  login draw email password = do
    found ← check (λ db. ok (get_by_email email db))
    login_as draw password found
