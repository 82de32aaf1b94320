-- ===== src/Auth/TwoFactor.antt =====
-- Two-factor authentication: setup_two_factor, enable_two_factor, disable_two_factor and
-- verify_mfa_login. `u` is the row of the signed-in user as the request loaded it.
use online_banking_system.Prelude.{
  ℕ, Bool, true, false, not, Option, none, some, [], ◌∷◌, if◌then◌else◌,
}
use online_banking_system.Db.{
  invalid_credentials, invalid_totp_code, mfa_challenge_invalid, two_factor_already_enabled,
  two_factor_not_enabled, two_factor_setup_not_started, User, Db,
}
use online_banking_system.Session.Actions.{
  Action, ◌>>=◌, ◌>>◌, pure, raise, check, modify, commit, send,
}
use online_banking_system.Session.Check.{Result, err, require, refuse, or_raise}
use online_banking_system.Session.Messages.{audit, AuditAction}
use online_banking_system.Auth.Crypto.{Crypto, Claims, TokenKind}
use online_banking_system.Auth.Users.{get_user, update_user}
use online_banking_system.Auth.Tokens.{TokenSettings, Draw, TokenResponse}
use online_banking_system.Auth.Login.{shut_out, open_login}

abbrev pub is_kind : TokenKind → TokenKind → Bool
is_kind TokenKind.access TokenKind.access = true
is_kind TokenKind.password_reset TokenKind.password_reset = true
is_kind TokenKind.mfa_challenge TokenKind.mfa_challenge = true
is_kind _ _ = false

module _ (crypto : Crypto) where
  -- A code for the stored secret: one that cannot be decrypted fits no code.
  unfoldable pub totp_matches : ℕ → ℕ → Option ℕ → Bool
  totp_matches code now none = false
  totp_matches code now (some stored) = elim (crypto.decrypt_secret stored) [
    | none ↦ false
    | some secret ↦ crypto.verify_totp secret code now
  ]

  -- `secret` is a fresh one.
  unfoldable pub setup_two_factor : ℕ → ℕ → User → Action ℕ
  unfolding update_user
  setup_two_factor secret id u = do
    check (λ _. refuse u.totp_enabled two_factor_already_enabled)
    modify (update_user id (λ v. record v { totp_secret = some (crypto.encrypt_secret secret) }))
    commit
    pure secret

  unfoldable pub enable_checks : ℕ → ℕ → User → Result (Unit {0})
  unfolding totp_matches
  enable_checks code now u =
      if u.totp_enabled then err two_factor_already_enabled else elim u.totp_secret [
        | none ↦ err two_factor_setup_not_started
        | some stored ↦ require (totp_matches code now (some stored)) invalid_totp_code
      ]

  unfoldable pub enable_two_factor : ℕ → ℕ → ℕ → User → Action (Unit {0})
  unfolding enable_checks update_user
  enable_two_factor now code id u = do
    check (λ _. enable_checks code now u)
    modify (update_user id (λ v. record v { totp_enabled = true }))
    commit
    send (audit id AuditAction.two_factor_enabled id ∷ [])

  unfoldable pub disable_checks : ℕ → ℕ → ℕ → User → Result (Unit {0})
  unfolding totp_matches
  disable_checks password code now u =
      if not u.totp_enabled
      then err two_factor_not_enabled
      else if not (crypto.verify_password password u.password_hash)
      then err invalid_credentials
      else require (totp_matches code now u.totp_secret) invalid_totp_code

  unfoldable pub disable_two_factor : ℕ → ℕ → ℕ → ℕ → User → Action (Unit {0})
  unfolding disable_checks update_user
  disable_two_factor now password code id u = do
    check (λ _. disable_checks password code now u)
    modify (update_user id (λ v. record v { totp_enabled = false; totp_secret = none }))
    commit
    send (audit id AuditAction.two_factor_disabled id ∷ [])

  -- verify_mfa_challenge_token: the user of a challenge that is signed and in time.
  unfoldable pub challenged_user : Option Claims → Option ℕ
  challenged_user none = none
  challenged_user (some c) = if is_kind c.kind TokenKind.mfa_challenge then some c.sub else none

  abbrev pub may_answer : ℕ → Option User → Option (ℕ × User)
  may_answer id none = none
  may_answer id (some u) =
      if shut_out u then none else if u.totp_enabled then some (id, u) else none

  -- The user who answers the challenge, with the stored secret.
  unfoldable pub mfa_user : ℕ → ℕ → Db → Result (ℕ × User)
  unfolding challenged_user get_user
  mfa_user challenge_token now db = elim (challenged_user (crypto.decode challenge_token now)) [
    | none ↦ err mfa_challenge_invalid
    | some id ↦ or_raise (may_answer id (get_user id db)) mfa_challenge_invalid
  ]

  module _ (settings : TokenSettings) where
    -- The code, for the secret as decrypted.
    unfoldable pub check_totp : Draw → ℕ → ℕ → Option ℕ → Action TokenResponse
    unfolding open_login
    check_totp draw code id none = raise invalid_totp_code
    check_totp draw code id (some secret) =
        if crypto.verify_totp secret code draw.now
        then open_login crypto settings AuditAction.mfa_login_success draw id
        else (do send (audit id AuditAction.mfa_login_failed id ∷ []); raise invalid_totp_code)

    unfoldable pub check_stored : Draw → ℕ → ℕ → Option ℕ → Action TokenResponse
    unfolding check_totp
    check_stored draw code id none = raise mfa_challenge_invalid
    check_stored draw code id (some stored) = check_totp draw code id (crypto.decrypt_secret stored)

    unfoldable pub answer_challenge : Draw → ℕ → ℕ × User → Action TokenResponse
    unfolding check_stored
    answer_challenge draw code (id, u) = check_stored draw code id u.totp_secret

    unfoldable pub verify_mfa_login : Draw → ℕ → ℕ → Action TokenResponse
    unfolding mfa_user answer_challenge
    verify_mfa_login draw challenge_token code = do
      user ← check (mfa_user challenge_token draw.now)
      answer_challenge draw code user
