-- ===== src/Auth/ResetTokens.antt =====
-- Password reset tokens: create_password_reset_token and verify_password_reset_token of
-- backend/app/core/security.py, and the checks of confirm_password_reset.
use online_banking_system.Prelude.{ℕ, ◌+◌, ◌*◌, Bool, ◌&&◌, false, Option, none, some, ◌==◌}
use online_banking_system.Db.{invalid_reset_token, User, Db}
use online_banking_system.Session.Check.{Result, ok, ◌>>=◌, ◌>>◌, require, or_raise}
use online_banking_system.Auth.Crypto.{Crypto, Claims, TokenKind}
use online_banking_system.Auth.Users.{get_user}
use online_banking_system.Auth.TwoFactor.{is_kind}

module _ (crypto : Crypto) where
  -- create_password_reset_token
  abbrev pub reset_claims : ℕ → ℕ → User → Claims
  reset_claims now id u = record {
    sub = id;
    kind = TokenKind.password_reset;
    pwd_fp = some (crypto.password_fingerprint u.password_hash);
    exp = now + 15 * 60;
  }

  abbrev pub reset_token_for : ℕ → Option (ℕ × User) → Option (ℕ × ℕ)
  reset_token_for now none = none
  reset_token_for now (some (id, u)) = some (id, crypto.encode (reset_claims now id u))

  abbrev pub same_fingerprint : Option ℕ → ℕ → Bool
  same_fingerprint none hash = false
  same_fingerprint (some fp) hash = fp == crypto.password_fingerprint hash

  -- verify_password_reset_token
  unfoldable pub reset_token_holds : Option Claims → ℕ → Bool
  reset_token_holds none current_hash = false
  reset_token_holds (some c) current_hash =
      is_kind c.kind TokenKind.password_reset && same_fingerprint c.pwd_fp current_hash

  -- The user whose password is reset.
  unfoldable pub reset_user : ℕ → ℕ → Db → Result ℕ
  unfolding get_user reset_token_holds
  reset_user now reset_token db = do
    claims ← or_raise (crypto.decode_expired reset_token) invalid_reset_token
    u ← or_raise (get_user claims.sub db) invalid_reset_token
    require (reset_token_holds (crypto.decode reset_token now) u.password_hash) invalid_reset_token
    ok claims.sub
