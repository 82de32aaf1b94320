-- ===== src/Auth/Passwords.antt =====
-- change_password, request_password_reset and confirm_password_reset. `new_hash` is the argon2 hash of the new password.
use online_banking_system.Prelude.{ℕ, Option, [], ◌∷◌}
use online_banking_system.Db.{invalid_credentials, User, Db}
use online_banking_system.Session.Actions.{Action, ◌>>=◌, ◌>>◌, check, modify, commit, send}
use online_banking_system.Session.Check.{ok, require}
use online_banking_system.Session.Messages.{audit, AuditAction}
use online_banking_system.Auth.Crypto.{Crypto}
use online_banking_system.Auth.Users.{get_by_email, update_user}
use online_banking_system.Auth.Tokens.{revoke_all_for_user}
use online_banking_system.Auth.ResetTokens.{reset_token_for, reset_user}

-- The new hash is stored, and every session of the user ends.
unfoldable pub set_password : ℕ → ℕ → ℕ → Db → Db
unfolding update_user revoke_all_for_user
set_password new_hash now id db =
    revoke_all_for_user id now (update_user id (λ u. record u { password_hash = new_hash }) db)

module _ (crypto : Crypto) where
  -- `u` is the row of the signed-in user as the request loaded it.
  unfoldable pub change_password : ℕ → ℕ → ℕ → ℕ → User → Action (Unit {0})
  unfolding set_password
  change_password new_hash now current id u = do
    check (λ _. require (crypto.verify_password current u.password_hash) invalid_credentials)
    modify (set_password new_hash now id)
    commit
    send (audit id AuditAction.password_changed id ∷ [])

  unfoldable pub request_password_reset : ℕ → ℕ → Action (Option (ℕ × ℕ))
  unfolding get_by_email
  request_password_reset now email =
      check (λ db. ok (reset_token_for crypto now (get_by_email email db)))

  unfoldable pub confirm_password_reset : ℕ → ℕ → ℕ → Action (Unit {0})
  unfolding reset_user set_password
  confirm_password_reset new_hash now reset_token = do
    id ← check (reset_user crypto now reset_token)
    modify (set_password new_hash now id)
    commit
    send (audit id AuditAction.password_reset id ∷ [])
