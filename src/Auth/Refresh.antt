-- ===== src/Auth/Refresh.antt =====
-- AuthService.refresh and logout. `others` is what other requests commit between the reads, which
-- take no lock, and the writes.
use online_banking_system.Prelude.{ℕ, Option, none, some, [], ◌∷◌, if◌then◌else◌}
use online_banking_system.Db.{invalid_refresh_token, RefreshToken, User, Db}
use online_banking_system.Session.Actions.{
  Action, ◌>>=◌, ◌>>◌, pure, raise, check, modify, commit, send, wait,
}
use online_banking_system.Session.Check.{Result, ok, err, or_raise}
use online_banking_system.Session.Messages.{audit, AuditAction}
use online_banking_system.Auth.Crypto.{Crypto}
use online_banking_system.Auth.Users.{get_user}
use online_banking_system.Auth.Tokens.{
  get_by_hash, revoke, revoke_all_for_user, is_valid, TokenSettings, Draw, TokenResponse,
  token_response, issue_token_pair,
}
use online_banking_system.Auth.Login.{shut_out}

-- The user, unless unknown or shut out.
abbrev pub may_refresh : Option User → Result (Unit {0})
may_refresh none = err invalid_refresh_token
may_refresh (some u) = if shut_out u then err invalid_refresh_token else ok tt

module _ (crypto : Crypto) where
  -- A token that is used again or expired ends every session of its user.
  unfoldable pub reuse_detected : ℕ → ℕ → Action TokenResponse
  unfolding revoke_all_for_user
  reuse_detected now user_id = do
    modify (revoke_all_for_user user_id now)
    commit
    send (audit user_id AuditAction.refresh_token_reuse_detected user_id ∷ [])
    raise invalid_refresh_token

  module _ (settings : TokenSettings) where
    unfoldable pub rotate : (Db → Db) → Draw → ℕ × RefreshToken → Action TokenResponse
    unfolding get_user issue_token_pair revoke
    rotate others draw (id, stored) = do
      check (λ db. may_refresh (get_user stored.user_id db))
      wait others
      modify (issue_token_pair crypto settings draw stored.user_id)
      modify (revoke id draw.now (some draw.token_id))
      commit
      pure (token_response settings draw stored.user_id)

    unfoldable pub refresh_stored : (Db → Db) → Draw → ℕ × RefreshToken → Action TokenResponse
    unfolding rotate reuse_detected
    refresh_stored others draw stored =
        if is_valid draw.now stored.1
        then rotate others draw stored
        else reuse_detected draw.now stored.1.user_id

    unfoldable pub refresh : (Db → Db) → Draw → ℕ → Action TokenResponse
    unfolding refresh_stored get_by_hash
    refresh others draw raw_refresh_token = do
      stored ← check (λ db.
          or_raise (get_by_hash (crypto.hash_refresh_token raw_refresh_token) db)
            invalid_refresh_token)
      refresh_stored others draw stored

  unfoldable pub logout_stored : ℕ → Option (ℕ × RefreshToken) → Action (Unit {0})
  unfolding revoke
  logout_stored now none = pure tt
  logout_stored now (some (id, stored)) =
      if is_valid now stored
      then (do
        modify (revoke id now none)
        commit
        send (audit stored.user_id AuditAction.logout stored.user_id ∷ []))
      else pure tt

  unfoldable pub logout : ℕ → ℕ → Action (Unit {0})
  unfolding logout_stored get_by_hash
  logout now raw_refresh_token = do
    stored ← check (λ db. ok (get_by_hash (crypto.hash_refresh_token raw_refresh_token) db))
    logout_stored now stored
