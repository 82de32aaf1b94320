-- ===== src/Auth/Reuse.antt =====
-- A refresh token that is used again.
use online_banking_system.Prelude.{ℕ, ◌≡◌, ◌≢◌, refl, true, false, some, arith, ◌∙◌, is_none}
use online_banking_system.Table.{lookup, insert}
use online_banking_system.Db.{invalid_refresh_token, RefreshToken, Db}
use online_banking_system.Db.Constraints.{meets_constraints}
use online_banking_system.Session.{◌>>=◌, open_session}
use online_banking_system.Session.Check.{err}
use online_banking_system.Auth.Crypto.{Crypto}
use online_banking_system.Auth.{
  TokenSettings, Draw, get_by_hash, is_valid, issued_token, issue_token_pair, revoke, revoked_token,
  revoke_all_for_user, reuse_detected, refresh_stored, refresh,
}
use online_banking_system.Auth.Accepted.{
  issue_token_pair-accepted, revoke-accepted, revoke_all-accepted,
}
use online_banking_system.Auth.Revoked.{revoke_live-lookup, find_by-update}
use online_banking_system.Auth.Rotation.{IsRefreshable, rotated, refresh_commits}

-- No session of the user is left.
pub record IsSignedOut (user_id : ℕ) (db : Db) : Type 0 where
  pub revoked :
      (k : ℕ) (t : RefreshToken)
      → lookup k db.refresh_tokens ≡ some t
      → t.user_id ≡ user_id
      → is_none t.revoked_at ≡ false

module _ (crypto : Crypto) (settings : TokenSettings) where
  -- A stored token that is not valid ends every session of its user.
  pub refresh_invalid :
      (others : Db → Db) (draw : Draw) (raw id : ℕ) (t : RefreshToken) (db : Db)
      → get_by_hash (crypto.hash_refresh_token raw) db ≡ some (id, t)
      → is_valid draw.now t ≡ false
      → meets_constraints db ≡ true
      → ((refresh crypto settings others draw raw (open_session db)).0 ≡ err invalid_refresh_token)
        × ((refresh crypto settings others draw raw (open_session db)).1.committed
            ≡ revoke_all_for_user t.user_id draw.now db)
  unfolding refresh refresh_stored reuse_detected ◌>>=◌
  refresh_invalid others draw raw id t db found invalid met =
      rw found (rw invalid (rw (revoke_all-accepted t.user_id draw.now db ∙ met) (refl, refl)))

  revoke_all-IsSignedOut : (id now : ℕ) (db : Db) → IsSignedOut id (revoke_all_for_user id now db)
  unfolding revoke_all_for_user
  revoke_all-IsSignedOut id now db = record {
    revoked = λ k t found of_user. revoke_live-lookup id now k db.refresh_tokens t found of_user;
  }

  -- After its rotation a token is found by its hash as before, and revoked.
  rotated-found :
      (draw : Draw) (raw id : ℕ) (t : RefreshToken) (db : Db)
      → get_by_hash (crypto.hash_refresh_token raw) db ≡ some (id, t)
      → lookup id db.refresh_tokens ≡ some t
      → draw.token_id ≢ id
      → crypto.hash_refresh_token draw.raw_refresh ≢ crypto.hash_refresh_token raw
      → get_by_hash (crypto.hash_refresh_token raw) (rotated crypto settings draw raw id t db)
        ≡ some (id, revoked_token draw.now (some draw.token_id) t)
  unfolding get_by_hash revoke issue_token_pair
  rotated-found draw raw id t db found there fresh differs =
      find_by-update (crypto.hash_refresh_token raw) id
        (revoked_token draw.now (some draw.token_id))
        (insert draw.token_id (issued_token crypto settings draw t.user_id) db.refresh_tokens) t
        (ground (arith, found, differs)) (ground (arith, there, fresh)) (λ u. refl)

-- Theft is detected: once a token has been refreshed, in rows that meet the constraints and with a
-- fresh new token, a second refresh with it, with no other request in between, raises
-- InvalidRefreshTokenError, and leaves its user without a session: every token of the user is
-- revoked, the new one included.
pub reuse_signs_out :
    (crypto : Crypto) (settings : TokenSettings) (draw again : Draw) (raw id : ℕ) (t : RefreshToken)
    (db : Db)
    → IsRefreshable crypto raw draw.now id t db
    → lookup id db.refresh_tokens ≡ some t
    → draw.token_id ≢ id
    → crypto.hash_refresh_token draw.raw_refresh ≢ crypto.hash_refresh_token raw
    → meets_constraints db ≡ true
    → let after = (refresh crypto settings (λ d. d) draw raw (open_session db)).1.committed in
      let out = refresh crypto settings (λ d. d) again raw (open_session after) in
      (out.0 ≡ err invalid_refresh_token) × IsSignedOut t.user_id out.1.committed
reuse_signs_out crypto settings draw again raw id t db r there fresh differs met =
    let after = rotated crypto settings draw raw id t db in
    let first = refresh_commits crypto settings draw raw id t (λ d. d) db r met in
    let still =
      revoke-accepted id draw.now (some draw.token_id)
        (issue_token_pair crypto settings draw t.user_id db)
      ∙ issue_token_pair-accepted crypto settings draw t.user_id db
      ∙ met in
    let second =
      refresh_invalid crypto settings (λ d. d) again raw id
        (revoked_token draw.now (some draw.token_id) t) after
        (rotated-found crypto settings draw raw id t db r.stored there fresh differs) refl still in
    rw first.1
      (second.0, rw second.1 (revoke_all-IsSignedOut crypto settings t.user_id again.now after))
