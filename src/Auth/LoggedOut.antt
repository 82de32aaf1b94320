-- ===== src/Auth/LoggedOut.antt =====
-- The end of a session by its own logout.
use online_banking_system.Prelude.{ℕ, ◌<◌, ◌≡◌, ◌∙◌, refl, true, Bool, none, some}
use online_banking_system.Db.{unauthorized, invalid_refresh_token, Db}
use online_banking_system.Db.Constraints.{meets_constraints}
use online_banking_system.Session.{raise, ◌>>=◌, open_session}
use online_banking_system.Session.Check.{ok, err}
use online_banking_system.Auth.Crypto.{Crypto}
use online_banking_system.Auth.{
  TokenSettings, Draw, get_by_hash, revoke, revoked_token, logout, logout_stored, no_content,
  delete_cookie, refresh_session, log_out, serve_session, refresh_endpoint, logout_endpoint,
}
use online_banking_system.Auth.Accepted.{revoke-accepted}
use online_banking_system.Auth.Revoked.{find_by-update}
use online_banking_system.Auth.Reuse.{refresh_invalid}
use online_banking_system.Auth.Browser.{Browser, browse, IsSignedIn, cookie_sent, token_valid}

browse-signed_out :
    (crypto : Crypto) (is_production : Bool) (settings : TokenSettings) (d : Draw) (db : Db)
    → let b : Browser = record { db = db; jar = none } in
      browse crypto is_production settings d.now (refresh_session d) b ≡ (err unauthorized, b)
unfolding browse serve_session refresh_endpoint raise
browse-signed_out crypto is_production settings d db = refl

module _ (crypto : Crypto) (is_production : Bool) (settings : TokenSettings)
    (user_id id expires_at now : ℕ) (b : Browser) (w : IsSignedIn crypto user_id id expires_at b)
    (in_time : now < expires_at) where
  abbrev left : Db
  left = revoke id now none b.db

  left-accepted : meets_constraints left ≡ true
  left-accepted = revoke-accepted id now none b.db ∙ w.accepted

  browse-logout :
      browse crypto is_production settings now log_out b
      ≡ (ok (no_content, delete_cookie), record { db = left; jar = none })
  unfolding browse serve_session logout_endpoint logout logout_stored ◌>>=◌
  browse-logout = rw (cookie_sent crypto user_id id expires_at now b w in_time) (
      rw w.stored
        (rw (token_valid crypto user_id id expires_at now b w in_time) (rw left-accepted refl)))

  left-found :
      get_by_hash (crypto.hash_refresh_token w.cookie.value) left
      ≡ some (id, revoked_token now none w.token)
  unfolding get_by_hash revoke
  left-found =
      find_by-update (crypto.hash_refresh_token w.cookie.value) id (revoked_token now none)
        b.db.refresh_tokens w.token w.stored w.there (λ u. refl)

-- Logging out ends the session, with no other request in between: a logout before the cookie expires
-- succeeds and empties the browser's jar, whose refreshes raise UnauthorizedError from then on and
-- change nothing; and whoever has kept a copy of the cookie gets InvalidRefreshTokenError for it, at
-- any time.
pub logout_ends :
    (crypto : Crypto) (is_production : Bool) (settings : TokenSettings)
    (user_id id expires_at now : ℕ) (b : Browser) (w : IsSignedIn crypto user_id id expires_at b)
    → now < expires_at
    → let out = browse crypto is_production settings now log_out b in
      (out.0 ≡ ok (no_content, delete_cookie))
      × (out.1.jar ≡ none)
      × ((d : Draw)
          → browse crypto is_production settings d.now (refresh_session d) out.1
            ≡ (err unauthorized, out.1))
      × ((others : Db → Db) (d : Draw)
          → (refresh_endpoint crypto is_production settings others d
              (some w.cookie.value)
              (open_session out.1.db)).0
            ≡ err invalid_refresh_token)
unfolding refresh_endpoint ◌>>=◌
logout_ends crypto is_production settings user_id id expires_at now b w in_time =
    rw (browse-logout crypto is_production settings user_id id expires_at now b w in_time) (
      refl,
      refl,
      λ d. browse-signed_out crypto is_production settings d _,
      λ others d.
          rw
            (refresh_invalid crypto settings others d w.cookie.value id
              (revoked_token now none w.token)
              (left crypto is_production settings user_id id expires_at now b w in_time)
              (left-found crypto is_production settings user_id id expires_at now b w in_time) refl
              (left-accepted crypto is_production settings user_id id expires_at now b w in_time)).0
            refl,
    )
