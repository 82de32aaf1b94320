-- ===== src/Auth/Rotation.antt =====
-- A refresh token is replaced by a new one.
use online_banking_system.Prelude.{ℕ, ◌≡◌, ◌≢◌, refl, true, false, some, arith, ◌∙◌}
use online_banking_system.Table.{lookup, insert, lookup-update}
use online_banking_system.Db.{RefreshToken, User, Db}
use online_banking_system.Db.Constraints.{meets_constraints}
use online_banking_system.Session.{◌>>=◌, open_session}
use online_banking_system.Session.Check.{ok}
use online_banking_system.Auth.Crypto.{Crypto}
use online_banking_system.Auth.{
  TokenSettings, Draw, token_response, shut_out, get_user, get_by_hash, is_valid, issued_token,
  issue_token_pair, revoke, revoked_token, rotate, refresh_stored, refresh,
}
use online_banking_system.Auth.Accepted.{issue_token_pair-accepted, revoke-accepted}

-- The stored token of a raw one that may be refreshed: valid, of a user who is not shut out.
pub record IsRefreshable (crypto : Crypto) (raw now id : ℕ) (t : RefreshToken) (db : Db)
    : Type 0 where
  pub user : User
  pub stored : get_by_hash (crypto.hash_refresh_token raw) db ≡ some (id, t)
  pub valid : is_valid now t ≡ true
  pub known : get_user t.user_id db ≡ some user
  pub admitted : shut_out user ≡ false

-- From `before` to `after` a new token of the same user is issued, and the old one is revoked in
-- its favour. No other token changes.
pub record HasRotated (crypto : Crypto) (settings : TokenSettings) (draw : Draw) (id : ℕ)
    (t old : RefreshToken) (before after : Db) : Type 0 where
  pub issued :
      lookup draw.token_id after.refresh_tokens ≡ some (issued_token crypto settings draw t.user_id)
  pub replaced :
      lookup id after.refresh_tokens ≡ some (revoked_token draw.now (some draw.token_id) old)
  pub others :
      (k : ℕ)
      → k ≢ id
      → k ≢ draw.token_id
      → lookup k after.refresh_tokens ≡ lookup k before.refresh_tokens

module _ (crypto : Crypto) (settings : TokenSettings) (draw : Draw) (raw id : ℕ)
    (t : RefreshToken) where
  abbrev pub rotated : Db → Db
  rotated db =
      revoke id draw.now (some draw.token_id) (issue_token_pair crypto settings draw t.user_id db)

  pub rotated-HasRotated :
      (db : Db) (old : RefreshToken)
      → lookup id db.refresh_tokens ≡ some old
      → draw.token_id ≢ id
      → HasRotated crypto settings draw id t old db (rotated db)
  unfolding revoke issue_token_pair
  rotated-HasRotated db old there fresh =
      let new = issued_token crypto settings draw t.user_id in
      let ts = insert draw.token_id new db.refresh_tokens in
      let f = revoked_token draw.now (some draw.token_id) in
      record {
        issued = lookup-update draw.token_id id f ts ∙ ground (arith, fresh);
        replaced = lookup-update id id f ts ∙ ground (arith, fresh, there);
        others = λ k p q. lookup-update k id f ts ∙ ground (arith, p, q);
      }

  pub refresh_commits :
      (others : Db → Db) (db : Db)
      → IsRefreshable crypto raw draw.now id t db
      → meets_constraints (others db) ≡ true
      → ((refresh crypto settings others draw raw (open_session db)).0
          ≡ ok (token_response settings draw t.user_id))
        × ((refresh crypto settings others draw raw (open_session db)).1.committed
            ≡ rotated (others db))
  unfolding refresh refresh_stored rotate ◌>>=◌
  refresh_commits others db r met =
      let accepted =
        revoke-accepted id draw.now (some draw.token_id)
          (issue_token_pair crypto settings draw t.user_id (others db))
        ∙ issue_token_pair-accepted crypto settings draw t.user_id (others db)
        ∙ met in
      rw r.stored (rw r.valid (rw r.known (rw r.admitted (rw accepted (refl, refl)))))

-- A refresh with a valid token of a user who is not shut out succeeds, in rows that meet the
-- constraints, with a new id for the new token, whatever other requests have made of the token's row
-- since it was read, as long as it exists: a new token
-- is issued and the old one revoked in its favour, no other token changes, and the reply holds the
-- new token. So a logout or another refresh of the same token in between is not noticed.
pub refresh_rotates :
    (crypto : Crypto) (settings : TokenSettings) (others : Db → Db) (draw : Draw) (raw id : ℕ)
    (t old : RefreshToken) (db : Db)
    → IsRefreshable crypto raw draw.now id t db
    → lookup id (others db).refresh_tokens ≡ some old
    → draw.token_id ≢ id
    → meets_constraints (others db) ≡ true
    → let out = refresh crypto settings others draw raw (open_session db) in
      (out.0 ≡ ok (token_response settings draw t.user_id))
      × HasRotated crypto settings draw id t old (others db) out.1.committed
refresh_rotates crypto settings others draw raw id t old db r there fresh met =
    let out = refresh_commits crypto settings draw raw id t others db r met in
    (out.0, rw out.1 (rotated-HasRotated crypto settings draw raw id t (others db) old there fresh))
