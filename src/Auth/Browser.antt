-- ===== src/Auth/Browser.antt =====
-- A browser and the endpoints of a session, one request after the other.
use online_banking_system.Prelude.{
  ℕ, ◌<◌, ◌≡◌, ◌≢◌, ◌∙◌, refl, true, false, Bool, Option, some, List, [], ◌∷◌, arith, is_none, ◌+◌,
  ◌*◌,
}
use online_banking_system.Table.{lookup, insert, update, lookup-update}
use online_banking_system.Db.{RefreshToken, User, Db}
use online_banking_system.Db.Constraints.{meets_constraints}
use online_banking_system.Session.{◌>>=◌, open_session}
use online_banking_system.Session.Check.{Result, ok, err}
use online_banking_system.Auth.Crypto.{Crypto}
use online_banking_system.Auth.{
  TokenSettings, Draw, token_response, shut_out, get_user, get_by_hash, is_valid, issued_token,
  issue_token_pair, revoke, revoked_token, refresh_token_expiry, Cookie, store_cookie,
  read_refresh_token_cookie, Response, with_tokens, SessionEndpoint, refresh_session, serve_session,
  refresh_endpoint,
}
use online_banking_system.Auth.Accepted.{issue_token_pair-accepted, revoke-accepted}
use online_banking_system.Auth.Rotation.{IsRefreshable, rotated, refresh_commits}

-- The rows that are committed, and the browser's cookie.
pub record Browser : Type 0 where
  pub db : Db
  pub jar : Option Cookie

-- What a browser keeps after an answer.
abbrev pub jar_after : ℕ → Result Response → Option Cookie → Option Cookie
jar_after now (err e) jar = jar
jar_after now (ok (body, change)) jar = store_cookie now change jar

module _ (crypto : Crypto) (is_production : Bool) (settings : TokenSettings) where
  -- A request of the browser, with no other request in between.
  unfoldable pub browse : ℕ → SessionEndpoint → Browser → Result Response × Browser
  browse now endpoint b =
      let out =
        serve_session crypto is_production settings (λ d. d) now
          (read_refresh_token_cookie now b.jar) endpoint (open_session b.db) in
      (out.0, record { db = out.1.committed; jar = jar_after now out.0 b.jar })

  -- One refresh for each draw.
  unfoldable pub refresh_all : List Draw → Browser → List (Result Response) × Browser
  refresh_all [] b = ([], b)
  refresh_all (d ∷ ds) b =
      let first = browse d.now (refresh_session d) b in
      let rest = refresh_all ds first.1 in (first.0 ∷ rest.0, rest.1)

  -- The answers of refreshes that succeed.
  unfoldable pub renewals : ℕ → List Draw → List (Result Response)
  renewals user_id [] = []
  renewals user_id (d ∷ ds) =
      ok (with_tokens crypto is_production settings (token_response settings d user_id))
      ∷ renewals user_id ds

-- Each refresh comes before the token of the one before it expires, with another id for its token.
abbrev pub OnTime : TokenSettings → ℕ → ℕ → List Draw → Type 0
OnTime settings id expires_at [] = Unit
OnTime settings id expires_at (d ∷ ds) =
    (d.now < expires_at)
    × (d.token_id ≢ id)
    × OnTime settings d.token_id (refresh_token_expiry settings d.now) ds

-- The browser's cookie is that of a live token of the user, who is not shut out, and both expire at
-- the same time.
pub record IsSignedIn (crypto : Crypto) (user_id id expires_at : ℕ) (b : Browser) : Type 0 where
  pub cookie : Cookie
  pub token : RefreshToken
  pub user : User
  pub kept : b.jar ≡ some cookie
  pub lasts : cookie.expires_at ≡ expires_at
  pub stored : get_by_hash (crypto.hash_refresh_token cookie.value) b.db ≡ some (id, token)
  pub there : lookup id b.db.refresh_tokens ≡ some token
  pub live : is_none token.revoked_at ≡ true
  pub lives : token.expires_at ≡ expires_at
  pub owner : token.user_id ≡ user_id
  pub known : get_user user_id b.db ≡ some user
  pub admitted : shut_out user ≡ false
  pub accepted : meets_constraints b.db ≡ true

module _ (crypto : Crypto) (user_id id expires_at now : ℕ) (b : Browser)
    (w : IsSignedIn crypto user_id id expires_at b) (in_time : now < expires_at) where
  pub cookie_sent : read_refresh_token_cookie now b.jar ≡ some w.cookie.value
  cookie_sent = rw w.kept (ground (arith, w.lasts, in_time))

  pub token_valid : is_valid now w.token ≡ true
  token_valid = ground (arith, w.live, w.lives, in_time)

module _ (crypto : Crypto) (is_production : Bool) (settings : TokenSettings)
    (user_id id expires_at : ℕ) (d : Draw) (b : Browser)
    (w : IsSignedIn crypto user_id id expires_at b) (in_time : d.now < expires_at) where
  may_refresh_now : IsRefreshable crypto w.cookie.value d.now id w.token b.db
  may_refresh_now = record {
    user = w.user;
    stored = w.stored;
    valid = token_valid crypto user_id id expires_at d.now b w in_time;
    known = rw w.owner w.known;
    admitted = w.admitted;
  }

  abbrev renewed_browser : Browser
  renewed_browser = record {
    db = rotated crypto settings d w.cookie.value id w.token b.db;
    jar = some (record {
      value = d.raw_refresh;
      expires_at = d.now + settings.refresh_token_expire_days * 24 * 60 * 60;
    });
  }

  browse-renewed : browse crypto is_production settings d.now (refresh_session d) b ≡ (
    ok (with_tokens crypto is_production settings (token_response settings d user_id)),
    renewed_browser,
  )
  unfolding browse serve_session refresh_endpoint ◌>>=◌
  browse-renewed =
      let out =
        refresh_commits crypto settings d w.cookie.value id w.token (λ x. x) b.db may_refresh_now
          w.accepted in
      rw (cookie_sent crypto user_id id expires_at d.now b w in_time)
        (rw out.0 (rw out.1 (rw w.owner refl)))

  renewed-IsSignedIn :
      d.token_id ≢ id
      → IsSignedIn crypto user_id d.token_id (refresh_token_expiry settings d.now) renewed_browser
  unfolding get_by_hash get_user revoke issue_token_pair issued_token update
  renewed-IsSignedIn fresh = record {
    cookie = _;
    token = issued_token crypto settings d w.token.user_id;
    user = w.user;
    kept = refl;
    lasts = omega arith;
    stored = ground (arith, fresh);
    there =
        lookup-update d.token_id id (revoked_token d.now (some d.token_id))
          (insert d.token_id (issued_token crypto settings d w.token.user_id) b.db.refresh_tokens)
        ∙ ground (arith, fresh);
    live = refl;
    lives = refl;
    owner = w.owner;
    known = w.known;
    admitted = w.admitted;
    accepted =
        revoke-accepted id d.now (some d.token_id)
          (issue_token_pair crypto settings d w.token.user_id b.db)
        ∙ issue_token_pair-accepted crypto settings d w.token.user_id b.db
        ∙ w.accepted;
  }

-- A browser stays signed in: however often it refreshes its session, with no other request in
-- between, each time before the cookie expires and with another id for the new token than the last
-- one's, every refresh answers with new tokens of its user and a new cookie, and after the last one
-- the browser is signed in as before the first.
pub stays_signed_in :
    (crypto : Crypto) (is_production : Bool) (settings : TokenSettings) (user_id : ℕ)
    (ds : List Draw) (id expires_at : ℕ) (b : Browser)
    → IsSignedIn crypto user_id id expires_at b
    → OnTime settings id expires_at ds
    → let out = refresh_all crypto is_production settings ds b in
      (out.0 ≡ renewals crypto is_production settings user_id ds)
      × (last : ℕ) × (until : ℕ) × IsSignedIn crypto user_id last until out.1
unfolding refresh_all renewals
stays_signed_in crypto is_production settings user_id [] id expires_at b w on_time =
    (refl, id, expires_at, w)
stays_signed_in crypto is_production settings user_id (d ∷ ds) id expires_at b w
      (in_time, fresh, later) =
    let first = browse-renewed crypto is_production settings user_id id expires_at d b w in_time in
    let next =
      renewed-IsSignedIn crypto is_production settings user_id id expires_at d b w in_time fresh in
    let (answers, last, until, final) =
      stays_signed_in crypto is_production settings user_id ds d.token_id
        (refresh_token_expiry settings d.now)
        (renewed_browser crypto is_production settings user_id id expires_at d b w in_time) next
        later in
    rw first (rw answers refl, last, until, final)
