-- ===== src/Auth/Tokens.antt =====
-- RefreshTokenRepository and AuthService._issue_token_pair.
use online_banking_system.Prelude.{
  ℕ, ◌+◌, ◌*◌, Bool, ◌&&◌, Option, none, some, [], ◌∷◌, ◌==◌, ltb, is_none, if◌then◌else◌,
}
use online_banking_system.Table.{Table, insert, update, find_by}
use online_banking_system.Db.{RefreshToken, Db}
use online_banking_system.Auth.Crypto.{Crypto}

-- RefreshTokenRepository.get_by_hash
unfoldable pub get_by_hash : ℕ → Db → Option (ℕ × RefreshToken)
get_by_hash hash db = find_by (λ t. t.token_hash == hash) db.refresh_tokens

abbrev pub new_token : ℕ → ℕ → ℕ → RefreshToken
new_token user_id token_hash expires_at = record {
  user_id = user_id;
  token_hash = token_hash;
  expires_at = expires_at;
  revoked_at = none;
  replaced_by_token_id = none;
}

-- RefreshTokenRepository.create
unfoldable pub create_token : ℕ → RefreshToken → Db → Db
create_token id t db = record db { refresh_tokens = insert id t db.refresh_tokens }

-- RefreshTokenRepository.revoke
abbrev pub revoked_token : ℕ → Option ℕ → RefreshToken → RefreshToken
revoked_token now none t = record t { revoked_at = some now }
revoked_token now (some id) t = record t { revoked_at = some now; replaced_by_token_id = some id }

unfoldable pub revoke : ℕ → ℕ → Option ℕ → Db → Db
revoke id now replaced_by db = record db {
  refresh_tokens = update id (revoked_token now replaced_by) db.refresh_tokens;
}

-- The loop of revoke_all_for_user over the user's tokens that are not revoked.
abbrev pub is_live_of : ℕ → RefreshToken → Bool
is_live_of user_id t = t.user_id == user_id && is_none t.revoked_at

unfoldable pub revoke_live : ℕ → ℕ → Table RefreshToken → Table RefreshToken
revoke_live user_id now [] = []
revoke_live user_id now ((id, t) ∷ ts) =
    (id, if is_live_of user_id t then revoked_token now none t else t) ∷ revoke_live user_id now ts

-- RefreshTokenRepository.revoke_all_for_user
unfoldable pub revoke_all_for_user : ℕ → ℕ → Db → Db
unfolding revoke_live
revoke_all_for_user user_id now db = record db {
  refresh_tokens = revoke_live user_id now db.refresh_tokens;
}

-- RefreshTokenRepository.is_valid
abbrev pub is_valid : ℕ → RefreshToken → Bool
is_valid now t = is_none t.revoked_at && ltb now t.expires_at

-- `settings.refresh_token_expire_days` and `settings.access_token_expire_minutes`
pub record TokenSettings : Type 0 where
  pub refresh_token_expire_days : ℕ
  pub access_token_expire_minutes : ℕ

-- What a request draws from outside to issue tokens: the raw refresh token, its row's id, the time.
pub record Draw : Type 0 where
  pub raw_refresh : ℕ
  pub token_id : ℕ
  pub now : ℕ

-- TokenResponse, without the access token, which nothing stores.
pub record TokenResponse : Type 0 where
  pub user_id : ℕ
  pub refresh_token : ℕ
  pub expires_in : ℕ

abbrev pub refresh_token_expiry : TokenSettings → ℕ → ℕ
refresh_token_expiry settings now = now + settings.refresh_token_expire_days * 86400

unfoldable pub issued_token : Crypto → TokenSettings → Draw → ℕ → RefreshToken
issued_token crypto settings draw user_id =
    new_token user_id (crypto.hash_refresh_token draw.raw_refresh)
      (refresh_token_expiry settings draw.now)

abbrev pub token_response : TokenSettings → Draw → ℕ → TokenResponse
token_response settings draw user_id = record {
  user_id = user_id;
  refresh_token = draw.raw_refresh;
  expires_in = settings.access_token_expire_minutes * 60;
}

-- The write of _issue_token_pair.
unfoldable pub issue_token_pair : Crypto → TokenSettings → Draw → ℕ → Db → Db
unfolding issued_token create_token
issue_token_pair crypto settings draw user_id db =
    create_token draw.token_id (issued_token crypto settings draw user_id) db
