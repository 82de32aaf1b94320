-- ===== src/Auth/Access.antt =====
-- The dependencies get_current_user, require_role and get_current_customer, by which a request of
-- a signed-in user starts (backend/app/modules/{auth,customers}/dependencies.py).
use online_banking_system.Prelude.{
  ℕ, Bool, true, false, ◌&&◌, Option, none, some, ◌==◌, is_none, if◌then◌else◌,
}
use online_banking_system.Table.{find_by}
use online_banking_system.Db.{
  unauthorized, forbidden, account_blocked, not_found, User, UserRole, CustomerRow, Customer, Db,
}
use online_banking_system.Session.Check.{Result, ok, err, ◌>>=◌, ◌>>◌, require, refuse, or_raise}
use online_banking_system.Auth.Crypto.{Crypto, Claims, TokenKind}
use online_banking_system.Auth.Users.{get_user}
use online_banking_system.Auth.Login.{shut_out}
use online_banking_system.Auth.TwoFactor.{is_kind}

-- decode_access_token
unfoldable pub access_claims : Option Claims → Result Claims
access_claims none = err unauthorized
access_claims (some c) = if is_kind c.kind TokenKind.access then ok c else err unauthorized

abbrev pub same_role : UserRole → UserRole → Bool
same_role UserRole.admin UserRole.admin = true
same_role UserRole.customer UserRole.customer = true
same_role _ _ = false

-- CustomerRepository.get_by_user_id
unfoldable pub get_by_user_id : ℕ → Db → Option (ℕ × CustomerRow)
get_by_user_id user_id db = find_by (λ c. c.user_id == user_id && is_none c.deleted_at) db.customers

module _ (crypto : Crypto) where
  -- `credentials` is the bearer token of the request, if it has one.
  unfoldable pub get_current_user : ℕ → Option ℕ → Db → Result (ℕ × User)
  unfolding access_claims get_user
  get_current_user now credentials db = do
    token ← or_raise credentials unauthorized
    claims ← access_claims (crypto.decode token now)
    u ← or_raise (get_user claims.sub db) unauthorized
    refuse (shut_out u) account_blocked
    ok (claims.sub, u)

  unfoldable pub require_role : UserRole → ℕ → Option ℕ → Db → Result (ℕ × User)
  unfolding get_current_user
  require_role allowed now credentials db = do
    user ← get_current_user now credentials db
    require (same_role user.1.role allowed) forbidden
    ok user

  unfoldable pub get_current_customer : ℕ → Option ℕ → Db → Result Customer
  unfolding require_role get_by_user_id
  get_current_customer now credentials db = do
    user ← require_role UserRole.customer now credentials db
    customer ← or_raise (get_by_user_id user.0 db) not_found
    ok (record { id = customer.0; user_id = customer.1.user_id })
