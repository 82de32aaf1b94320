-- ===== src/Auth/Users.antt =====
-- UserRepository, and the rows that a registration creates.
use online_banking_system.Prelude.{
  ℕ, Bool, true, false, ◌&&◌, Option, none, some, ◌==◌, is_none, is_some,
}
use online_banking_system.Table.{lookup, insert, update, find_by}
use online_banking_system.Db.{User, UserRole, CustomerRow, CustomerStatus, Db}

abbrev pub not_deleted_user : Option User → Option User
not_deleted_user none = none
not_deleted_user (some u) = elim u.deleted_at [ none ↦ some u | some _ ↦ none ]

-- UserRepository.get_by_id
unfoldable pub get_user : ℕ → Db → Option User
get_user id db = not_deleted_user (lookup id db.users)

-- UserRepository.get_by_email
unfoldable pub get_by_email : ℕ → Db → Option (ℕ × User)
get_by_email email db = find_by (λ u. u.email == email && is_none u.deleted_at) db.users

abbrev pub email_exists : ℕ → Db → Bool
email_exists email db = is_some (get_by_email email db)

-- CustomerRepository.national_id_exists, of the rows that are deleted too
abbrev pub has_national_id : ℕ → CustomerRow → Bool
has_national_id national_id c = elim c.national_id [ none ↦ false | some n ↦ n == national_id ]

unfoldable pub national_id_exists : Option ℕ → Db → Bool
national_id_exists none db = false
national_id_exists (some n) db = is_some (find_by (has_national_id n) db.customers)

-- `UserRepository.create` with its defaults
abbrev pub new_user : ℕ → ℕ → Bool → User
new_user email password_hash verified = record {
  email = email;
  password_hash = password_hash;
  role = UserRole.customer;
  enabled = true;
  is_blocked = false;
  email_verified = verified;
  last_login_at = none;
  totp_secret = none;
  totp_enabled = false;
  deleted_at = none;
}

unfoldable pub create_user : ℕ → User → Db → Db
create_user id u db = record db { users = insert id u db.users }

-- RegisterCustomerRequest, without the names and the date of birth.
pub record RegisterRequest : Type 0 where
  pub email : ℕ
  pub password_hash : ℕ
  pub phone_number : ℕ
  pub address : Option ℕ
  pub national_id : Option ℕ

-- CustomerRepository.create
unfoldable pub create_customer_row : ℕ → ℕ → RegisterRequest → Db → Db
create_customer_row id user_id p db = record db {
  customers =
      insert id
        (record {
          user_id = user_id;
          phone_number = p.phone_number;
          address = p.address;
          national_id = p.national_id;
          status = CustomerStatus.active;
          deleted_at = none;
        })
        db.customers;
}

unfoldable pub update_user : ℕ → (User → User) → Db → Db
update_user id f db = record db { users = update id f db.users }

-- UserRepository.mark_login
unfoldable pub mark_login : ℕ → ℕ → Db → Db
unfolding update_user
mark_login id now db = update_user id (λ u. record u { last_login_at = some now }) db
