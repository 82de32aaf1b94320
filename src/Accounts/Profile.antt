-- ===== src/Accounts/Profile.antt =====
-- CustomerService.update_profile.
use online_banking_system.Prelude.{ℕ, Option, none, some, [], ◌∷◌}
use online_banking_system.Table.{update}
use online_banking_system.Db.{CustomerRow, Customer, Db}
use online_banking_system.Session.Actions.{Action, ◌>>◌, modify, commit, send}
use online_banking_system.Session.Messages.{audit, AuditAction}

-- `payload.x if payload.x is not None else x`
abbrev pub given {ℓ} : {A : Type ℓ} → Option A → A → A
given none old = old
given (some new) old = new

abbrev pub given_some {ℓ} : {A : Type ℓ} → Option A → Option A → Option A
given_some none old = old
given_some (some new) old = some new

-- UpdateCustomerProfileRequest
pub record ProfileRequest : Type 0 where
  pub phone_number : Option ℕ
  pub address : Option ℕ

unfoldable pub update_customer : ℕ → (CustomerRow → CustomerRow) → Db → Db
update_customer id f db = record db { customers = update id f db.customers }

abbrev pub with_profile : ProfileRequest → CustomerRow → CustomerRow
with_profile payload c = record c {
  phone_number = given payload.phone_number c.phone_number;
  address = given_some payload.address c.address;
}

unfoldable pub update_profile : Customer → ProfileRequest → Action (Unit {0})
unfolding update_customer
update_profile customer payload = do
  modify (update_customer customer.id (with_profile payload))
  commit
  send (audit customer.user_id AuditAction.profile_updated customer.id ∷ [])
