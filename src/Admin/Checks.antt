-- ===== src/Admin/Checks.antt =====
-- What the methods of AdminService load and check before they write.
use online_banking_system.Prelude.{ℕ, Bool, true, false, Option, none, some, is_some, is_none}
use online_banking_system.Table.{lookup}
use online_banking_system.Db.{
  not_found, conflict, Account, Card, CustomerRow, Beneficiary, BeneficiaryStatus, Db,
}
use online_banking_system.Session.Check.{Result, ok, ◌>>=◌, ◌>>◌, refuse, require, or_raise}
use online_banking_system.Cards.{get_card}
use online_banking_system.Auth.{RegisterRequest, email_exists, national_id_exists}

abbrev pub not_deleted_customer : Option CustomerRow → Option CustomerRow
not_deleted_customer none = none
not_deleted_customer (some c) = elim c.deleted_at [ none ↦ some c | some _ ↦ none ]

-- AdminService.get_customer, with CustomerRepository.get_by_id
unfoldable pub admin_get_customer : ℕ → Db → Result CustomerRow
admin_get_customer id db = or_raise (not_deleted_customer (lookup id db.customers)) not_found

-- The pre-checks of create_customer.
unfoldable pub onboarding_checks : RegisterRequest → Db → Result (Unit {0})
unfolding national_id_exists
onboarding_checks p db = do
  refuse (email_exists p.email db) conflict
  refuse (national_id_exists p.national_id db) conflict

unfoldable pub deletable_customer : ℕ → Db → Result CustomerRow
deletable_customer id db = do
  customer ← or_raise (lookup id db.customers) not_found
  refuse (is_some customer.deleted_at) conflict
  ok customer

unfoldable pub restorable_customer : ℕ → Db → Result CustomerRow
restorable_customer id db = do
  customer ← or_raise (lookup id db.customers) not_found
  refuse (is_none customer.deleted_at) conflict
  ok customer

unfoldable pub get_account : ℕ → Db → Result Account
get_account id db = or_raise (lookup id db.accounts) not_found

unfoldable pub present_card : ℕ → Db → Result Card
unfolding get_card
present_card id db = or_raise (get_card id db.cards) not_found

-- `beneficiary.status == BeneficiaryStatus.DELETED`
abbrev pub is_removed : BeneficiaryStatus → Bool
is_removed BeneficiaryStatus.deleted = true
is_removed BeneficiaryStatus.active = false

unfoldable pub removable_beneficiary : ℕ → Db → Result Beneficiary
removable_beneficiary id db = do
  beneficiary ← or_raise (lookup id db.beneficiaries) not_found
  refuse (is_removed beneficiary.status) conflict
  ok beneficiary

unfoldable pub restorable_beneficiary : ℕ → Db → Result Beneficiary
restorable_beneficiary id db = do
  beneficiary ← or_raise (lookup id db.beneficiaries) not_found
  require (is_removed beneficiary.status) conflict
  ok beneficiary
