-- ===== src/Accounts/Owned.antt =====
-- get_owned_account, get_owned_card and get_owned_beneficiary.
use online_banking_system.Prelude.{ℕ, Option, none, some, ◌==◌}
use online_banking_system.Table.{lookup}
use online_banking_system.Db.{
  not_found, Account, Card, Beneficiary, BeneficiaryStatus, Customer, Db,
}
use online_banking_system.Session.Check.{Result, ok, ◌>>=◌, ◌>>◌, require, or_raise}
use online_banking_system.Cards.{get_card}

unfoldable pub get_owned_account : Customer → ℕ → Db → Result Account
get_owned_account customer account_id db = do
  account ← or_raise (lookup account_id db.accounts) not_found
  require (account.customer_id == customer.id) not_found
  ok account

unfoldable pub get_owned_card : Customer → ℕ → Db → Result Card
unfolding get_card
get_owned_card customer card_id db = do
  card ← or_raise (get_card card_id db.cards) not_found
  account ← or_raise (lookup card.account_id db.accounts) not_found
  require (account.customer_id == customer.id) not_found
  ok card

-- `status == BeneficiaryStatus.ACTIVE`
abbrev pub active_beneficiary : Option Beneficiary → Option Beneficiary
active_beneficiary none = none
active_beneficiary (some b) = elim b.status [
  | BeneficiaryStatus.active ↦ some b
  | BeneficiaryStatus.deleted ↦ none
]

-- BeneficiaryRepository.get_by_id
unfoldable pub get_beneficiary : ℕ → Db → Option Beneficiary
get_beneficiary id db = active_beneficiary (lookup id db.beneficiaries)

unfoldable pub get_owned_beneficiary : Customer → ℕ → Db → Result Beneficiary
unfolding get_beneficiary
get_owned_beneficiary customer beneficiary_id db = do
  beneficiary ← or_raise (get_beneficiary beneficiary_id db) not_found
  require (beneficiary.customer_id == customer.id) not_found
  ok beneficiary
