-- ===== src/Bank/Office.antt =====
-- The back office keeps the ledger and the balances reconciled.
use online_banking_system.Prelude.{ℕ, Option, List}
use online_banking_system.Db.{CustomerStatus, AccountStatus, Db, integrity_error}
use online_banking_system.Session.Check.{refuse, refuse-ok}
use online_banking_system.Session.Keeps.{Keeps, Keeps-bind, Keeps-check, check_write-Holds}
use online_banking_system.Ledger.Reconciliation.{IsReconciled}
use online_banking_system.Auth.Crypto.{Crypto}
use online_banking_system.Auth.{RegisterRequest}
use online_banking_system.Admin.{
  update_customer_status, store_onboarded, create_customer, delete_customer, restore_customer,
  create_account, is_taken, new_account, create_account_row, update_account_status,
  create_exchange_rate, create_card, block_card, delete_card, delete_beneficiary,
  restore_beneficiary, CustomerEndpoint, remove_customer, bring_back_customer, set_customer_status,
  onboard_customer, serve_customer, CardEndpoint, issue_card, stop_card, remove_card, serve_card,
  BeneficiaryEndpoint, remove_beneficiary, bring_back_beneficiary, serve_beneficiary,
  AccountEndpoint, open_account, deposit_to_account, withdraw_from_account, set_account_status,
  serve_account, on_customers, on_accounts, on_cards, on_beneficiaries, add_rate, serve_endpoint,
  admin_request,
}
use online_banking_system.Bank.Writes.{reconciled_rules, block-IsReconciled}
use online_banking_system.Bank.Rows.{row_rules, create_account_row-IsReconciled}
use online_banking_system.Bank.Methods.{Quiet, deposit-Keeps, withdraw-Keeps}

update_customer_status-Keeps :
    (admin id : ℕ) (status : CustomerStatus)
    → Keeps IsReconciled (update_customer_status admin id status)
unfolding update_customer_status
update_customer_status-Keeps admin id status = search (reconciled_rules, row_rules) depth 9

store_onboarded-Keeps :
    (user_id id : ℕ) (p : RegisterRequest) → Keeps IsReconciled (store_onboarded user_id id p)
unfolding store_onboarded
store_onboarded-Keeps user_id id p = search (reconciled_rules, row_rules) depth 9

create_customer-Keeps :
    (others : Db → Db) (admin user_id id : ℕ) (p : RegisterRequest)
    → Quiet others
    → Keeps IsReconciled (create_customer others admin user_id id p)
unfolding create_customer
create_customer-Keeps others admin user_id id p q =
    search (reconciled_rules, store_onboarded-Keeps) depth 9

delete_customer-Keeps : (admin now id : ℕ) → Keeps IsReconciled (delete_customer admin now id)
unfolding delete_customer
delete_customer-Keeps admin now id = search (reconciled_rules, row_rules) depth 9

restore_customer-Keeps : (admin id : ℕ) → Keeps IsReconciled (restore_customer admin id)
unfolding restore_customer
restore_customer-Keeps admin id = search (reconciled_rules, row_rules) depth 9

update_account_status-Keeps :
    (admin now id : ℕ) (status : AccountStatus)
    → Keeps IsReconciled (update_account_status admin now id status)
unfolding update_account_status
update_account_status-Keeps admin now id status = search (reconciled_rules, row_rules) depth 9

create_exchange_rate-Keeps :
    (admin id now source target rate : ℕ)
    → Keeps IsReconciled (create_exchange_rate admin id now source target rate)
unfolding create_exchange_rate
create_exchange_rate-Keeps admin id now source target rate =
    search (reconciled_rules, row_rules) depth 9

create_card-Keeps :
    (admin id : ℕ) (digits : List ℕ) (account_id : ℕ)
    → Keeps IsReconciled (create_card admin id digits account_id)
unfolding create_card
create_card-Keeps admin id digits account_id = search (reconciled_rules, row_rules) depth 9

block_card-Keeps : (admin now id : ℕ) → Keeps IsReconciled (block_card admin now id)
unfolding block_card
block_card-Keeps admin now id = search (reconciled_rules, block-IsReconciled) depth 9

delete_card-Keeps : (admin now id : ℕ) → Keeps IsReconciled (delete_card admin now id)
unfolding delete_card
delete_card-Keeps admin now id = search (reconciled_rules, row_rules) depth 9

delete_beneficiary-Keeps : (admin now id : ℕ) → Keeps IsReconciled (delete_beneficiary admin now id)
unfolding delete_beneficiary
delete_beneficiary-Keeps admin now id = search (reconciled_rules, row_rules) depth 9

restore_beneficiary-Keeps : (admin id : ℕ) → Keeps IsReconciled (restore_beneficiary admin id)
unfolding restore_beneficiary
restore_beneficiary-Keeps admin id = search (reconciled_rules, row_rules) depth 9

serve_customer-Keeps :
    (others : Db → Db) (e : CustomerEndpoint) (admin : ℕ)
    → Quiet others
    → Keeps IsReconciled (serve_customer others e admin)
unfolding serve_customer
serve_customer-Keeps others (remove_customer now id) admin q = delete_customer-Keeps admin now id
serve_customer-Keeps others (bring_back_customer id) admin q =
    search (reconciled_rules, restore_customer-Keeps) depth 9
serve_customer-Keeps others (set_customer_status id status) admin q =
    update_customer_status-Keeps admin id status
serve_customer-Keeps others (onboard_customer user_id id p) admin q =
    search (reconciled_rules, create_customer-Keeps) depth 9

create_account-Keeps :
    (admin id number customer_id currency : ℕ)
    → Keeps IsReconciled (create_account admin id number customer_id currency)
unfolding create_account
create_account-Keeps admin id number customer_id currency =
    Keeps-bind _ _ (Keeps-check _) (λ customer. record {
      at = λ s h.
          check_write-Holds (λ db. refuse (is_taken id number db) integrity_error)
            (λ _. create_account_row id (new_account customer_id number currency)) _ s
            (λ _. search reconciled_rules depth 9)
            (λ _ passed.
              create_account_row-IsReconciled h.seen id number customer_id currency
                (refuse-ok _ integrity_error passed))
            h;
    })

serve_account-Keeps :
    (others : Db → Db) (e : AccountEndpoint) (admin : ℕ)
    → Quiet others
    → Keeps IsReconciled (serve_account others e admin)
unfolding serve_account
serve_account-Keeps others (open_account id number customer_id currency) admin q =
    search (reconciled_rules, create_account-Keeps) depth 9
serve_account-Keeps others (deposit_to_account stamp id amount currency) admin q =
    search (reconciled_rules, deposit-Keeps) depth 9
serve_account-Keeps others (withdraw_from_account stamp id amount currency) admin q =
    search (reconciled_rules, withdraw-Keeps) depth 9
serve_account-Keeps others (set_account_status now id status) admin q =
    search (reconciled_rules, update_account_status-Keeps) depth 9

serve_card-Keeps : (e : CardEndpoint) (admin : ℕ) → Keeps IsReconciled (serve_card e admin)
unfolding serve_card
serve_card-Keeps (issue_card id digits account_id) admin =
    search (reconciled_rules, create_card-Keeps) depth 9
serve_card-Keeps (stop_card now id) admin = search (reconciled_rules, block_card-Keeps) depth 9
serve_card-Keeps (remove_card now id) admin = delete_card-Keeps admin now id

serve_beneficiary-Keeps :
    (e : BeneficiaryEndpoint) (admin : ℕ) → Keeps IsReconciled (serve_beneficiary e admin)
unfolding serve_beneficiary
serve_beneficiary-Keeps (remove_beneficiary now id) admin = delete_beneficiary-Keeps admin now id
serve_beneficiary-Keeps (bring_back_beneficiary id) admin =
    search (reconciled_rules, restore_beneficiary-Keeps) depth 9

-- The requests of the back office that serve_all runs.
module _ (crypto : Crypto) (now : ℕ) (credentials : Option ℕ) where
  pub office_customers-Keeps :
      (others : Db → Db) (e : CustomerEndpoint)
      → Quiet others
      → Keeps IsReconciled (admin_request crypto others now credentials (on_customers e))
  unfolding admin_request serve_endpoint
  office_customers-Keeps others e q = search (reconciled_rules, serve_customer-Keeps) depth 9

  pub office_cards-Keeps :
      (others : Db → Db) (e : CardEndpoint)
      → Keeps IsReconciled (admin_request crypto others now credentials (on_cards e))
  unfolding admin_request serve_endpoint
  office_cards-Keeps others e = search (reconciled_rules, serve_card-Keeps) depth 9

  pub office_beneficiaries-Keeps :
      (others : Db → Db) (e : BeneficiaryEndpoint)
      → Keeps IsReconciled (admin_request crypto others now credentials (on_beneficiaries e))
  unfolding admin_request serve_endpoint
  office_beneficiaries-Keeps others e = search (reconciled_rules, serve_beneficiary-Keeps) depth 9

  pub office_accounts-Keeps :
      (others : Db → Db) (e : AccountEndpoint)
      → Quiet others
      → Keeps IsReconciled (admin_request crypto others now credentials (on_accounts e))
  unfolding admin_request serve_endpoint
  office_accounts-Keeps others e q = search (reconciled_rules, serve_account-Keeps) depth 9

  pub new_rate-Keeps :
      (others : Db → Db) (id at source target rate : ℕ)
      → Keeps IsReconciled
          (admin_request crypto others now credentials (add_rate id at source target rate))
  unfolding admin_request serve_endpoint
  new_rate-Keeps others id at source target rate =
      search (reconciled_rules, create_exchange_rate-Keeps) depth 9
