-- ===== src/Admin/Router.antt =====
-- The endpoints of backend/app/modules/admin/router.py that write, without their responses. `others`
-- is what other requests commit where the service waits.
use online_banking_system.Prelude.{ℕ, Option, List}
use online_banking_system.Db.{AccountStatus, CustomerStatus, Db, UserRole}
use online_banking_system.Session.Actions.{Action, ◌>>=◌, pure, check}
use online_banking_system.Transactions.{Stamp}
use online_banking_system.Teller.{deposit, withdraw}
use online_banking_system.Reversal.{reverse_transaction}
use online_banking_system.Auth.Crypto.{Crypto}
use online_banking_system.Auth.{RegisterRequest, require_role}
use online_banking_system.Admin.Customers.{
  update_customer_status, create_customer, delete_customer, restore_customer,
}
use online_banking_system.Admin.Accounts.{
  create_account, update_account_status, create_exchange_rate,
}
use online_banking_system.Admin.Cards.{create_card, block_card, delete_card}
use online_banking_system.Admin.Beneficiaries.{delete_beneficiary, restore_beneficiary}

-- What an endpoint answers with is left out.
abbrev pub unanswered : {A : Type 0} → Action A → Action (Unit {0})
unanswered m = do response ← m; pure tt

pub data CustomerEndpoint : Type 0 where
  remove_customer : ℕ → ℕ → CustomerEndpoint
  bring_back_customer : ℕ → CustomerEndpoint
  set_customer_status : ℕ → CustomerStatus → CustomerEndpoint
  onboard_customer : ℕ → ℕ → RegisterRequest → CustomerEndpoint

unfoldable pub serve_customer : (Db → Db) → CustomerEndpoint → ℕ → Action (Unit {0})
serve_customer others (remove_customer now id) admin = delete_customer admin now id
serve_customer others (bring_back_customer id) admin = unanswered (restore_customer admin id)
serve_customer others (set_customer_status id status) admin = update_customer_status admin id status
serve_customer others (onboard_customer user_id customer_id p) admin =
    unanswered (create_customer others admin user_id customer_id p)

pub data AccountEndpoint : Type 0 where
  open_account : ℕ → ℕ → ℕ → ℕ → AccountEndpoint
  deposit_to_account withdraw_from_account : Stamp → ℕ → ℕ → ℕ → AccountEndpoint
  set_account_status : ℕ → ℕ → AccountStatus → AccountEndpoint

unfoldable pub serve_account : (Db → Db) → AccountEndpoint → ℕ → Action (Unit {0})
serve_account others (open_account id number customer_id currency) admin =
    unanswered (create_account admin id number customer_id currency)
serve_account others (deposit_to_account stamp id amount currency) admin =
    unanswered (deposit others stamp id amount currency admin)
serve_account others (withdraw_from_account stamp id amount currency) admin =
    unanswered (withdraw others stamp id amount currency admin)
serve_account others (set_account_status now id status) admin =
    unanswered (update_account_status admin now id status)

pub data CardEndpoint : Type 0 where
  issue_card : ℕ → List ℕ → ℕ → CardEndpoint
  stop_card remove_card : ℕ → ℕ → CardEndpoint

unfoldable pub serve_card : CardEndpoint → ℕ → Action (Unit {0})
serve_card (issue_card id digits account_id) admin =
    unanswered (create_card admin id digits account_id)
serve_card (stop_card now id) admin = unanswered (block_card admin now id)
serve_card (remove_card now id) admin = delete_card admin now id

pub data BeneficiaryEndpoint : Type 0 where
  remove_beneficiary : ℕ → ℕ → BeneficiaryEndpoint
  bring_back_beneficiary : ℕ → BeneficiaryEndpoint

unfoldable pub serve_beneficiary : BeneficiaryEndpoint → ℕ → Action (Unit {0})
serve_beneficiary (remove_beneficiary now id) admin = delete_beneficiary admin now id
serve_beneficiary (bring_back_beneficiary id) admin = unanswered (restore_beneficiary admin id)

abbrev pub serve_reversal : (Db → Db) → Stamp → ℕ → ℕ → Action (Unit {0})
serve_reversal others stamp id admin = unanswered (reverse_transaction others stamp admin id)

abbrev pub serve_rate : ℕ → ℕ → ℕ → ℕ → ℕ → ℕ → Action (Unit {0})
serve_rate id now source target rate admin =
    unanswered (create_exchange_rate admin id now source target rate)

pub data AdminEndpoint : Type 0 where
  on_customers : CustomerEndpoint → AdminEndpoint
  on_accounts : AccountEndpoint → AdminEndpoint
  on_cards : CardEndpoint → AdminEndpoint
  on_beneficiaries : BeneficiaryEndpoint → AdminEndpoint
  reverse : Stamp → ℕ → AdminEndpoint
  add_rate : ℕ → ℕ → ℕ → ℕ → ℕ → AdminEndpoint

unfoldable pub serve_endpoint : (Db → Db) → AdminEndpoint → ℕ → Action (Unit {0})
unfolding serve_customer serve_account serve_card serve_beneficiary
serve_endpoint others (on_customers e) = serve_customer others e
serve_endpoint others (on_accounts e) = serve_account others e
serve_endpoint others (on_cards e) = serve_card e
serve_endpoint others (on_beneficiaries e) = serve_beneficiary e
serve_endpoint others (reverse stamp id) = serve_reversal others stamp id
serve_endpoint others (add_rate id now source target rate) = serve_rate id now source target rate

module _ (crypto : Crypto) where
  -- `Depends(require_admin)`, and the endpoint.
  unfoldable pub admin_request : (Db → Db) → ℕ → Option ℕ → AdminEndpoint → Action (Unit {0})
  unfolding require_role serve_endpoint
  admin_request others now credentials endpoint = do
    admin ← check (require_role crypto UserRole.admin now credentials)
    serve_endpoint others endpoint admin.0
