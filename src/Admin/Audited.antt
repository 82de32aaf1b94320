-- ===== src/Admin/Audited.antt =====
-- The audit log of the back office: what every endpoint of the admin router that writes reports.
use online_banking_system.Prelude.{ℕ, ◌≡◌, refl, ◌⊎◌, inl, inr, Option, List, ◌∷◌, []}
use online_banking_system.Db.{Error, UserRole, Db}
use online_banking_system.Session.{Session, open_session}
use online_banking_system.Session.Check.{Result, ok, err}
use online_banking_system.Session.Messages.{Message, audit, AuditAction}
use online_banking_system.Session.Reports.{ByOthers, as_before, Reports, report_rules}
use online_banking_system.Teller.{deposit, withdraw}
use online_banking_system.Reversal.{reverse_transaction}
use online_banking_system.Auth.Crypto.{Crypto}
use online_banking_system.Admin.{
  update_customer_status, store_onboarded, create_customer, delete_customer, restore_customer,
  create_account, update_account_status, create_exchange_rate, create_card, block_card, delete_card,
  delete_beneficiary, restore_beneficiary, CustomerEndpoint, remove_customer, bring_back_customer,
  set_customer_status, onboard_customer, serve_customer, AccountEndpoint, open_account,
  deposit_to_account, withdraw_from_account, set_account_status, serve_account, CardEndpoint,
  issue_card, stop_card, remove_card, serve_card, BeneficiaryEndpoint, remove_beneficiary,
  bring_back_beneficiary, serve_beneficiary, AdminEndpoint, on_customers, on_accounts, on_cards,
  on_beneficiaries, reverse, add_rate, serve_endpoint, admin_request,
}
use online_banking_system.Admin.Guarded.{HasRole, only_admins}

-- The audit entry that an administrator leaves: one line for each endpoint.
abbrev pub on_customer : ℕ → CustomerEndpoint → Message
on_customer admin (remove_customer now id) = audit admin AuditAction.admin_customer_deleted id
on_customer admin (bring_back_customer id) = audit admin AuditAction.admin_customer_restored id
on_customer admin (set_customer_status id status) =
    audit admin AuditAction.admin_customer_status_changed id
on_customer admin (onboard_customer user_id id p) =
    audit admin AuditAction.admin_customer_created id

abbrev pub on_account : ℕ → AccountEndpoint → Message
on_account admin (open_account id number customer_id currency) =
    audit admin AuditAction.admin_account_created id
on_account admin (deposit_to_account stamp id n c) = audit admin AuditAction.deposit id
on_account admin (withdraw_from_account stamp id n c) = audit admin AuditAction.withdrawal id
on_account admin (set_account_status now id status) =
    audit admin AuditAction.admin_account_status_changed id

abbrev pub on_card : ℕ → CardEndpoint → Message
on_card admin (issue_card id digits account_id) = audit admin AuditAction.admin_card_created id
on_card admin (stop_card now id) = audit admin AuditAction.admin_card_blocked id
on_card admin (remove_card now id) = audit admin AuditAction.admin_card_deleted id

abbrev pub on_beneficiary : ℕ → BeneficiaryEndpoint → Message
on_beneficiary admin (remove_beneficiary now id) =
    audit admin AuditAction.admin_beneficiary_deleted id
on_beneficiary admin (bring_back_beneficiary id) =
    audit admin AuditAction.admin_beneficiary_restored id

abbrev pub entry_of : ℕ → AdminEndpoint → Message
entry_of admin (on_customers e) = on_customer admin e
entry_of admin (on_accounts e) = on_account admin e
entry_of admin (on_cards e) = on_card admin e
entry_of admin (on_beneficiaries e) = on_beneficiary admin e
entry_of admin (reverse stamp id) = audit admin AuditAction.admin_transaction_reversed id
entry_of admin (add_rate id now source target rate) =
    audit admin AuditAction.admin_exchange_rate_created id

module _ (others : Db → Db) (db : Db) (admin : ℕ) where
  serve_customer-Reports :
      (e : CustomerEndpoint)
      → Reports others db (on_customer admin e) (serve_customer others e admin)
  unfolding serve_customer update_customer_status store_onboarded create_customer delete_customer
      restore_customer
  serve_customer-Reports (remove_customer now id) = search report_rules depth 9
  serve_customer-Reports (bring_back_customer id) = search report_rules depth 9
  serve_customer-Reports (set_customer_status id status) = search report_rules depth 9
  serve_customer-Reports (onboard_customer user_id id p) = search report_rules depth 9

  serve_account-Reports :
      (e : AccountEndpoint) → Reports others db (on_account admin e) (serve_account others e admin)
  unfolding serve_account create_account deposit withdraw update_account_status
  serve_account-Reports (open_account id number customer_id currency) = search report_rules depth 9
  serve_account-Reports (deposit_to_account stamp id n c) = search report_rules depth 9
  serve_account-Reports (withdraw_from_account stamp id n c) = search report_rules depth 9
  serve_account-Reports (set_account_status now id status) = search report_rules depth 9

  serve_card-Reports : (e : CardEndpoint) → Reports others db (on_card admin e) (serve_card e admin)
  unfolding serve_card create_card block_card delete_card
  serve_card-Reports (issue_card id digits account_id) = search report_rules depth 9
  serve_card-Reports (stop_card now id) = search report_rules depth 9
  serve_card-Reports (remove_card now id) = search report_rules depth 9

  serve_beneficiary-Reports :
      (e : BeneficiaryEndpoint)
      → Reports others db (on_beneficiary admin e) (serve_beneficiary e admin)
  unfolding serve_beneficiary delete_beneficiary restore_beneficiary
  serve_beneficiary-Reports (remove_beneficiary now id) = search report_rules depth 9
  serve_beneficiary-Reports (bring_back_beneficiary id) = search report_rules depth 9

  serve_endpoint-Reports :
      (e : AdminEndpoint) → Reports others db (entry_of admin e) (serve_endpoint others e admin)
  unfolding serve_endpoint reverse_transaction create_exchange_rate
  serve_endpoint-Reports (on_customers e) = serve_customer-Reports e
  serve_endpoint-Reports (on_accounts e) = serve_account-Reports e
  serve_endpoint-Reports (on_cards e) = serve_card-Reports e
  serve_endpoint-Reports (on_beneficiaries e) = serve_beneficiary-Reports e
  serve_endpoint-Reports (reverse stamp id) = search report_rules depth 9
  serve_endpoint-Reports (add_rate id now source target rate) = search report_rules depth 9

module _ (crypto : Crypto) (others : Db → Db) (now : ℕ) (credentials : Option ℕ)
    (endpoint : AdminEndpoint) (db : Db) where
  -- Done, with the entry of the administrator first in the queue of messages, or an error with
  -- neither a message nor a commit.
  abbrev pub IsAudited : Result (Unit {0}) × Session → Type 0
  IsAudited out =
      ((id : ℕ) × (rest : List Message) × HasRole crypto UserRole.admin now credentials id db
        × (out.0 ≡ ok tt)
        × (out.1.sent ≡ entry_of id endpoint ∷ rest))
      ⊎ ((e : Error) × (out.0 ≡ err e) × (out.1.sent ≡ []) × ByOthers others db out.1.committed)

-- The back office leaves a trail: a request to an endpoint of the admin router that writes either
-- returns, and has then queued the audit entry of this endpoint, in the name of the administrator of
-- its bearer token; or raises, and has then queued no message and committed nothing: the committed
-- rows are those of before, or what other requests have made of them.
pub admin_request-IsAudited :
    (crypto : Crypto) (others : Db → Db) (now : ℕ) (credentials : Option ℕ)
    (endpoint : AdminEndpoint) (db : Db)
    → IsAudited crypto others now credentials endpoint db
        (admin_request crypto others now credentials endpoint (open_session db))
admin_request-IsAudited crypto others now credentials endpoint db =
    elim (only_admins crypto others now credentials endpoint db) [
      | inl (id, role, same) ↦
          rw same
            (elim ((serve_endpoint-Reports others db id endpoint).at (open_session db) refl
              as_before) [
                | inl (done, rest, returned, sent) ↦ inl (id, rest, role, returned, sent)
                | inr failed ↦ inr failed
              ])
      | inr (e, same) ↦ rw same (inr (e, refl, refl, as_before))
    ]
