-- ===== src/Bank/Requests.antt =====
-- A request of a client, an administrator or the scheduler, with the requests that others commit at
-- the points where it waits; and the committed rows after a sequence of requests.
use online_banking_system.Prelude.{ℕ, Bool, Option}
use online_banking_system.Db.{Db, Card, Customer}
use online_banking_system.Session.{Session, open_session}
use online_banking_system.Transactions.{Stamp}
use online_banking_system.Transfers.{
  Moment, Settings, TransferRequest, initiate_transfer, resend_otp, confirm_transfer,
  execute_scheduled_transfer,
}
use online_banking_system.Teller.{deposit, withdraw}
use online_banking_system.Reversal.{reverse_transaction}
use online_banking_system.Cards.{pay_with_card, block_own_card}
use online_banking_system.Schedules.{
  ScheduleRequest, create_schedule, cancel_schedule, execute_scheduled_payments,
  expire_stale_transactions,
}
use online_banking_system.Accounts.{ProfileRequest, update_profile}
use online_banking_system.Auth.Crypto.{Crypto}
use online_banking_system.Auth.{
  TokenSettings, SignUpEndpoint, serve_sign_up, SessionEndpoint, serve_session, PasswordEndpoint,
  serve_password, TwoFactorEndpoint, serve_two_factor,
}
use online_banking_system.Admin.{
  CustomerEndpoint, AccountEndpoint, CardEndpoint, BeneficiaryEndpoint, on_customers, on_accounts,
  on_cards, on_beneficiaries, add_rate, admin_request,
}
use online_banking_system.Portal.{OwnBeneficiaryEndpoint, serve_own_beneficiary}

mutual
  pub data Request : Type 0 where
    initiate : Settings → Stamp → ℕ → Customer → TransferRequest → Request
    resend : Settings → ℕ → ℕ → Customer → ℕ → Request
    confirm : Requests → (Moment → Requests) → Settings → ℕ → Customer → ℕ → ℕ → Request
    scheduled : (Moment → Requests) → Stamp → Customer → TransferRequest → Request
    deposit_cash withdraw_cash : Requests → Stamp → ℕ → ℕ → ℕ → ℕ → Request
    reverse : Requests → Stamp → ℕ → ℕ → Request
    pay : Requests → Stamp → Customer → ℕ → ℕ → ℕ → Request
    block : Customer → ℕ → ℕ → Card → Request
    schedule : ℕ → ℕ → Customer → ScheduleRequest → Request
    cancel : Customer → ℕ → Request
    run_due : (ℕ → Moment → Requests) → (ℕ → Stamp) → ℕ → Request
    expire : Requests → ℕ → Request
    sign_up_request : Requests → Settings → ℕ → SignUpEndpoint → Request
    session_request : Requests → Bool → TokenSettings → ℕ → Option ℕ → SessionEndpoint → Request
    password_request : ℕ → Option ℕ → PasswordEndpoint → Request
    two_factor_request : ℕ → Option ℕ → TwoFactorEndpoint → Request
    profile_request : Customer → ProfileRequest → Request
    recipient_request : Customer → ℕ → OwnBeneficiaryEndpoint → Request
    office_customers : Requests → ℕ → Option ℕ → CustomerEndpoint → Request
    office_cards : ℕ → Option ℕ → CardEndpoint → Request
    office_beneficiaries : ℕ → Option ℕ → BeneficiaryEndpoint → Request
    office_accounts : Requests → ℕ → Option ℕ → AccountEndpoint → Request
    new_exchange_rate : ℕ → Option ℕ → ℕ → ℕ → ℕ → ℕ → Request

  pub data Requests : Type 0 where
    done : Requests
    then : Requests → Request → Requests

-- The committed rows when a request's session is closed.
abbrev pub committed_after : {A : Type 0} → A × Session → Db
committed_after r = r.1.committed

module _ (crypto : Crypto) where
  unfoldable mutual
    pub serve : Request → Db → Db
    serve (initiate settings stamp h c p) db =
        committed_after (initiate_transfer settings stamp h c p (open_session db))
    serve (resend settings now h c id) db =
        committed_after (resend_otp settings now h c id (open_session db))
    serve (confirm a b settings now c id code) db = committed_after (
        confirm_transfer crypto.hash_otp_code (serve_all a) (λ at. serve_all (b at)) settings now c
          id code (open_session db))
    serve (scheduled a stamp c p) db =
        committed_after
          (execute_scheduled_transfer (λ at. serve_all (a at)) stamp c p (open_session db))
    serve (deposit_cash a stamp id n cur admin) db =
        committed_after (deposit (serve_all a) stamp id n cur admin (open_session db))
    serve (withdraw_cash a stamp id n cur admin) db =
        committed_after (withdraw (serve_all a) stamp id n cur admin (open_session db))
    serve (reverse a stamp admin id) db =
        committed_after (reverse_transaction (serve_all a) stamp admin id (open_session db))
    serve (pay a stamp c id n cur) db =
        committed_after (pay_with_card (serve_all a) stamp c id n cur (open_session db))
    serve (block c now id card) db =
        committed_after (block_own_card c now id card (open_session db))
    serve (schedule id now c p) db = committed_after (create_schedule id now c p (open_session db))
    serve (cancel c id) db = committed_after (cancel_schedule c id (open_session db))
    serve (run_due a stamps now) db =
        committed_after
          (execute_scheduled_payments (λ id at. serve_all (a id at)) stamps now (open_session db))
    serve (expire a now) db =
        committed_after (expire_stale_transactions (serve_all a) now (open_session db))
    serve (sign_up_request a settings now e) db =
        committed_after (serve_sign_up crypto (serve_all a) settings now e (open_session db))
    serve (session_request a is_production settings now cookie e) db =
        committed_after
          (serve_session crypto is_production settings (serve_all a) now cookie e (open_session db))
    serve (password_request now credentials e) db =
        committed_after (serve_password crypto now credentials e (open_session db))
    serve (two_factor_request now credentials e) db =
        committed_after (serve_two_factor crypto now credentials e (open_session db))
    serve (profile_request c p) db = committed_after (update_profile c p (open_session db))
    serve (recipient_request c now e) db =
        committed_after (serve_own_beneficiary now e c (open_session db))
    serve (office_customers a now credentials e) db =
        committed_after
          (admin_request crypto (serve_all a) now credentials (on_customers e) (open_session db))
    serve (office_cards now credentials e) db =
        committed_after
          (admin_request crypto (λ d. d) now credentials (on_cards e) (open_session db))
    serve (office_beneficiaries now credentials e) db =
        committed_after
          (admin_request crypto (λ d. d) now credentials (on_beneficiaries e) (open_session db))
    serve (office_accounts a now credentials e) db =
        committed_after
          (admin_request crypto (serve_all a) now credentials (on_accounts e) (open_session db))
    serve (new_exchange_rate now credentials id source target rate) db = committed_after (
        admin_request crypto (λ d. d) now credentials (add_rate id now source target rate)
          (open_session db))

    pub serve_all : Requests → Db → Db
    serve_all done db = db
    serve_all (then rs r) db = serve r (serve_all rs db)
