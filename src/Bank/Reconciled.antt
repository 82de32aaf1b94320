-- ===== src/Bank/Reconciled.antt =====
-- Every request keeps the ledger and the balances reconciled.
use online_banking_system.Db.{Db}
use online_banking_system.Session.{open_session}
use online_banking_system.Session.Keeps.{Holds}
use online_banking_system.Ledger.Reconciliation.{IsReconciled}
use online_banking_system.Bank.Requests.{
  Request, Requests, initiate, resend, confirm, scheduled, deposit_cash, withdraw_cash, reverse,
  pay, block, schedule, cancel, run_due, expire, sign_up_request, session_request, password_request,
  two_factor_request, profile_request, recipient_request, office_customers, office_cards,
  office_beneficiaries, office_accounts, new_exchange_rate, done, then, serve, serve_all,
}
use online_banking_system.Bank.Methods.{
  initiate_transfer-Keeps, resend_otp-Keeps, deposit-Keeps, withdraw-Keeps,
  reverse_transaction-Keeps, pay_with_card-Keeps, block_own_card-Keeps,
  execute_scheduled_transfer-Keeps, confirm_transfer-Keeps,
}
use online_banking_system.Bank.Schedules.{
  create_schedule-Keeps, cancel_schedule-Keeps, expire_stale_transactions-Keeps,
  execute_scheduled_payments-Keeps,
}
use online_banking_system.Bank.Office.{
  office_customers-Keeps, office_cards-Keeps, office_beneficiaries-Keeps, office_accounts-Keeps,
  new_rate-Keeps,
}
use online_banking_system.Bank.Access.{
  serve_sign_up-Keeps, serve_password-Keeps, serve_two_factor-Keeps, serve_session-Keeps,
  profile-Keeps, recipient-Keeps,
}
use online_banking_system.Auth.Crypto.{Crypto}

fresh-Holds : (db : Db) → IsReconciled db → Holds IsReconciled (open_session db)
fresh-Holds db h = record { seen = h; saved = h }

module _ (crypto : Crypto) where
  mutual
    unfolding serve serve_all

    serve-Quiet : (r : Request) (db : Db) → IsReconciled db → IsReconciled (serve crypto r db)
    serve-Quiet (initiate settings stamp h c p) db w =
        ((initiate_transfer-Keeps settings stamp h c p).at (open_session db)
          (fresh-Holds db w)).saved
    serve-Quiet (resend settings now h c id) db w =
        ((resend_otp-Keeps settings now h c id).at (open_session db) (fresh-Holds db w)).saved
    serve-Quiet (confirm a b settings now c id code) db w =
        ((confirm_transfer-Keeps crypto.hash_otp_code _ _ settings now c id code (serve_all-Quiet a)
            (λ at. serve_all-Quiet (b at))).at
          (open_session db) (fresh-Holds db w)).saved
    serve-Quiet (scheduled a stamp c p) db w =
        ((execute_scheduled_transfer-Keeps _ stamp c p (λ at. serve_all-Quiet (a at))).at
          (open_session db) (fresh-Holds db w)).saved
    serve-Quiet (deposit_cash a stamp id n cur admin) db w =
        ((deposit-Keeps _ stamp id n cur admin (serve_all-Quiet a)).at (open_session db)
          (fresh-Holds db w)).saved
    serve-Quiet (withdraw_cash a stamp id n cur admin) db w =
        ((withdraw-Keeps _ stamp id n cur admin (serve_all-Quiet a)).at (open_session db)
          (fresh-Holds db w)).saved
    serve-Quiet (reverse a stamp admin id) db w =
        ((reverse_transaction-Keeps _ stamp admin id (serve_all-Quiet a)).at (open_session db)
          (fresh-Holds db w)).saved
    serve-Quiet (pay a stamp c id n cur) db w =
        ((pay_with_card-Keeps _ stamp c id n cur (serve_all-Quiet a)).at (open_session db)
          (fresh-Holds db w)).saved
    serve-Quiet (block c now id card) db w =
        ((block_own_card-Keeps c now id card).at (open_session db) (fresh-Holds db w)).saved
    serve-Quiet (schedule id now c p) db w =
        ((create_schedule-Keeps id now c p).at (open_session db) (fresh-Holds db w)).saved
    serve-Quiet (cancel c id) db w =
        ((cancel_schedule-Keeps c id).at (open_session db) (fresh-Holds db w)).saved
    serve-Quiet (run_due a stamps now) db w =
        ((execute_scheduled_payments-Keeps _ stamps now (λ id at. serve_all-Quiet (a id at))).at
          (open_session db) (fresh-Holds db w)).saved
    serve-Quiet (expire a now) db w =
        ((expire_stale_transactions-Keeps _ now (serve_all-Quiet a)).at (open_session db)
          (fresh-Holds db w)).saved
    serve-Quiet (sign_up_request a settings now e) db w =
        ((serve_sign_up-Keeps crypto _ settings now e (serve_all-Quiet a)).at (open_session db)
          (fresh-Holds db w)).saved
    serve-Quiet (session_request a is_production settings now cookie e) db w =
        ((serve_session-Keeps crypto is_production settings _ now cookie e (serve_all-Quiet a)).at
          (open_session db) (fresh-Holds db w)).saved
    serve-Quiet (password_request now credentials e) db w =
        ((serve_password-Keeps crypto now credentials e).at (open_session db)
          (fresh-Holds db w)).saved
    serve-Quiet (two_factor_request now credentials e) db w =
        ((serve_two_factor-Keeps crypto now credentials e).at (open_session db)
          (fresh-Holds db w)).saved
    serve-Quiet (profile_request c p) db w =
        ((profile-Keeps c p).at (open_session db) (fresh-Holds db w)).saved
    serve-Quiet (recipient_request c now e) db w =
        ((recipient-Keeps now e c).at (open_session db) (fresh-Holds db w)).saved
    serve-Quiet (office_customers a now credentials e) db w =
        ((office_customers-Keeps crypto now credentials _ e (serve_all-Quiet a)).at
          (open_session db) (fresh-Holds db w)).saved
    serve-Quiet (office_cards now credentials e) db w =
        ((office_cards-Keeps crypto now credentials _ e).at (open_session db)
          (fresh-Holds db w)).saved
    serve-Quiet (office_beneficiaries now credentials e) db w =
        ((office_beneficiaries-Keeps crypto now credentials _ e).at (open_session db)
          (fresh-Holds db w)).saved
    serve-Quiet (office_accounts a now credentials e) db w =
        ((office_accounts-Keeps crypto now credentials _ e (serve_all-Quiet a)).at (open_session db)
          (fresh-Holds db w)).saved
    serve-Quiet (new_exchange_rate now credentials id source target rate) db w =
        ((new_rate-Keeps crypto now credentials _ id now source target rate).at (open_session db)
          (fresh-Holds db w)).saved

    serve_all-Quiet :
        (rs : Requests) (db : Db) → IsReconciled db → IsReconciled (serve_all crypto rs db)
    serve_all-Quiet done db w = w
    serve_all-Quiet (then rs r) db w =
        serve-Quiet r (serve_all crypto rs db) (serve_all-Quiet rs db w)

-- If every balance is the sum of its account's ledger entries (credits less debits), and ids
-- without an account have none to sum up, it is so after any sequence of requests, failing or not,
-- whatever requests commit while others wait: of customers, browsers that sign up and in, the back
-- office and the periodic jobs.
pub serve_all-IsReconciled :
    (crypto : Crypto) (rs : Requests) (db : Db)
    → IsReconciled db
    → IsReconciled (serve_all crypto rs db)
serve_all-IsReconciled crypto rs db h = serve_all-Quiet crypto rs db h
