-- ===== src/Portal/Protected.antt =====
-- Whose money the requests of customers can spend.
use online_banking_system.Prelude.{ℕ, ◌≡◌, ◌≢◌, refl, Option, some, arith}
use online_banking_system.Prelude.Int.{◌≤ℤ◌}
use online_banking_system.Table.{lookup}
use online_banking_system.Db.{Account, Card, Db, Customer}
use online_banking_system.Session.{open_session, ◌>>=◌}
use online_banking_system.Session.Check.{Result, ok, err}
use online_banking_system.Session.Keeps.{
  Holds, Keeps, Keeps-bind, Keeps-check, Keeps-pure, bind-Holds, keeps_rules,
}
use online_banking_system.Transactions.{Stamp}
use online_banking_system.Transfers.{Settings, confirm_transfer}
use online_banking_system.Cards.{pay_with_card}
use online_banking_system.Accounts.{get_owned_card}
use online_banking_system.Auth.Crypto.{Crypto}
use online_banking_system.Auth.{get_current_customer}
use online_banking_system.Portal.Router.{
  TransferEndpoint, start_transfer, send_code_again, confirm_with_code, serve_transfer,
  OwnCardEndpoint, block_mine, pay_by_card, serve_own_card, OwnBeneficiaryEndpoint, save_recipient,
  edit_recipient, drop_recipient, serve_own_beneficiary, ScheduleEndpoint, add_schedule,
  stop_schedule, serve_schedule, PortalEndpoint, on_transfers, on_own_cards, on_own_beneficiaries,
  on_schedules, change_profile, serve_portal, portal_request,
}
use online_banking_system.Portal.Spared.{IsSpared, untouched-IsSpared}
use online_banking_system.Portal.Methods.{
  initiate_transfer-Keeps, resend_otp-Keeps, block_own_card-Keeps, update_profile-Keeps,
  create_beneficiary-Keeps, rename_beneficiary-Keeps, delete_own_beneficiary-Keeps,
  create_schedule-Keeps, cancel_schedule-Keeps,
}
use online_banking_system.Portal.Spending.{confirm_transfer-Holds, pay_with_card-Holds}

module _ (crypto : Crypto) (settings : Settings) (now : ℕ) (me : Customer) (db : Db)
    (fresh : Holds (IsSpared me.id db) (open_session db)) where
  transfer-Holds :
      (e : TransferEndpoint)
      → Holds
          (IsSpared me.id db)
          (serve_transfer crypto (λ d. d) (λ _ d. d) settings now e me (open_session db)).1
  unfolding serve_transfer
  transfer-Holds (start_transfer stamp hash p) =
      (Keeps-bind _ _ (initiate_transfer-Keeps settings stamp hash me p) (λ _. Keeps-pure tt)).at
        (open_session db) fresh
  transfer-Holds (send_code_again hash id) =
      (Keeps-bind _ _ (resend_otp-Keeps settings now hash me id) (λ _. Keeps-pure tt)).at
        (open_session db) fresh
  transfer-Holds (confirm_with_code id code) =
      bind-Holds (confirm_transfer crypto.hash_otp_code (λ d. d) (λ _ d. d) settings now me id code)
        _ (open_session db)
        (confirm_transfer-Holds crypto.hash_otp_code settings now me db id code fresh)
        (λ _. Keeps-pure tt)

  pay-Holds :
      (stamp : Stamp) (id amount currency : ℕ) (r : Result Card)
      → get_owned_card me id db ≡ r
      → Holds
          (IsSpared me.id db)
          (serve_own_card
            (λ d. d)
            now
            (pay_by_card stamp id amount currency)
            me
            (open_session db)).1
  unfolding serve_own_card ◌>>=◌
  pay-Holds stamp id amount currency (err e) p = rw p fresh
  pay-Holds stamp id amount currency (ok card) p = rw p (
      bind-Holds (pay_with_card (λ d. d) stamp me id amount currency) _ (open_session db)
        (pay_with_card-Holds stamp me id amount currency card db p fresh) (λ _. Keeps-pure tt))

  own_card-Holds :
      (e : OwnCardEndpoint)
      → Holds (IsSpared me.id db) (serve_own_card (λ d. d) now e me (open_session db)).1
  unfolding serve_own_card
  own_card-Holds (block_mine id) =
      (Keeps-bind _ _ (Keeps-check _)
          (λ card. Keeps-bind _ _ (block_own_card-Keeps me now id card) (λ _. Keeps-pure tt))).at
        (open_session db) fresh
  own_card-Holds (pay_by_card stamp id amount currency) =
      pay-Holds stamp id amount currency (get_owned_card me id db) refl

  own_beneficiary-Keeps :
      (e : OwnBeneficiaryEndpoint) → Keeps (IsSpared me.id db) (serve_own_beneficiary now e me)
  unfolding serve_own_beneficiary
  own_beneficiary-Keeps (save_recipient id p) =
      search (keeps_rules, create_beneficiary-Keeps) depth 9
  own_beneficiary-Keeps (edit_recipient id name nickname) =
      search (keeps_rules, rename_beneficiary-Keeps) depth 9
  own_beneficiary-Keeps (drop_recipient id) =
      search (keeps_rules, delete_own_beneficiary-Keeps) depth 9

  schedule-Keeps : (e : ScheduleEndpoint) → Keeps (IsSpared me.id db) (serve_schedule now e me)
  unfolding serve_schedule
  schedule-Keeps (add_schedule id p) = search (keeps_rules, create_schedule-Keeps) depth 9
  schedule-Keeps (stop_schedule id) = search (keeps_rules, cancel_schedule-Keeps) depth 9

  portal-Holds :
      (e : PortalEndpoint)
      → Holds
          (IsSpared me.id db)
          (serve_portal crypto (λ d. d) (λ _ d. d) settings now e me (open_session db)).1
  unfolding serve_portal
  portal-Holds (on_transfers e) = transfer-Holds e
  portal-Holds (on_own_cards e) = own_card-Holds e
  portal-Holds (on_own_beneficiaries e) = (own_beneficiary-Keeps e).at (open_session db) fresh
  portal-Holds (on_schedules e) = (schedule-Keeps e).at (open_session db) fresh
  portal-Holds (change_profile p) = (update_profile-Keeps me p).at (open_session db) fresh

-- The account is there, with the same customer and no less money.
abbrev pub IsUnspent : ℕ → Account → Db → Type 0
IsUnspent id account db =
    (after : Account) × (lookup id db.accounts ≡ some after)
    × (after.customer_id ≡ account.customer_id)
    × (account.balance ≤ℤ after.balance)

module _ (crypto : Crypto) (settings : Settings) (now : ℕ) (credentials : Option ℕ)
    (endpoint : PortalEndpoint) (db : Db) (id : ℕ) (account : Account)
    (found : lookup id db.accounts ≡ some account) where
  portal_request-IsUnspent :
      (r : Result Customer)
      → get_current_customer crypto now credentials db ≡ r
      → ((me : Customer) → r ≡ ok me → account.customer_id ≢ me.id)
      → IsUnspent id account
          (portal_request crypto
            (λ d. d)
            (λ _ d. d)
            settings
            now
            credentials
            endpoint
            (open_session db)).1.committed
  unfolding portal_request ◌>>=◌
  portal_request-IsUnspent (err e) p other = rw p (account, found, refl, ground arith)
  portal_request-IsUnspent (ok me) p other =
      let start = untouched-IsSpared me.id db in
      let held =
        portal-Holds crypto settings now me db (record { seen = start; saved = start }) endpoint in
      let (after, there, spares) = held.saved.at id account found in
      rw p (after, there, spares.same_customer, spares.no_less (other me refl))

-- Only its own customer spends the money of an account: a request to an endpoint of customers that
-- writes, with whatever token and no other request in between, leaves every account that is not of
-- the customer of its bearer token there, with the same customer and no less money.
pub only_owner_spends :
    (crypto : Crypto) (settings : Settings) (now : ℕ) (credentials : Option ℕ)
    (endpoint : PortalEndpoint) (db : Db) (id : ℕ) (account : Account)
    → lookup id db.accounts ≡ some account
    → ((me : Customer)
        → get_current_customer crypto now credentials db ≡ ok me
        → account.customer_id ≢ me.id)
    → IsUnspent id account
        (portal_request crypto
          (λ d. d)
          (λ _ d. d)
          settings
          now
          credentials
          endpoint
          (open_session db)).1.committed
only_owner_spends crypto settings now credentials endpoint db id account found other =
    portal_request-IsUnspent crypto settings now credentials endpoint db id account found
      (get_current_customer crypto now credentials db) refl other
