-- ===== src/Portal/Router.antt =====
-- The endpoints of customers that write, without their responses:
-- backend/app/modules/{transactions,cards,customers,beneficiaries,scheduled_payments}/router.py. The
-- endpoint of a resource gets it from the dependency that checks whose it is. `others_read` and
-- `others` are what other requests commit where the service waits.
use online_banking_system.Prelude.{ℕ, Option}
use online_banking_system.Db.{Db, Customer}
use online_banking_system.Session.Actions.{Action, ◌>>=◌, pure, check}
use online_banking_system.Transactions.{Stamp}
use online_banking_system.Transfers.{
  Others, at_lock, Settings, TransferRequest, initiate_transfer, resend_otp, confirm_transfer,
}
use online_banking_system.Cards.{pay_with_card, block_own_card}
use online_banking_system.Accounts.{
  get_owned_card, get_owned_beneficiary, ProfileRequest, update_profile,
}
use online_banking_system.Beneficiaries.{
  BeneficiaryRequest, create_beneficiary, rename_beneficiary, delete_own_beneficiary,
}
use online_banking_system.Schedules.{ScheduleRequest, create_schedule, cancel_schedule}
use online_banking_system.Auth.Crypto.{Crypto}
use online_banking_system.Auth.{get_current_customer}

-- What an endpoint answers with is left out.
abbrev pub answered : {A : Type 0} → Action A → Action (Unit {0})
answered m = do response ← m; pure tt

-- With the settings, the hash of a fresh code and a stamp, where the service draws them.
pub data TransferEndpoint : Type 0 where
  start_transfer : Stamp → ℕ → TransferRequest → TransferEndpoint
  send_code_again : ℕ → ℕ → TransferEndpoint
  confirm_with_code : ℕ → ℕ → TransferEndpoint

module _ (crypto : Crypto) (others_read : Db → Db) (others : Others) (settings : Settings)
    (now : ℕ) where
  unfoldable pub serve_transfer : TransferEndpoint → Customer → Action (Unit {0})
  serve_transfer (start_transfer stamp hash payload) customer =
      answered (initiate_transfer settings stamp hash customer payload)
  serve_transfer (send_code_again hash id) customer =
      answered (resend_otp settings now hash customer id)
  serve_transfer (confirm_with_code id code) customer =
      answered
        (confirm_transfer crypto.hash_otp_code others_read others settings now customer id code)

pub data OwnCardEndpoint : Type 0 where
  block_mine : ℕ → OwnCardEndpoint
  pay_by_card : Stamp → ℕ → ℕ → ℕ → OwnCardEndpoint

unfoldable pub serve_own_card : (Db → Db) → ℕ → OwnCardEndpoint → Customer → Action (Unit {0})
unfolding get_owned_card
serve_own_card others now (block_mine card_id) customer = do
  card ← check (get_owned_card customer card_id)
  answered (block_own_card customer now card_id card)
serve_own_card others now (pay_by_card stamp card_id amount currency) customer = do
  card ← check (get_owned_card customer card_id)
  answered (pay_with_card others stamp customer card_id amount currency)

pub data OwnBeneficiaryEndpoint : Type 0 where
  save_recipient : ℕ → BeneficiaryRequest → OwnBeneficiaryEndpoint
  edit_recipient : ℕ → Option ℕ → Option ℕ → OwnBeneficiaryEndpoint
  drop_recipient : ℕ → OwnBeneficiaryEndpoint

unfoldable pub serve_own_beneficiary : ℕ → OwnBeneficiaryEndpoint → Customer → Action (Unit {0})
unfolding get_owned_beneficiary
serve_own_beneficiary now (save_recipient id payload) customer =
    answered (create_beneficiary id customer payload)
serve_own_beneficiary now (edit_recipient id name nickname) customer = do
  beneficiary ← check (get_owned_beneficiary customer id)
  rename_beneficiary id name nickname
serve_own_beneficiary now (drop_recipient id) customer = do
  beneficiary ← check (get_owned_beneficiary customer id)
  delete_own_beneficiary now id

pub data ScheduleEndpoint : Type 0 where
  add_schedule : ℕ → ScheduleRequest → ScheduleEndpoint
  stop_schedule : ℕ → ScheduleEndpoint

unfoldable pub serve_schedule : ℕ → ScheduleEndpoint → Customer → Action (Unit {0})
serve_schedule now (add_schedule id payload) customer =
    answered (create_schedule id now customer payload)
serve_schedule now (stop_schedule id) customer = answered (cancel_schedule customer id)

abbrev pub serve_profile : ProfileRequest → Customer → Action (Unit {0})
serve_profile payload customer = update_profile customer payload

pub data PortalEndpoint : Type 0 where
  on_transfers : TransferEndpoint → PortalEndpoint
  on_own_cards : OwnCardEndpoint → PortalEndpoint
  on_own_beneficiaries : OwnBeneficiaryEndpoint → PortalEndpoint
  on_schedules : ScheduleEndpoint → PortalEndpoint
  change_profile : ProfileRequest → PortalEndpoint

module _ (crypto : Crypto) (others_read : Db → Db) (others : Others) (settings : Settings)
    (now : ℕ) where
  unfoldable pub serve_portal : PortalEndpoint → Customer → Action (Unit {0})
  unfolding serve_transfer serve_own_card serve_own_beneficiary serve_schedule
  serve_portal (on_transfers e) = serve_transfer crypto others_read others settings now e
  serve_portal (on_own_cards e) = serve_own_card (others at_lock) now e
  serve_portal (on_own_beneficiaries e) = serve_own_beneficiary now e
  serve_portal (on_schedules e) = serve_schedule now e
  serve_portal (change_profile payload) = serve_profile payload

  -- `Depends(get_current_customer)`, and the endpoint.
  unfoldable pub portal_request : Option ℕ → PortalEndpoint → Action (Unit {0})
  unfolding get_current_customer serve_portal
  portal_request credentials endpoint = do
    customer ← check (get_current_customer crypto now credentials)
    serve_portal endpoint customer
