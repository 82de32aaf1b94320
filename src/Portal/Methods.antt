-- ===== src/Portal/Methods.antt =====
-- The methods of the services, on behalf of a customer, keep what IsSpared says.
use online_banking_system.Prelude.{ℕ, Option, none, some}
use online_banking_system.Db.{Error, Transaction, TransferConfirmation, Reason, Db, Customer, Card}
use online_banking_system.Session.Keeps.{Keeps}
use online_banking_system.Transactions.{Stamp}
use online_banking_system.Transfers.{
  Settings, TransferRequest, initiate_transfer, resend_otp, resolve, fail_or_report, give_up,
  wrong_code,
}
use online_banking_system.Cards.{block_own_card}
use online_banking_system.Accounts.{ProfileRequest, update_profile}
use online_banking_system.Beneficiaries.{
  BeneficiaryRequest, create_beneficiary, rename_beneficiary, delete_own_beneficiary,
}
use online_banking_system.Schedules.{ScheduleRequest, create_schedule, cancel_schedule}
use online_banking_system.Portal.Spared.{IsSpared}
use online_banking_system.Portal.Writes.{spared_rules}

module _ {c : ℕ} {before : Db} where
  pub initiate_transfer-Keeps :
      (settings : Settings) (stamp : Stamp) (h : ℕ) (me : Customer) (p : TransferRequest)
      → Keeps (IsSpared c before) (initiate_transfer settings stamp h me p)
  unfolding initiate_transfer
  initiate_transfer-Keeps settings stamp h me p = search spared_rules depth 9

  pub resend_otp-Keeps :
      (settings : Settings) (now h : ℕ) (me : Customer) (id : ℕ)
      → Keeps (IsSpared c before) (resend_otp settings now h me id)
  unfolding resend_otp
  resend_otp-Keeps settings now h me id = search spared_rules depth 9

  pub block_own_card-Keeps :
      (me : Customer) (now id : ℕ) (card : Card)
      → Keeps (IsSpared c before) (block_own_card me now id card)
  unfolding block_own_card
  block_own_card-Keeps me now id card = search spared_rules depth 9

  pub update_profile-Keeps :
      (me : Customer) (p : ProfileRequest) → Keeps (IsSpared c before) (update_profile me p)
  unfolding update_profile
  update_profile-Keeps me p = search spared_rules depth 9

  pub create_beneficiary-Keeps :
      (id : ℕ) (me : Customer) (p : BeneficiaryRequest)
      → Keeps (IsSpared c before) (create_beneficiary id me p)
  unfolding create_beneficiary
  create_beneficiary-Keeps id me p = search spared_rules depth 9

  pub rename_beneficiary-Keeps :
      (id : ℕ) (name nickname : Option ℕ)
      → Keeps (IsSpared c before) (rename_beneficiary id name nickname)
  unfolding rename_beneficiary
  rename_beneficiary-Keeps id name nickname = search spared_rules depth 9

  pub delete_own_beneficiary-Keeps :
      (now id : ℕ) → Keeps (IsSpared c before) (delete_own_beneficiary now id)
  unfolding delete_own_beneficiary
  delete_own_beneficiary-Keeps now id = search spared_rules depth 9

  pub create_schedule-Keeps :
      (id now : ℕ) (me : Customer) (p : ScheduleRequest)
      → Keeps (IsSpared c before) (create_schedule id now me p)
  unfolding create_schedule
  create_schedule-Keeps id now me p = search spared_rules depth 9

  pub cancel_schedule-Keeps :
      (me : Customer) (id : ℕ) → Keeps (IsSpared c before) (cancel_schedule me id)
  unfolding cancel_schedule
  cancel_schedule-Keeps me id = search spared_rules depth 9

  resolve-Keeps :
      (id now : ℕ) (e : Error) (t : Option Transaction)
      → Keeps (IsSpared c before) (resolve (λ d. d) id now e t)
  unfolding resolve
  resolve-Keeps id now e none = search spared_rules
  resolve-Keeps id now e (some t) =
      let quiet = λ (d : Db) (h : IsSpared c before d). h in search (spared_rules, quiet) depth 9

  pub fail_or_report-Keeps :
      (id now : ℕ) (e : Error) → Keeps (IsSpared c before) (fail_or_report (λ _ d. d) id now e)
  unfolding fail_or_report
  fail_or_report-Keeps id now e =
      let quiet = λ (d : Db) (h : IsSpared c before d). h in
      search (spared_rules, resolve-Keeps, quiet) depth 9

  pub give_up-Keeps :
      (hash_otp_code : ℕ → ℕ) (now : ℕ) (me : Customer) (id : ℕ) (r : Reason) (e : Error)
      → Keeps (IsSpared c before) (give_up hash_otp_code now me id r e)
  unfolding give_up
  give_up-Keeps hash_otp_code now me id r e = search spared_rules depth 9

  pub wrong_code-Keeps :
      (hash_otp_code : ℕ → ℕ) (now : ℕ) (me : Customer) (id : ℕ) (k : TransferConfirmation)
      → Keeps (IsSpared c before) (wrong_code hash_otp_code now me id k)
  unfolding wrong_code
  wrong_code-Keeps hash_otp_code now me id k = search (spared_rules, give_up-Keeps) depth 9
