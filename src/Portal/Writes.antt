-- ===== src/Portal/Writes.antt =====
-- The writes of the services on behalf of a customer keep what IsSpared says.
use online_banking_system.Prelude.{ℕ, true, false, Bool}
use online_banking_system.Db.{
  debit, credit, TransferConfirmation, Reason, Db, Beneficiary, CustomerRow,
}
use online_banking_system.Session.Keeps.{keeps_rules}
use online_banking_system.Transactions.{
  Stamp, NewTransaction, create, create_confirmation, reissue, register_failed_attempt, mark_failed,
  mark_success,
}
use online_banking_system.Transfers.{settle, mark_otp_verified}
use online_banking_system.Transfers.Locked.{Settlement}
use online_banking_system.Teller.{withdrawal_writes}
use online_banking_system.Cards.{block_card_row}
use online_banking_system.Accounts.{update_customer}
use online_banking_system.Beneficiaries.{create_beneficiary_row, update_beneficiary}
use online_banking_system.Schedules.{NewSchedule, create_schedule_row, deactivate}
use online_banking_system.Portal.Spared.{IsSpared, May, post-IsSpared}

module _ {c : ℕ} {before db : Db} (h : IsSpared c before db) where
  pub create-IsSpared :
      (stamp : Stamp) (row : NewTransaction) → IsSpared c before (create stamp row db)
  unfolding create
  create-IsSpared stamp row = record { at = h.at }

  pub challenge-IsSpared : (id hash t : ℕ) → IsSpared c before (create_confirmation id hash t db)
  unfolding create_confirmation
  challenge-IsSpared id hash t = record { at = h.at }

  pub reissue-IsSpared : (id hash t : ℕ) → IsSpared c before (reissue id hash t db)
  unfolding reissue
  reissue-IsSpared id hash t = record { at = h.at }

  pub attempt-IsSpared :
      (id : ℕ) (k : TransferConfirmation) → IsSpared c before (register_failed_attempt id k db)
  unfolding register_failed_attempt
  attempt-IsSpared id k = record { at = h.at }

  pub failed-IsSpared :
      (id : ℕ) (r : Reason) (now : ℕ) → IsSpared c before (mark_failed id r now db)
  unfolding mark_failed
  failed-IsSpared id r now = record { at = h.at }

  pub success-IsSpared : (id now : ℕ) → IsSpared c before (mark_success id now db)
  unfolding mark_success
  success-IsSpared id now = record { at = h.at }

  pub block-IsSpared : (id now : ℕ) → IsSpared c before (block_card_row id now db)
  unfolding block_card_row
  block-IsSpared id now = record { at = h.at }

  pub profile-IsSpared :
      (id : ℕ) (f : CustomerRow → CustomerRow) → IsSpared c before (update_customer id f db)
  unfolding update_customer
  profile-IsSpared id f = record { at = h.at }

  pub new_beneficiary-IsSpared :
      (id : ℕ) (b : Beneficiary) → IsSpared c before (create_beneficiary_row id b db)
  unfolding create_beneficiary_row
  new_beneficiary-IsSpared id b = record { at = h.at }

  pub beneficiary-IsSpared :
      (id : ℕ) (f : Beneficiary → Beneficiary) → IsSpared c before (update_beneficiary id f db)
  unfolding update_beneficiary
  beneficiary-IsSpared id f = record { at = h.at }

  pub new_schedule-IsSpared :
      (id : ℕ) (p : NewSchedule) → IsSpared c before (create_schedule_row id p db)
  unfolding create_schedule_row
  new_schedule-IsSpared id p = record { at = h.at }

  pub deactivate-IsSpared : (id : ℕ) → IsSpared c before (deactivate id db)
  unfolding deactivate
  deactivate-IsSpared id = record { at = h.at }

otp_verified-IsSpared :
    (b : Bool) (id now c : ℕ) (before db : Db)
    → IsSpared c before db
    → IsSpared c before (mark_otp_verified b id now db)
unfolding mark_otp_verified
otp_verified-IsSpared true id now c before db h = record { at = h.at }
otp_verified-IsSpared false id now c before db h = h

-- An executed transfer from an account of `c`.
pub settle-IsSpared :
    (id now c : ℕ) (b : Bool) (t : Settlement) (before db : Db)
    → May debit c t.sender_id db
    → IsSpared c before db
    → IsSpared c before (settle id now b t db)
unfolding settle
settle-IsSpared id now c b t before db may h =
    let debited = post-IsSpared debit id t.sender_id t.amount t.sender.currency c before db may h in
    let posted =
      post-IsSpared credit id t.receiver_id t.credit_amount t.receiver.currency c before _ tt
        debited in
    otp_verified-IsSpared b id now c before _ (success-IsSpared posted id now)

-- A payment from an account of `c`.
pub withdrawal-IsSpared :
    (stamp : Stamp) (row : NewTransaction) (id c : ℕ) (before db : Db)
    → May debit c id db
    → IsSpared c before db
    → IsSpared c before (withdrawal_writes stamp row id db)
unfolding withdrawal_writes create
withdrawal-IsSpared stamp row id c before db may h =
    success-IsSpared
      (post-IsSpared debit stamp.id id row.amount row.currency c before (create stamp row db) may
        (create-IsSpared h stamp row))
      stamp.id stamp.now

pub ruleset spared_rules = (
  keeps_rules, create-IsSpared, challenge-IsSpared, reissue-IsSpared, attempt-IsSpared,
  failed-IsSpared, block-IsSpared, profile-IsSpared, new_beneficiary-IsSpared, beneficiary-IsSpared,
  new_schedule-IsSpared, deactivate-IsSpared,
)
