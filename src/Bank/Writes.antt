-- ===== src/Bank/Writes.antt =====
-- The writes of the requests keep the ledger and the balances reconciled.
use online_banking_system.Prelude.{ℕ, Bool, true, false, Option, none, some, List, [], ◌∷◌}
use online_banking_system.Db.{
  LedgerEntryType, debit, credit, Transaction, TransferConfirmation, Reason, Db, ScheduledPayment,
  housekeeping,
}
use online_banking_system.Session.Keeps.{Holds, Keeps, keeps_rules}
use online_banking_system.Ledger.Reconciliation.{IsReconciled, post-IsReconciled}
use online_banking_system.Transactions.{
  Stamp, NewTransaction, create, create_confirmation, reissue, register_failed_attempt, mark_failed,
  mark_success,
}
use online_banking_system.Transfers.{settle, mark_otp_verified}
use online_banking_system.Transfers.Locked.{Settlement}
use online_banking_system.Teller.{deposit_writes, withdrawal_writes}
use online_banking_system.Reversal.{reversal_row, reversal_writes, post_side}
use online_banking_system.Reversal.Checks.{Reversal}
use online_banking_system.Cards.{block_card_row}
use online_banking_system.Schedules.{
  NewSchedule, create_schedule_row, deactivate, record_success, record_failure, mark_all_failed,
}

-- The writes that touch neither balances nor the ledger, and the postings between them.
module _ {db : Db} (h : IsReconciled db) where
  pub create-IsReconciled :
      (stamp : Stamp) (row : NewTransaction) → IsReconciled (create stamp row db)
  unfolding create
  create-IsReconciled stamp row = record { at = h.at; unused = h.unused }

  pub challenge-IsReconciled : (id hash t : ℕ) → IsReconciled (create_confirmation id hash t db)
  unfolding create_confirmation
  challenge-IsReconciled id hash t = record { at = h.at; unused = h.unused }

  pub reissue-IsReconciled : (id hash t : ℕ) → IsReconciled (reissue id hash t db)
  unfolding reissue
  reissue-IsReconciled id hash t = record { at = h.at; unused = h.unused }

  pub attempt-IsReconciled :
      (id : ℕ) (c : TransferConfirmation) → IsReconciled (register_failed_attempt id c db)
  unfolding register_failed_attempt
  attempt-IsReconciled id c = record { at = h.at; unused = h.unused }

  pub failed-IsReconciled : (id : ℕ) (r : Reason) (now : ℕ) → IsReconciled (mark_failed id r now db)
  unfolding mark_failed
  failed-IsReconciled id r now = record { at = h.at; unused = h.unused }

  pub success-IsReconciled : (id now : ℕ) → IsReconciled (mark_success id now db)
  unfolding mark_success
  success-IsReconciled id now = record { at = h.at; unused = h.unused }

pub block-IsReconciled :
    (id now : ℕ) (db : Db) → IsReconciled db → IsReconciled (block_card_row id now db)
unfolding block_card_row
block-IsReconciled id now db h = record { at = h.at; unused = h.unused }

pub deposit_writes-IsReconciled :
    (stamp : Stamp) (row : NewTransaction) (id : ℕ) (db : Db)
    → IsReconciled db
    → IsReconciled (deposit_writes stamp row id db)
unfolding deposit_writes
deposit_writes-IsReconciled stamp row id db h =
    success-IsReconciled
      (post-IsReconciled credit stamp.id id row.amount row.currency (create stamp row db)
        (create-IsReconciled h stamp row))
      stamp.id stamp.now

pub withdrawal_writes-IsReconciled :
    (stamp : Stamp) (row : NewTransaction) (id : ℕ) (db : Db)
    → IsReconciled db
    → IsReconciled (withdrawal_writes stamp row id db)
unfolding withdrawal_writes
withdrawal_writes-IsReconciled stamp row id db h =
    success-IsReconciled
      (post-IsReconciled debit stamp.id id row.amount row.currency (create stamp row db)
        (create-IsReconciled h stamp row))
      stamp.id stamp.now

pub post_side-IsReconciled :
    (kind : LedgerEntryType) (tx : ℕ) (id : Option ℕ) (t : Transaction) (db : Db)
    → IsReconciled db
    → IsReconciled (post_side kind tx id t db)
unfolding post_side
post_side-IsReconciled kind tx none t db h = h
post_side-IsReconciled kind tx (some id) t db h =
    post-IsReconciled kind tx id t.amount t.currency db h

pub reversal_writes-IsReconciled :
    (stamp : Stamp) (id admin : ℕ) (r : Reversal) (db : Db)
    → IsReconciled db
    → IsReconciled (reversal_writes stamp id admin r db)
unfolding reversal_writes
reversal_writes-IsReconciled stamp id admin r db h =
    let created = create-IsReconciled h stamp (reversal_row r id admin) in
    let debited = post_side-IsReconciled debit stamp.id r.new_sender_id r.original _ created in
    let credited = post_side-IsReconciled credit stamp.id r.new_receiver_id r.original _ debited in
    record { at = credited.at; unused = credited.unused }

pub otp_verified-IsReconciled :
    (b : Bool) (id now : ℕ) (db : Db)
    → IsReconciled db
    → IsReconciled (mark_otp_verified b id now db)
unfolding mark_otp_verified
otp_verified-IsReconciled true id now db h = record { at = h.at; unused = h.unused }
otp_verified-IsReconciled false id now db h = h

pub settle-IsReconciled :
    (id now : ℕ) (b : Bool) (t : Settlement) (db : Db)
    → IsReconciled db
    → IsReconciled (settle id now b t db)
unfolding settle
settle-IsReconciled id now b t db h =
    let debited = post-IsReconciled debit id t.sender_id t.amount t.sender.currency db h in
    let posted =
      post-IsReconciled credit id t.receiver_id t.credit_amount t.receiver.currency _ debited in
    otp_verified-IsReconciled b id now _ (success-IsReconciled posted id now)

module _ {db : Db} (h : IsReconciled db) where
  pub create_schedule_row-IsReconciled :
      (id : ℕ) (p : NewSchedule) → IsReconciled (create_schedule_row id p db)
  unfolding create_schedule_row
  create_schedule_row-IsReconciled id p = record { at = h.at; unused = h.unused }

  pub deactivate-IsReconciled : (id : ℕ) → IsReconciled (deactivate id db)
  unfolding deactivate
  deactivate-IsReconciled id = record { at = h.at; unused = h.unused }

  pub record_success-IsReconciled :
      (id now tx : ℕ) (p : ScheduledPayment) → IsReconciled (record_success id now tx p db)
  unfolding record_success
  record_success-IsReconciled id now tx p = record { at = h.at; unused = h.unused }

  pub record_failure-IsReconciled :
      (id now : ℕ) (r : Reason) (p : ScheduledPayment) → IsReconciled (record_failure id now r p db)
  unfolding record_failure
  record_failure-IsReconciled id now r p = record { at = h.at; unused = h.unused }

pub mark_all_failed-IsReconciled :
    (now : ℕ) (ids : List ℕ) (db : Db) → IsReconciled db → IsReconciled (mark_all_failed now ids db)
unfolding mark_all_failed
mark_all_failed-IsReconciled now [] db h = h
mark_all_failed-IsReconciled now (id ∷ ids) db h =
    mark_all_failed-IsReconciled now ids _ (failed-IsReconciled h id housekeeping now)

pub ruleset reconciled_rules = (
  keeps_rules, create-IsReconciled, challenge-IsReconciled, reissue-IsReconciled,
  attempt-IsReconciled, failed-IsReconciled, deposit_writes-IsReconciled,
  withdrawal_writes-IsReconciled, reversal_writes-IsReconciled, settle-IsReconciled,
  create_schedule_row-IsReconciled, deactivate-IsReconciled, record_success-IsReconciled,
  record_failure-IsReconciled, mark_all_failed-IsReconciled,
)
