-- ===== src/Schedules/Standing.antt =====
-- The execution of a transfer leaves the rows of the scheduled payments as they are.
use online_banking_system.Prelude.{ℕ, ◌≡◌, Bool, Option, none, some}
use online_banking_system.Table.{lookup}
use online_banking_system.Db.{
  Error, debit, credit, ScheduledPayment, Transaction, Reason, Db, Customer,
}
use online_banking_system.Session.Keeps.{Keeps, keeps_rules}
use online_banking_system.Ledger.{post}
use online_banking_system.Ledger.Posting.{scheduled_payments-post}
use online_banking_system.Transactions.{Stamp, NewTransaction, create, mark_failed, mark_success}
use online_banking_system.Transfers.{
  Others, Moment, TransferRequest, settle, resolve, fail_or_report, execute_locked_transfer,
  execute_scheduled_transfer,
}
use online_banking_system.Transfers.Locked.{Settlement}
use online_banking_system.Transfers.Settled.{scheduled_payments-verified}

pub record HasSchedule (id : ℕ) (p : ScheduledPayment) (db : Db) : Type 0 where
  pub found : lookup id db.scheduled_payments ≡ some p

module _ (k : ℕ) (p : ScheduledPayment) where
  create-HasSchedule :
      {db : Db}
      → HasSchedule k p db
      → (stamp : Stamp) (row : NewTransaction) → HasSchedule k p (create stamp row db)
  unfolding create
  create-HasSchedule h stamp row = record { found = h.found }

  failed-HasSchedule :
      {db : Db}
      → HasSchedule k p db
      → (id : ℕ) (r : Reason) (now : ℕ) → HasSchedule k p (mark_failed id r now db)
  unfolding mark_failed
  failed-HasSchedule h id r now = record { found = h.found }

  settle-HasSchedule :
      (id now : ℕ) (b : Bool) (t : Settlement) (db : Db)
      → HasSchedule k p db
      → HasSchedule k p (settle id now b t db)
  unfolding settle mark_success
  settle-HasSchedule id now b t db h =
      let debited = post debit id t.sender_id t.amount t.sender.currency db in
      let posted = post credit id t.receiver_id t.credit_amount t.receiver.currency debited in
      record {
        found = rw (scheduled_payments-verified b id now (mark_success id now posted)) (
            rw
              (scheduled_payments-post credit id t.receiver_id t.credit_amount t.receiver.currency
                debited)
              (rw (scheduled_payments-post debit id t.sender_id t.amount t.sender.currency db)
                h.found));
      }

  ruleset schedule_rules = (keeps_rules, create-HasSchedule, failed-HasSchedule, settle-HasSchedule)

  resolve-Keeps :
      (later : Db → Db) (id now : ℕ) (e : Error) (t : Option Transaction)
      → ((db : Db) → HasSchedule k p db → HasSchedule k p (later db))
      → Keeps (HasSchedule k p) (resolve later id now e t)
  unfolding resolve
  resolve-Keeps later id now e none q = search schedule_rules
  resolve-Keeps later id now e (some t) q = search schedule_rules depth 9

  fail_or_report-Keeps :
      (others : Others) (id now : ℕ) (e : Error)
      → ((at : Moment) (db : Db) → HasSchedule k p db → HasSchedule k p (others at db))
      → Keeps (HasSchedule k p) (fail_or_report others id now e)
  unfolding fail_or_report
  fail_or_report-Keeps others id now e q = search (schedule_rules, resolve-Keeps) depth 9

  execute_locked_transfer-Keeps :
      (others : Others) (id now : ℕ) (b : Bool)
      → ((at : Moment) (db : Db) → HasSchedule k p db → HasSchedule k p (others at db))
      → Keeps (HasSchedule k p) (execute_locked_transfer others id now b)
  unfolding execute_locked_transfer
  execute_locked_transfer-Keeps others id now b q =
      search (schedule_rules, fail_or_report-Keeps) depth 9

  pub scheduled_transfer-Keeps :
      (others : Others) (stamp : Stamp) (c : Customer) (payload : TransferRequest)
      → ((at : Moment) (db : Db) → HasSchedule k p db → HasSchedule k p (others at db))
      → Keeps (HasSchedule k p) (execute_scheduled_transfer others stamp c payload)
  unfolding execute_scheduled_transfer
  scheduled_transfer-Keeps others stamp c payload q =
      search (schedule_rules, execute_locked_transfer-Keeps) depth 9
