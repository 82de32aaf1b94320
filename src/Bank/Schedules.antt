-- ===== src/Bank/Schedules.antt =====
-- Scheduled payments and the two sweeps keep the ledger and the balances reconciled.
use online_banking_system.Prelude.{ℕ, Option, none, some, List, [], ◌∷◌}
use online_banking_system.Db.{Error, Db, Customer, ScheduledPayment}
use online_banking_system.Session.Keeps.{Keeps, Keeps-bind, Keeps-check, Keeps-pure}
use online_banking_system.Ledger.Reconciliation.{IsReconciled}
use online_banking_system.Transactions.{Stamp}
use online_banking_system.Transfers.{Others}
use online_banking_system.Schedules.{
  ScheduleRequest, create_schedule, cancel_schedule, charge, miss, run_for, run_schedule, run_all,
  execute_scheduled_payments, expire_stale_transactions,
}
use online_banking_system.Bank.Writes.{reconciled_rules}
use online_banking_system.Bank.Methods.{Calm, Quiet, execute_scheduled_transfer-Keeps}

pub create_schedule-Keeps :
    (id now : ℕ) (c : Customer) (p : ScheduleRequest)
    → Keeps IsReconciled (create_schedule id now c p)
unfolding create_schedule
create_schedule-Keeps id now c p = search reconciled_rules depth 9

pub cancel_schedule-Keeps : (c : Customer) (id : ℕ) → Keeps IsReconciled (cancel_schedule c id)
unfolding cancel_schedule
cancel_schedule-Keeps c id = search reconciled_rules depth 9

pub expire_stale_transactions-Keeps :
    (others : Db → Db) (now : ℕ)
    → Quiet others
    → Keeps IsReconciled (expire_stale_transactions others now)
unfolding expire_stale_transactions
expire_stale_transactions-Keeps others now q = search reconciled_rules depth 9

pub charge-Keeps :
    (others : Others) (stamp : Stamp) (id : ℕ) (p : ScheduledPayment) (c : Customer)
    → Calm others
    → Keeps IsReconciled (charge others stamp id p c)
unfolding charge
charge-Keeps others stamp id p c q =
    search (reconciled_rules, execute_scheduled_transfer-Keeps) depth 9

pub miss-Keeps :
    (id now : ℕ) (p : ScheduledPayment) (e : Error) → Keeps IsReconciled (miss id now p e)
unfolding miss
miss-Keeps id now p e = search reconciled_rules depth 9

pub run_for-Keeps :
    (others : Others) (stamp : Stamp) (id : ℕ) (p : ScheduledPayment) (c : Option Customer)
    → Calm others
    → Keeps IsReconciled (run_for others stamp id p c)
unfolding run_for
run_for-Keeps others stamp id p none q = search reconciled_rules depth 9
run_for-Keeps others stamp id p (some c) q =
    search (reconciled_rules, charge-Keeps, miss-Keeps) depth 9

pub run_schedule-Keeps :
    (others : Others) (stamp : Stamp) (due : ℕ × ScheduledPayment)
    → Calm others
    → Keeps IsReconciled (run_schedule others stamp due)
unfolding run_schedule
run_schedule-Keeps others stamp due q = search (reconciled_rules, run_for-Keeps) depth 9

pub run_all-Keeps :
    (others : ℕ → Others) (stamps : ℕ → Stamp) (due : List (ℕ × ScheduledPayment))
    → ((id : ℕ) → Calm (others id))
    → Keeps IsReconciled (run_all others stamps due)
unfolding run_all
run_all-Keeps others stamps [] q = search reconciled_rules depth 9
run_all-Keeps others stamps (p ∷ due) q =
    Keeps-bind _ _ (run_schedule-Keeps (others p.0) (stamps p.0) p (q p.0))
      (λ b. Keeps-bind _ _ (run_all-Keeps others stamps due q) (λ counts. Keeps-pure _))

pub execute_scheduled_payments-Keeps :
    (others : ℕ → Others) (stamps : ℕ → Stamp) (now : ℕ)
    → ((id : ℕ) → Calm (others id))
    → Keeps IsReconciled (execute_scheduled_payments others stamps now)
unfolding execute_scheduled_payments
execute_scheduled_payments-Keeps others stamps now q =
    Keeps-bind _ _ (Keeps-check _) (λ due. run_all-Keeps others stamps due q)
