-- ===== src/Tests/Schedules.antt =====
-- The theorems on scheduled payments and on the two sweeps at the sample bank.
use online_banking_system.Prelude.{◌≡◌, refl, true, none, [], ◌∷◌, length}
use online_banking_system.Prelude.Int.{◌+ℤ◌, ◌-ℤ◌}
use online_banking_system.Table.{update, all_rows}
use online_banking_system.Db.{Db, ScheduledPayment, weekly, assertion_failed, insufficient_balance}
use online_banking_system.Db.Constraints.{
  slot_taken, transaction_check, ledger_check, meets_constraints,
}
use online_banking_system.Session.{open_session, try_except, catch_domain_error, ◌>>=◌}
use online_banking_system.Session.Check.{ok, err}
use online_banking_system.Ledger.{shift_balance, posting_entry, post}
use online_banking_system.Transactions.{create, success_row}
use online_banking_system.Transfers.{
  execute_scheduled_transfer, validate_sender, validate_receiver, conversion, settle, verified,
}
use online_banking_system.Transfers.Locked.{locked_checks}
use online_banking_system.Schedules.{
  list_stale, run_all, run_schedule, expire_stale_transactions, charge, run_for,
}
use online_banking_system.Schedules.Stopped.{sweep_stops}
use online_banking_system.Schedules.Expired.{IsSwept, expire_stale_done}
use online_banking_system.Schedules.Advanced.{HasAdvanced, run_schedule-HasAdvanced}
use online_banking_system.Schedules.Overwritten.{HasFailed, expire_overwrites}
use online_banking_system.Tests.Sample.{bank, alice, stamp, settlement, pending_transfer}
use online_banking_system.Tests.Transfers.{by_lock, emptied, opened, valid}

-- 10.00 every week from account 1 to account 2.
abbrev payment : ScheduledPayment
payment = record {
  customer_id = 10;
  sender_account_id = 1;
  receiver_account_number = 1002;
  amount = 1000;
  currency = 1;
  frequency = weekly;
  next_run_at = 40;
  still_active = true;
  last_executed_at = none;
  last_transaction_id = none;
  last_failure_reason = none;
}

abbrev scheduled_bank : Db
scheduled_bank = record (bank 5000 0) { scheduled_payments = (70, payment) ∷ [] }

sweep_stops_example :
    let out =
      run_all
        (λ _. by_lock emptied)
        (λ _. stamp 50)
        ((70, payment) ∷ (71, payment) ∷ [])
        (open_session (bank 5000 0)) in
    (out.0 ≡ err assertion_failed) × (out.1.committed ≡ emptied (bank 5000 0))
unfolding locked_checks create
sweep_stops_example =
    sweep_stops (λ _. by_lock emptied) (λ _. stamp 50) 70 payment ((71, payment) ∷ []) alice
      (bank 5000 0) opened insufficient_balance refl valid refl refl refl

run_schedule-HasAdvanced_example :
    HasAdvanced 70 50 payment
      (run_schedule (λ _ d. d) (stamp 50) (70, payment) (open_session scheduled_bank)).1.committed
unfolding run_schedule run_for charge execute_scheduled_transfer post posting_entry shift_balance
    try_except catch_domain_error ◌>>=◌ meets_constraints all_rows transaction_check ledger_check
    slot_taken update validate_sender validate_receiver conversion locked_checks settle ◌-ℤ◌ ◌+ℤ◌
run_schedule-HasAdvanced_example =
    run_schedule-HasAdvanced (λ _ d. d) (stamp 50) 70 payment alice scheduled_bank true
      (record { found = refl }) refl (λ at d h. h) refl

expire_stale_done_example :
    let out = expire_stale_transactions (λ d. d) 2000 (open_session (bank 5000 0)) in
    (out.0 ≡ ok (length (list_stale 2000 (bank 5000 0).confirmations (bank 5000 0).transactions)))
    × IsSwept 2000 (bank 5000 0) out.1.committed
unfolding meets_constraints all_rows transaction_check ledger_check
expire_stale_done_example = expire_stale_done 2000 (bank 5000 0) refl

expire_overwrites_example :
    let out =
      expire_stale_transactions
        (settle 100 999 true settlement)
        2000
        (open_session (bank 5000 0)) in
    HasFailed 100 out.1.committed
    × (out.1.committed.accounts ≡ (settle 100 999 true settlement (bank 5000 0)).accounts)
unfolding settle post posting_entry shift_balance update meets_constraints all_rows
    transaction_check ledger_check slot_taken ◌-ℤ◌ ◌+ℤ◌ success_row
expire_overwrites_example =
    expire_overwrites (settle 100 999 true settlement) 2000 100 (bank 5000 0) pending_transfer
      (verified true (success_row 999 pending_transfer)) refl refl refl refl refl
