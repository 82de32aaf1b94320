-- ===== src/Tests/Reversals.antt =====
-- The theorems on reversals and on sequences of requests at the sample bank.
use online_banking_system.Prelude.{none, some, ℕ, ◌≡◌, ◌↔◌, refl, true, [], ◌∷◌, arith}
use online_banking_system.Prelude.Int.{pos, ◌+ℤ◌, ◌-ℤ◌}
use online_banking_system.Table.{update, all_rows}
use online_banking_system.Db.{AccountStatus, transaction_not_reversible, Db}
use online_banking_system.Db.Constraints.{
  slot_taken, transaction_check, ledger_check, meets_constraints,
}
use online_banking_system.Session.{open_session, try_except, ◌>>=◌}
use online_banking_system.Session.Check.{ok, err}
use online_banking_system.Ledger.{shift_balance, posting_entry, post, net}
use online_banking_system.Ledger.Reconciliation.{IsReconciled}
use online_banking_system.Transfers.{settle}
use online_banking_system.Transfers.Facts.{IsLocked}
use online_banking_system.Transfers.Settled.{settle-Settles}
use online_banking_system.Reversal.{reverse_transaction}
use online_banking_system.Reversal.Outcome.{reverse_once}
use online_banking_system.Reversal.Restoration.{HasBalances, reversal_restores_iff}
use online_banking_system.Admin.{open_account, set_account_status}
use online_banking_system.Auth.{log_in}
use online_banking_system.Tests.Keys.{crypto, signed_in_bank, token_settings, draw}
use online_banking_system.Bank.Requests.{
  Requests, confirm, deposit_cash, initiate, reverse, session_request, office_accounts, done, then,
  serve_all,
}
use online_banking_system.Bank.Reconciled.{serve_all-IsReconciled}
use online_banking_system.Tests.Sample.{
  bank, account, pending_transfer, settlement, alice, stamp, settings, pay_to,
}

abbrev executed : Db
executed = settle 100 50 true settlement (bank 5000 0)

locked : IsLocked 100 (bank 5000 0) settlement pending_transfer
locked = record {
  found = refl;
  waiting = refl;
  from = refl;
  to = refl;
  debited = refl;
  credited = refl;
  sender = refl;
  receiver = refl;
  sender_active = refl;
  receiver_active = refl;
  covered = omega arith;
}

reversed : (reverse_transaction (λ d. d) (stamp 200) 99 100 (open_session executed)).0 ≡ ok 200
unfolding reverse_transaction settle post posting_entry shift_balance try_except ◌>>=◌
    meets_constraints all_rows transaction_check ledger_check slot_taken update ◌+ℤ◌ ◌-ℤ◌
reversed = refl

reverse_once_example :
    let after =
      (reverse_transaction (λ d. d) (stamp 200) 99 100 (open_session executed)).1.committed in
    let out = reverse_transaction (λ d. d) (stamp 201) 99 100 (open_session after) in
    (out.0 ≡ err transaction_not_reversible) × (out.1.committed ≡ after)
reverse_once_example = reverse_once (λ d. d) (stamp 200) (stamp 201) 99 100 200 executed reversed

reversal_restores_iff_example :
    HasBalances settlement
      (pos 5000)
      (pos 300)
      (reverse_transaction (λ d. d) (stamp 200) 99 100 (open_session executed)).1.committed
    ↔ (◌≡◌ {A = ℕ} 2500 2500)
reversal_restores_iff_example =
    reversal_restores_iff 100 50 true settlement pending_transfer (bank 5000 0) executed (stamp 200)
      99 200 locked refl (omega arith)
      (settle-Settles 100 50 true settlement pending_transfer (bank 5000 0) locked (omega arith))
      reversed

-- A bank that has not begun to work.
abbrev new_bank : Db
new_bank = record (bank 0 0) {
  accounts = (1, account 10 1001 1 0) ∷ (2, account 20 1002 1 0) ∷ [];
  transactions = [];
  confirmations = [];
  users = signed_in_bank.users;
}

new_bank-IsReconciled : IsReconciled new_bank
unfolding net
new_bank-IsReconciled = record { at = λ id a e. ground arith; unused = λ id e. refl }

-- A deposit, a transfer that is confirmed twice at the same time, and its reversal; a login, and an
-- account that the back office opens, and one that it blocks.
abbrev busy_day : Requests
busy_day =
    let paid = then done (deposit_cash done (stamp 50) 1 5000 1 99) in
    let started = then paid (initiate settings (stamp 51) 2777 alice (pay_to 1002)) in
    let twice = then started (
      confirm done (λ _. then done (confirm done (λ _. done) settings 60 alice 51 777)) settings 60
        alice 51 777) in
    let undone = then twice (reverse done (stamp 52) 99 51) in
    let entered =
      then undone (session_request done true token_settings 70 none (log_in (draw 41) 71 500)) in
    let opened = then entered (office_accounts done 75 (some 2) (open_account 3 1003 10 1)) in
    then opened (office_accounts done 80 (some 2) (set_account_status 80 1 AccountStatus.blocked))

serve_all-IsReconciled_example : IsReconciled (serve_all crypto busy_day new_bank)
serve_all-IsReconciled_example =
    serve_all-IsReconciled crypto busy_day new_bank new_bank-IsReconciled
