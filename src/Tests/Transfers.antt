-- ===== src/Tests/Transfers.antt =====
-- The theorems on transfers and reversals at the sample bank. The hash of a code is the code.
use online_banking_system.Prelude.{ℕ, ◌<◌, ◌≡◌, ◌⊎◌, refl, true, none, some, [], ◌∷◌, arith}
use online_banking_system.Table.{lookup, all_rows}
use online_banking_system.Db.{
  Db, Error, Transaction, TransactionType, transaction_already_processed, insufficient_balance,
  assertion_failed, too_many_otp_attempts, not_found, rule, otp_attempts,
}
use online_banking_system.Db.Constraints.{
  slot_taken, transaction_check, ledger_check, meets_constraints,
}
use online_banking_system.Session.{open_session}
use online_banking_system.Session.Check.{ok, err}
use online_banking_system.Ledger.Conservation.{total}
use online_banking_system.Transactions.{
  NewTransaction, create, failed_row, success_row, mark_failed,
}
use online_banking_system.Transfers.{
  Others, at_lock, after_rollback, after_reload, get_challenge, customer_is_sender,
  initiate_transfer, resend_otp, validate_transfer, validate_sender, validate_receiver, conversion,
  confirm_transfer, execute_locked_transfer, execute_scheduled_transfer,
}
use online_banking_system.Transfers.Locked.{Settlement, locked_checks}
use online_banking_system.Transfers.Settled.{Settles}
use online_banking_system.Transfers.Outcome.{execute_done, execute_too_late, execute_fails}
use online_banking_system.Transfers.Conservation.{IsWithinCurrency, LastSeen, execute_conserves}
use online_banking_system.Transfers.Opening.{Opens, initiate-Opens}
use online_banking_system.Transfers.Guessing.{IsWrong, last_wrong_code}
use online_banking_system.Transfers.Budget.{guess_all, IsLost, guess_budget}
use online_banking_system.Transfers.Authority.{only_sender}
use online_banking_system.Transfers.Standing.{scheduled_failure_lost}
use online_banking_system.Tests.Sample.{
  bank, account, pending_transfer, settlement, challenge, alice, bob, stamp, settings, pay_to,
}

bank_met : meets_constraints (bank 5000 0) ≡ true
unfolding meets_constraints all_rows transaction_check ledger_check slot_taken
bank_met = refl

locked : locked_checks 100 (bank 5000 0) ≡ ok settlement
unfolding locked_checks
locked = refl

execute_done_example :
    let out = execute_locked_transfer (λ _ d. d) 100 50 true (open_session (bank 5000 0)) in
    (out.0 ≡ ok 100)
    × ((row : Transaction) × Settles 100 50 true settlement row (bank 5000 0) out.1.committed)
unfolding slot_taken
execute_done_example =
    execute_done (λ _ d. d) 100 50 true (bank 5000 0) settlement locked (omega arith) (omega arith)
      (omega arith) refl refl bank_met

within : (t : Settlement) → locked_checks 100 (bank 5000 0) ≡ ok t → IsWithinCurrency t
unfolding locked_checks
within t passed = ground arith

execute_conserves_example :
    let after =
      (execute_locked_transfer
        (λ _ d. d)
        100
        50
        true
        (open_session (bank 5000 0))).1.committed.accounts in
    ((t : Settlement) × (locked_checks 100 (bank 5000 0) ≡ ok t)
      × (total 1 after ≡ total 1 (bank 5000 0).accounts))
    ⊎ ((e : Error) × (locked_checks 100 (bank 5000 0) ≡ err e)
        × ((d : Db) × LastSeen (λ _ d. d) (bank 5000 0) d × (total 1 after ≡ total 1 d.accounts)))
execute_conserves_example = execute_conserves (λ _ d. d) 100 50 true (bank 5000 0) 1 within

-- All that others commit is committed by the time of the lock.
abbrev pub by_lock : (Db → Db) → Others
by_lock f at_lock = f
by_lock f after_rollback = λ d. d
by_lock f after_reload = λ d. d

-- Another confirmation of the transfer that is committed while this one waits.
abbrev confirmed : Db → Db
confirmed db = record db { transactions = (100, success_row 49 pending_transfer) ∷ [] }

execute_too_late_example :
    ((execute_locked_transfer (by_lock confirmed) 100 50 true (open_session (bank 5000 0))).0
      ≡ err transaction_already_processed)
    × ((execute_locked_transfer
          (by_lock confirmed)
          100
          50
          true
          (open_session (bank 5000 0))).1.committed
        ≡ confirmed (bank 5000 0))
unfolding success_row
execute_too_late_example =
    execute_too_late (by_lock confirmed) 100 50 true (bank 5000 0) (success_row 49 pending_transfer)
      (success_row 49 pending_transfer) refl refl refl refl

-- Another transfer has emptied the account.
abbrev pub emptied : Db → Db
emptied db = record db { accounts = (1, account 10 1001 1 10) ∷ (2, account 20 1002 1 300) ∷ [] }

-- It has failed under its lock, and is confirmed once more and executed before its failure is written.
abbrev overtaken : Others
overtaken at_lock = emptied
overtaken after_rollback = λ d. d
overtaken after_reload = confirmed

execute_fails_example :
    let out = execute_locked_transfer overtaken 100 50 true (open_session (bank 5000 0)) in
    (out.0 ≡ err insufficient_balance)
    × (out.1.committed
        ≡ mark_failed 100 (rule insufficient_balance) 50 (confirmed (emptied (bank 5000 0))))
    × (lookup 100 out.1.committed.transactions
        ≡ some (failed_row (rule insufficient_balance) 50 (success_row 49 pending_transfer)))
unfolding locked_checks meets_constraints all_rows transaction_check ledger_check success_row
execute_fails_example =
    execute_fails overtaken 100 50 true (bank 5000 0) pending_transfer
      (success_row 49 pending_transfer) insufficient_balance refl refl refl refl refl refl

abbrev pub opened : NewTransaction
opened = record {
  transaction_type = TransactionType.transfer;
  sender_account_id = some 1;
  receiver_account_id = some 2;
  amount = 1000;
  currency = 1;
  exchange_rate_id = none;
  converted_amount = some 1000;
  performed_by_user_id = none;
  reversal_of_transaction_id = none;
  card_id = none;
}

pub valid : validate_transfer (bank 5000 0) alice (pay_to 1002) 50 ≡ ok opened
unfolding validate_transfer validate_sender validate_receiver conversion
valid = refl

initiate-Opens_example :
    let out =
      initiate_transfer settings (stamp 50) 777 alice (pay_to 1002) (open_session (bank 5000 0)) in
    Opens settings (stamp 50) 777 alice (pay_to 1002) opened (bank 5000 0) out.0 out.1.committed
initiate-Opens_example =
    initiate-Opens settings (stamp 50) 777 alice (pay_to 1002) (bank 5000 0) opened valid
      (omega arith) bank_met

challenged : (attempts : ℕ) → get_challenge alice 100 (bank 5000 attempts) ≡ ok (challenge attempts)
unfolding get_challenge
challenged attempts = refl

wrong : (attempts : ℕ) → attempts < 5 → IsWrong (λ n. n) 50 123 (challenge attempts)
wrong attempts left = record { in_time = omega arith; attempts_left = left; differs = omega arith }

met_at : (attempts : ℕ) → meets_constraints (bank 5000 attempts) ≡ true
unfolding meets_constraints all_rows transaction_check ledger_check
met_at attempts = refl

-- The right code was given in another request, which has been executed meanwhile.
last_wrong_code_example :
    let out =
      confirm_transfer
        (λ n. n)
        confirmed
        (λ _ d. d)
        settings
        50
        alice
        100
        123
        (open_session (bank 5000 4)) in
    (out.0 ≡ err too_many_otp_attempts)
    × (lookup 100 out.1.committed.transactions
        ≡ some (failed_row otp_attempts 50 (success_row 49 pending_transfer)))
    × (out.1.committed.accounts ≡ (confirmed (bank 5000 4)).accounts)
unfolding success_row meets_constraints all_rows transaction_check ledger_check
last_wrong_code_example =
    last_wrong_code (λ n. n) confirmed (λ _ d. d) settings 50 alice 100 123 (bank 5000 4)
      (challenge 4) (success_row 49 pending_transfer) (challenged 4) (wrong 4 (omega arith)) refl
      refl refl

guess_budget_example :
    IsLost
      (λ n. n)
      settings
      50
      alice
      100
      (bank 5000 3)
      (guess_all (λ n. n) settings 50 alice 100 (1 ∷ 2 ∷ []) (bank 5000 3))
guess_budget_example =
    guess_budget (λ n. n) settings 50 alice 100 (1 ∷ 2 ∷ []) (challenge 3) (bank 5000 3)
      (challenged 3) (omega arith) (omega arith) (omega arith) refl (met_at 3)

only_sender_example :
    (confirm_transfer
        (λ n. n)
        (λ d. d)
        (λ _ d. d)
        settings
        50
        bob
        100
        777
        (open_session (bank 5000 0))
      ≡ (err not_found, open_session (bank 5000 0)))
    × (resend_otp settings 50 888 bob 100 (open_session (bank 5000 0))
        ≡ (err not_found, open_session (bank 5000 0)))
unfolding customer_is_sender
only_sender_example =
    only_sender (λ n. n) (λ d. d) (λ _ d. d) settings 50 888 777 bob 100 pending_transfer
      (bank 5000 0) refl refl

scheduled_failure_lost_example :
    let out =
      execute_scheduled_transfer
        (by_lock emptied)
        (stamp 50)
        alice
        (pay_to 1002)
        (open_session (bank 5000 0)) in
    (out.0 ≡ err assertion_failed) × (out.1.committed ≡ emptied (bank 5000 0))
unfolding locked_checks create
scheduled_failure_lost_example =
    scheduled_failure_lost (by_lock emptied) (stamp 50) alice (pay_to 1002) (bank 5000 0) opened
      insufficient_balance valid refl refl refl
