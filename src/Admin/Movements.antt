-- ===== src/Admin/Movements.antt =====
-- The operations that move money, on whatever accounts, leave the row of an account that is not
-- active as it is.
use online_banking_system.Prelude.{ℕ, ◌≡◌, Bool, false, Option, none, some, List, [], ◌∷◌}
use online_banking_system.Db.{is_active, Error, Account, Transaction, Reason, Db, Customer}
use online_banking_system.Session.{Action, open_session}
use online_banking_system.Session.Keeps.{
  Keeps, Keeps-bind, Keeps-wait, Keeps-try_except, Keeps-raise, keeps_rules, check_write-Holds,
}
use online_banking_system.Transactions.{Stamp, NewTransaction, create, mark_failed}
use online_banking_system.Transfers.{
  Others, Moment, at_lock, after_reload, settle, locked_body, resolve, fail_or_report,
  execute_locked_transfer, TransferRequest, execute_scheduled_transfer,
}
use online_banking_system.Transfers.Locked.{locked_checks}
use online_banking_system.Teller.{
  deposit_checks, withdrawal_checks, deposit_row, withdrawal_row, deposit_writes, withdrawal_writes,
  deposit, withdraw,
}
use online_banking_system.Cards.{payment_checks, card_payment_row, pay_with_card}
use online_banking_system.Reversal.{reversal_writes, reverse_transaction}
use online_banking_system.Reversal.Checks.{reversal_checks}
use online_banking_system.Admin.Resting.{
  Rests, deposit-apart, withdrawal-apart, payment-apart, deposit_writes-Rests,
  withdrawal_writes-Rests, reversal_writes-Rests, settle-Rests,
}

-- The operations of the services that move money; a confirmation ends in an execution.
pub data Movement : Type 0 where
  deposit_on withdraw_from : Stamp → ℕ → ℕ → ℕ → ℕ → Movement
  pay_by : Stamp → Customer → ℕ → ℕ → ℕ → Movement
  undo : Stamp → ℕ → ℕ → Movement
  execute : ℕ → ℕ → Bool → Movement
  run_scheduled : Stamp → Customer → TransferRequest → Movement

abbrev pub perform : Others → Movement → Action ℕ
perform others (deposit_on stamp id amount currency teller) =
    deposit (others at_lock) stamp id amount currency teller
perform others (withdraw_from stamp id amount currency teller) =
    withdraw (others at_lock) stamp id amount currency teller
perform others (pay_by stamp customer card_id amount currency) =
    pay_with_card (others at_lock) stamp customer card_id amount currency
perform others (undo stamp admin tx) = reverse_transaction (others at_lock) stamp admin tx
perform others (execute tx now with_confirmation) =
    execute_locked_transfer others tx now with_confirmation
perform others (run_scheduled stamp customer p) = execute_scheduled_transfer others stamp customer p

-- The committed rows after a sequence of them, each in a session of its own.
unfoldable pub perform_all : Others → List Movement → Db → Db
perform_all others [] db = db
perform_all others (m ∷ ms) db =
    perform_all others ms (perform others m (open_session db)).1.committed

module _ {id : ℕ} {a : Account} (frozen : is_active a.status ≡ false) where
  create-Rests :
      (stamp : Stamp) (row : NewTransaction) (db : Db)
      → Rests id a db
      → Rests id a (create stamp row db)
  unfolding create
  create-Rests stamp row db h = record { found = h.found }

  failed-Rests :
      (tx : ℕ) (r : Reason) (now : ℕ) (db : Db)
      → Rests id a db
      → Rests id a (mark_failed tx r now db)
  unfolding mark_failed
  failed-Rests tx r now db h = record { found = h.found }

  module _ (others : Others)
      (quiet : (at : Moment) (d : Db) → Rests id a d → Rests id a (others at d)) where
    resolve-Keeps :
        (tx now : ℕ) (e : Error) (t : Option Transaction)
        → Keeps (Rests id a) (resolve (others after_reload) tx now e t)
    unfolding resolve
    resolve-Keeps tx now e none = search keeps_rules
    resolve-Keeps tx now e (some t) = search (keeps_rules, failed-Rests, quiet) depth 9

    fail_or_report-Keeps :
        (tx now : ℕ) (e : Error) → Keeps (Rests id a) (fail_or_report others tx now e)
    unfolding fail_or_report
    fail_or_report-Keeps tx now e = search (keeps_rules, resolve-Keeps, quiet) depth 9

    locked_body-Keeps : (tx now : ℕ) (b : Bool) → Keeps (Rests id a) (locked_body others tx now b)
    unfolding locked_body
    locked_body-Keeps tx now b = Keeps-bind _ _ (Keeps-wait _ (quiet at_lock)) (λ _. record {
      at = λ s h.
          check_write-Holds (locked_checks tx) (settle tx now b) _ s
            (λ _. search keeps_rules depth 9)
            (λ t passed. settle-Rests frozen tx now b t s.db passed h.seen) h;
    })

    execute-Keeps :
        (tx now : ℕ) (b : Bool) → Keeps (Rests id a) (execute_locked_transfer others tx now b)
    unfolding execute_locked_transfer
    execute-Keeps tx now b = search (keeps_rules, locked_body-Keeps, fail_or_report-Keeps) depth 9

    deposit-Keeps :
        (stamp : Stamp) (k n currency teller : ℕ)
        → Keeps (Rests id a) (deposit (others at_lock) stamp k n currency teller)
    unfolding deposit
    deposit-Keeps stamp k n currency teller =
        Keeps-try_except _ _
          (Keeps-bind _ _ (Keeps-wait _ (quiet at_lock)) (λ _. record {
            at = λ s h.
                check_write-Holds (deposit_checks k currency)
                  (λ _. deposit_writes stamp (deposit_row k n currency teller) k) _ s
                  (λ _. search keeps_rules depth 9)
                  (λ b passed.
                    deposit_writes-Rests frozen stamp _ k s.db
                      (deposit-apart frozen k currency s.db b passed h.seen) h.seen)
                  h;
          }))
          Keeps-raise

    withdraw-Keeps :
        (stamp : Stamp) (k n currency teller : ℕ)
        → Keeps (Rests id a) (withdraw (others at_lock) stamp k n currency teller)
    unfolding withdraw
    withdraw-Keeps stamp k n currency teller =
        Keeps-try_except _ _
          (Keeps-bind _ _ (Keeps-wait _ (quiet at_lock)) (λ _. record {
            at = λ s h.
                check_write-Holds (withdrawal_checks k n currency)
                  (λ _. withdrawal_writes stamp (withdrawal_row k n currency teller) k) _ s
                  (λ _. search keeps_rules depth 9)
                  (λ b passed.
                    withdrawal_writes-Rests frozen stamp _ k s.db
                      (withdrawal-apart frozen k n currency s.db b passed h.seen) h.seen)
                  h;
          }))
          Keeps-raise

    pay-Keeps :
        (stamp : Stamp) (c : Customer) (card n currency : ℕ)
        → Keeps (Rests id a) (pay_with_card (others at_lock) stamp c card n currency)
    unfolding pay_with_card
    pay-Keeps stamp c card n currency =
        Keeps-try_except _ _
          (Keeps-bind _ _ (Keeps-wait _ (quiet at_lock)) (λ _. record {
            at = λ s h.
                check_write-Holds (payment_checks card n currency)
                  (λ k. withdrawal_writes stamp (card_payment_row k n currency card) k) _ s
                  (λ _. search keeps_rules depth 9)
                  (λ k passed.
                    withdrawal_writes-Rests frozen stamp _ k s.db
                      (payment-apart frozen card n currency k s.db passed h.seen) h.seen)
                  h;
          }))
          Keeps-raise

    undo-Keeps :
        (stamp : Stamp) (admin tx : ℕ)
        → Keeps (Rests id a) (reverse_transaction (others at_lock) stamp admin tx)
    unfolding reverse_transaction
    undo-Keeps stamp admin tx =
        Keeps-try_except _ _
          (Keeps-bind _ _ (Keeps-wait _ (quiet at_lock)) (λ _. record {
            at = λ s h.
                check_write-Holds (reversal_checks tx) (reversal_writes stamp tx admin) _ s
                  (λ _. search keeps_rules depth 9)
                  (λ plan passed.
                    reversal_writes-Rests frozen stamp tx admin plan s.db passed h.seen)
                  h;
          }))
          Keeps-raise

    scheduled-Keeps :
        (stamp : Stamp) (c : Customer) (p : TransferRequest)
        → Keeps (Rests id a) (execute_scheduled_transfer others stamp c p)
    unfolding execute_scheduled_transfer
    scheduled-Keeps stamp c p = search (keeps_rules, create-Rests, execute-Keeps) depth 9

    perform-Keeps : (m : Movement) → Keeps (Rests id a) (perform others m)
    perform-Keeps (deposit_on stamp k n c t) = deposit-Keeps stamp k n c t
    perform-Keeps (withdraw_from stamp k n c t) = withdraw-Keeps stamp k n c t
    perform-Keeps (pay_by stamp c card n cur) = pay-Keeps stamp c card n cur
    perform-Keeps (undo stamp admin tx) = undo-Keeps stamp admin tx
    perform-Keeps (execute tx now b) = execute-Keeps tx now b
    perform-Keeps (run_scheduled stamp c p) = scheduled-Keeps stamp c p

    pub perform_all-Rests :
        (ms : List Movement) (db : Db) → Rests id a db → Rests id a (perform_all others ms db)
    unfolding perform_all
    perform_all-Rests [] db h = h
    perform_all-Rests (m ∷ ms) db h =
        perform_all-Rests ms _
          ((perform-Keeps m).at (open_session db) (record { seen = h; saved = h })).saved
