-- ===== src/Teller/Outcome.antt =====
-- What deposit and withdraw do, when they succeed and when they raise.
use online_banking_system.Prelude.{ℕ, ◌<◌, ◌≡◌, true, false, some, [], ◌∷◌, arith}
use online_banking_system.Prelude.Int.{pos, ◌≤ℤ◌}
use online_banking_system.Table.{lookup}
use online_banking_system.Db.{Error, insufficient_balance, is_active, Account, debit, credit, Db}
use online_banking_system.Db.Constraints.{slot_taken, transaction_check, meets_constraints}
use online_banking_system.Session.{open_session}
use online_banking_system.Session.Check.{ok, err}
use online_banking_system.Session.Messages.{audit, AuditAction}
use online_banking_system.Session.Atomic.{
  one_write, one_write_done, one_write_refused, one_write_atomic,
}
use online_banking_system.Transactions.{Stamp, new_row}
use online_banking_system.Teller.{
  deposit, withdraw, deposit_row, withdrawal_row, deposit_writes, withdrawal_writes, deposit_checks,
  withdrawal_checks,
}
use online_banking_system.Teller.Movement.{Moved, movement-Moved, movement-accepted}

-- The account at the counter may be used: it is there, active, and in the currency.
pub record IsOpen (id currency : ℕ) (a : Account) (db : Db) : Type 0 where
  pub found : lookup id db.accounts ≡ some a
  pub active : is_active a.status ≡ true
  pub same_currency : a.currency ≡ currency

-- The rows meet their constraints, and the new transaction's id has no ledger entry of this kind.
pub record IsReady (stamp : Stamp) (db : Db) : Type 0 where
  pub met : meets_constraints db ≡ true
  pub no_debit : slot_taken stamp.id debit db.ledger ≡ false
  pub no_credit : slot_taken stamp.id credit db.ledger ≡ false

withdrawal_checks-passed :
    (id n currency : ℕ) (a : Account) (db : Db)
    → IsOpen id currency a db
    → pos n ≤ℤ a.balance
    → withdrawal_checks id n currency db ≡ ok a
unfolding withdrawal_checks
withdrawal_checks-passed id n currency a db o covers = rw o.found (ground arith)

deposit_checks-passed :
    (id currency : ℕ) (a : Account) (db : Db)
    → IsOpen id currency a db
    → deposit_checks id currency db ≡ ok a
unfolding deposit_checks
deposit_checks-passed id currency a db o = rw o.found (ground arith)

well_formed_rows :
    (stamp : Stamp) (id n currency admin : ℕ)
    → 0 < n
    → (transaction_check (new_row stamp (withdrawal_row id n currency admin)) ≡ true)
      × (transaction_check (new_row stamp (deposit_row id n currency admin)) ≡ true)
unfolding transaction_check new_row
well_formed_rows stamp id n currency admin positive = ground arith

module _ (others : Db → Db) (stamp : Stamp) (id n currency admin : ℕ) (db : Db) where
  -- A withdrawal of a positive amount, of at most the balance, from an active account in its
  -- own currency succeeds, in rows that meet the constraints and have no entry under its fresh
  -- id: exactly that movement is committed.
  pub withdraw_done :
      (a : Account)
      → IsOpen id currency a (others db)
      → pos n ≤ℤ a.balance
      → 0 < n
      → IsReady stamp (others db)
      → ((withdraw others stamp id n currency admin (open_session db)).0 ≡ ok stamp.id)
        × Moved debit stamp
            (withdrawal_row id n currency admin)
            id
            a
            (others db)
            (withdraw others stamp id n currency admin (open_session db)).1.committed
  unfolding withdraw one_write
  withdraw_done a o covers positive r =
      let row = withdrawal_row id n currency admin in
      let out =
        one_write_done others (withdrawal_checks id n currency)
          (λ _. withdrawal_writes stamp row id) (audit admin AuditAction.withdrawal id ∷ [])
          stamp.id db a (withdrawal_checks-passed id n currency a (others db) o covers)
          (movement-accepted debit stamp row id a (others db) o.found covers positive
            (well_formed_rows stamp id n currency admin positive).0 r.no_debit r.met) in
      (out.0, rw out.1 (movement-Moved debit stamp row id a (others db) o.found))

  -- A deposit of a positive amount to an active account in its own currency succeeds, in rows
  -- that meet the constraints and have no entry under its fresh id: exactly that movement is
  -- committed.
  pub deposit_done :
      (a : Account)
      → IsOpen id currency a (others db)
      → 0 < n
      → IsReady stamp (others db)
      → ((deposit others stamp id n currency admin (open_session db)).0 ≡ ok stamp.id)
        × Moved credit stamp
            (deposit_row id n currency admin)
            id
            a
            (others db)
            (deposit others stamp id n currency admin (open_session db)).1.committed
  unfolding deposit one_write
  deposit_done a o positive r =
      let row = deposit_row id n currency admin in
      let out =
        one_write_done others (deposit_checks id currency) (λ _. deposit_writes stamp row id)
          (audit admin AuditAction.deposit id ∷ []) stamp.id db a
          (deposit_checks-passed id currency a (others db) o)
          (movement-accepted credit stamp row id a (others db) o.found tt positive
            (well_formed_rows stamp id n currency admin positive).1 r.no_credit r.met) in
      (out.0, rw out.1 (movement-Moved credit stamp row id a (others db) o.found))

  -- A withdrawal of more than the balance of an active account, in its own currency, raises
  -- InsufficientBalanceError and commits nothing.
  pub withdraw_overdraft :
      (a : Account)
      → IsOpen id currency a (others db)
      → ¬ (pos n ≤ℤ a.balance)
      → ((withdraw others stamp id n currency admin (open_session db)).0 ≡ err insufficient_balance)
        × ((withdraw others stamp id n currency admin (open_session db)).1.committed ≡ others db)
  unfolding withdraw one_write withdrawal_checks
  withdraw_overdraft a o short =
      one_write_refused others (withdrawal_checks id n currency)
        (λ _. withdrawal_writes stamp (withdrawal_row id n currency admin) id)
        (audit admin AuditAction.withdrawal id ∷ []) stamp.id db insufficient_balance
        (rw o.found (ground arith))

  -- A deposit that raises, whatever it raises, has committed nothing of its own.
  pub deposit_atomic :
      (e : Error)
      → (deposit others stamp id n currency admin (open_session db)).0 ≡ err e
      → (deposit others stamp id n currency admin (open_session db)).1.committed ≡ others db
  unfolding deposit one_write
  deposit_atomic e =
      one_write_atomic others (deposit_checks id currency)
        (λ _. deposit_writes stamp (deposit_row id n currency admin) id)
        (audit admin AuditAction.deposit id ∷ []) stamp.id db e

  -- A withdrawal that raises, whatever it raises, has committed nothing of its own.
  pub withdraw_atomic :
      (e : Error)
      → (withdraw others stamp id n currency admin (open_session db)).0 ≡ err e
      → (withdraw others stamp id n currency admin (open_session db)).1.committed ≡ others db
  unfolding withdraw one_write
  withdraw_atomic e =
      one_write_atomic others (withdrawal_checks id n currency)
        (λ _. withdrawal_writes stamp (withdrawal_row id n currency admin) id)
        (audit admin AuditAction.withdrawal id ∷ []) stamp.id db e
