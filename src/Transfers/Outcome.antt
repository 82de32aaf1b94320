-- ===== src/Transfers/Outcome.antt =====
-- How _execute_locked_transfer ends: executed, failed, or found to be resolved by another request.
use online_banking_system.Prelude.{ℕ, ◌<◌, ◌≡◌, ◌≢◌, refl, ◌∙◌, Bool, true, false, some, arith}
use online_banking_system.Table.{lookup, lookup-update}
use online_banking_system.Db.{
  Error, transaction_already_processed, integrity_error, is_domain_error, is_pending, rule,
  Transaction, debit, credit, Db,
}
use online_banking_system.Db.Constraints.{slot_taken, meets_constraints}
use online_banking_system.Session.{Session, raise, ◌>>=◌, try_except, open_session}
use online_banking_system.Session.Check.{ok, err}
use online_banking_system.Transactions.{failed_row, mark_failed}
use online_banking_system.Transactions.Accepted.{Meets-sound, Meets-complete, mark_failed-accepted}
use online_banking_system.Transfers.{
  Others, at_lock, after_reload, at_reload, at_write, settle, resolve, fail_or_report, locked_body,
  execute_locked_transfer,
}
use online_banking_system.Transfers.Locked.{Settlement, locked_checks}
use online_banking_system.Transfers.Facts.{locked_checks-facts}
use online_banking_system.Transfers.Settled.{Settles, settle-Settles, settle-accepted}

module _ (others : Others) (id now : ℕ) (b : Bool) (s : Session) where
  -- Checks that pass under the lock, and writes that are accepted, are committed together.
  pub execute_settles :
      (t : Settlement)
      → locked_checks id (others at_lock s.db) ≡ ok t
      → meets_constraints (settle id now b t (others at_lock s.db)) ≡ true
      → ((execute_locked_transfer others id now b s).0 ≡ ok id)
        × ((execute_locked_transfer others id now b s).1.committed
            ≡ settle id now b t (others at_lock s.db))
  unfolding execute_locked_transfer locked_body try_except ◌>>=◌
  execute_settles t passed met = rw passed (rw met (refl, refl))

  -- A domain error under the lock is resolved on the rows that others have committed.
  pub execute_resolves :
      (e : Error)
      → locked_checks id (others at_lock s.db) ≡ err e
      → is_domain_error e ≡ true
      → execute_locked_transfer others id now b s
        ≡ resolve
            (others after_reload)
            id
            now
            e
            (lookup id (at_reload others s.committed).transactions)
            (record s {
              db = at_reload others s.committed;
              committed = at_reload others s.committed;
            })
  unfolding execute_locked_transfer locked_body fail_or_report try_except ◌>>=◌
  execute_resolves e refused domain = rw refused (rw domain refl)

module _ (others : Others) (id now : ℕ) (b : Bool) (s : Session) where
  -- Writes that a constraint rejects, and errors that are no domain errors, commit nothing.
  pub execute_breaks :
      (t : Settlement)
      → locked_checks id (others at_lock s.db) ≡ ok t
      → meets_constraints (settle id now b t (others at_lock s.db)) ≡ false
      → ((execute_locked_transfer others id now b s).0 ≡ err integrity_error)
        × ((execute_locked_transfer others id now b s).1.committed ≡ others at_lock s.committed)
  unfolding execute_locked_transfer locked_body try_except ◌>>=◌
  execute_breaks t passed broken = rw passed (rw broken (refl, refl))

  pub execute_crashes :
      (e : Error)
      → locked_checks id (others at_lock s.db) ≡ err e
      → is_domain_error e ≡ false
      → ((execute_locked_transfer others id now b s).0 ≡ err e)
        × ((execute_locked_transfer others id now b s).1.committed ≡ others at_lock s.committed)
  unfolding execute_locked_transfer locked_body try_except ◌>>=◌
  execute_crashes e refused other = rw refused (rw other (refl, refl))

-- The double-confirmation race: if, by the time the lock on the transaction is granted, another
-- request has resolved it (it is no longer PENDING), and it is so too when it is reloaded, nothing
-- more is written and TransactionAlreadyProcessedError is raised.
pub execute_too_late :
    (others : Others) (id now : ℕ) (b : Bool) (db : Db) (row reloaded : Transaction)
    → lookup id (others at_lock db).transactions ≡ some row
    → is_pending row.status ≡ false
    → lookup id (at_reload others db).transactions ≡ some reloaded
    → is_pending reloaded.status ≡ false
    → ((execute_locked_transfer others id now b (open_session db)).0
        ≡ err transaction_already_processed)
      × ((execute_locked_transfer others id now b (open_session db)).1.committed
          ≡ at_reload others db)
unfolding locked_checks resolve raise
execute_too_late others id now b db row reloaded found resolved again still =
    rw
      (execute_resolves others id now b (open_session db) transaction_already_processed
        (rw found (rw resolved)) refl)
      (rw again (rw still (refl, refl)))

-- A transfer that breaks a rule under its lock (an account no longer active, or too little money) and
-- is PENDING when it is reloaded, is committed as FAILED with that rule, in rows that meet the
-- constraints; nothing else changes, and the rule's error is raised. So it is whatever other requests
-- have made of the transaction between the reload, which takes no lock, and the write: also a
-- SUCCESS that another request has committed by then is overwritten.
pub execute_fails :
    (others : Others) (id now : ℕ) (b : Bool) (db : Db) (reloaded row : Transaction) (e : Error)
    → locked_checks id (others at_lock db) ≡ err e
    → is_domain_error e ≡ true
    → lookup id (at_reload others db).transactions ≡ some reloaded
    → is_pending reloaded.status ≡ true
    → lookup id (at_write others db).transactions ≡ some row
    → meets_constraints (at_write others db) ≡ true
    → let out = execute_locked_transfer others id now b (open_session db) in
      (out.0 ≡ err e)
      × (out.1.committed ≡ mark_failed id (rule e) now (at_write others db))
      × (lookup id out.1.committed.transactions ≡ some (failed_row (rule e) now row))
unfolding resolve ◌>>=◌ mark_failed
execute_fails others id now b db reloaded row e refused domain found waiting written met =
    let after = at_write others db in
    let m = Meets-complete after met in
    let accepted : meets_constraints (mark_failed id (rule e) now after) ≡ true =
      Meets-sound (record {
        accounts = m.accounts;
        transactions = mark_failed-accepted after.transactions m.transactions id (rule e) now;
        ledger = m.ledger;
        schedules = m.schedules;
        emails = m.emails;
        national_ids = m.national_ids;
      }) in
    rw (execute_resolves others id now b (open_session db) e refused domain) (
      rw found (
        rw waiting (
          rw accepted (
            refl,
            refl,
            lookup-update id id (failed_row (rule e) now) after.transactions
                ∙ ground (arith, written),
          ))))

-- A transfer that passes the checks under its lock, of positive amounts between two different
-- accounts, with no ledger entry yet and in rows that meet the constraints, succeeds: exactly
-- that movement is committed. The two balances and the transaction's row change, two ledger
-- entries are appended, and every other account and transaction is as it was.
pub execute_done :
    (others : Others) (id now : ℕ) (b : Bool) (db : Db) (t : Settlement)
    → locked_checks id (others at_lock db) ≡ ok t
    → t.sender_id ≢ t.receiver_id
    → 0 < t.amount
    → 0 < t.credit_amount
    → slot_taken id debit (others at_lock db).ledger ≡ false
    → slot_taken id credit (others at_lock db).ledger ≡ false
    → meets_constraints (others at_lock db) ≡ true
    → let out = execute_locked_transfer others id now b (open_session db) in
      (out.0 ≡ ok id)
      × ((row : Transaction) × Settles id now b t row (others at_lock db) out.1.committed)
execute_done others id now b db t passed apart p q no_debit no_credit met =
    let (row, l) = locked_checks-facts id (others at_lock db) t passed in
    let out =
      execute_settles others id now b (open_session db) t passed
        (settle-accepted id now b t row (others at_lock db) l apart p q no_debit no_credit met) in
    (out.0, (row, rw out.1 (settle-Settles id now b t row (others at_lock db) l apart)))
