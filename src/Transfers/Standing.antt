-- ===== src/Transfers/Standing.antt =====
-- execute_scheduled_transfer when a rule is broken between its validation and its locks.
use online_banking_system.Prelude.{◌≡◌, refl, true, false, none, []}
use online_banking_system.Table.{lookup}
use online_banking_system.Db.{Error, assertion_failed, is_domain_error, Db, Customer}
use online_banking_system.Session.{◌>>=◌, open_session}
use online_banking_system.Session.Check.{ok, err}
use online_banking_system.Transactions.{Stamp, NewTransaction, create}
use online_banking_system.Transfers.{
  Others, at_lock, at_reload, TransferRequest, validate_transfer, resolve,
  execute_scheduled_transfer,
}
use online_banking_system.Transfers.Locked.{locked_checks}
use online_banking_system.Transfers.Outcome.{execute_resolves}

-- The row of a scheduled transfer is flushed and not committed before its execution, so the
-- rollback removes it: when a transfer that passed its validation breaks a rule under the lock
-- (for instance another transfer has emptied the account meanwhile), and its fresh id is not in
-- the rows that others commit, then no FAILED transaction is recorded and the rule's error is not
-- raised. The handler's assertion fails instead, and nothing is committed.
pub scheduled_failure_lost :
    (others : Others) (stamp : Stamp) (customer : Customer) (payload : TransferRequest) (db : Db)
    (new : NewTransaction) (e : Error)
    → validate_transfer db customer payload stamp.now ≡ ok new
    → locked_checks stamp.id (others at_lock (create stamp new db)) ≡ err e
    → is_domain_error e ≡ true
    → lookup stamp.id (at_reload others db).transactions ≡ none
    → let out = execute_scheduled_transfer others stamp customer payload (open_session db) in
      (out.0 ≡ err assertion_failed) × (out.1.committed ≡ at_reload others db)
unfolding execute_scheduled_transfer ◌>>=◌ resolve
scheduled_failure_lost others stamp customer payload db new e valid refused domain fresh =
    rw valid (
      rw
        (execute_resolves others stamp.id stamp.now false
          (record { db = create stamp new db; committed = db; sent = [] }) e refused domain)
        (rw fresh (refl, refl)))
