-- ===== src/Schedules/Stopped.antt =====
-- The sweep of scheduled payments when one of them breaks a rule under its locks.
use online_banking_system.Prelude.{ℕ, ◌≡◌, refl, true, none, some, List, ◌∷◌}
use online_banking_system.Table.{lookup}
use online_banking_system.Db.{
  Error, assertion_failed, is_domain_error, ScheduledPayment, Db, Customer,
}
use online_banking_system.Session.{◌>>=◌, catch_domain_error, open_session}
use online_banking_system.Session.Check.{ok, err}
use online_banking_system.Transactions.{Stamp, NewTransaction, create}
use online_banking_system.Transfers.{Others, at_lock, at_reload, validate_transfer}
use online_banking_system.Transfers.Locked.{locked_checks}
use online_banking_system.Transfers.Standing.{scheduled_failure_lost}
use online_banking_system.Schedules.{
  present, transfer_request, charge, run_for, run_schedule, run_all,
}

-- One scheduled payment of a known customer that passes its validation and then breaks a rule
-- under its locks, with a fresh transaction id, stops a sweep that starts with it: the assertion
-- error is raised, the payments after it in the list are not run, and nothing is committed, not
-- even the failure of this payment.
pub sweep_stops :
    (others : ℕ → Others) (stamps : ℕ → Stamp) (id : ℕ) (p : ScheduledPayment)
    (rest : List (ℕ × ScheduledPayment)) (customer : Customer) (db : Db) (new : NewTransaction)
    (e : Error)
    → present p.customer_id (lookup p.customer_id db.customers) ≡ some customer
    → validate_transfer db customer (transfer_request p) (stamps id).now ≡ ok new
    → locked_checks (stamps id).id (others id at_lock (create (stamps id) new db)) ≡ err e
    → is_domain_error e ≡ true
    → lookup (stamps id).id (at_reload (others id) db).transactions ≡ none
    → let out = run_all others stamps ((id, p) ∷ rest) (open_session db) in
      (out.0 ≡ err assertion_failed) × (out.1.committed ≡ at_reload (others id) db)
unfolding run_all run_schedule run_for charge catch_domain_error ◌>>=◌
sweep_stops others stamps id p rest customer db new e known valid refused domain fresh =
    let lost =
      scheduled_failure_lost (others id) (stamps id) customer (transfer_request p) db new e valid
        refused domain fresh in
    rw known (rw lost.0 (refl, lost.1))
