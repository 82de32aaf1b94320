-- ===== src/Schedules/Cancelled.antt =====
-- A cancelled scheduled payment.
use online_banking_system.Prelude.{ℕ, ◌≡◌, false, some, arith}
use online_banking_system.Table.{lookup, lookup-update}
use online_banking_system.Db.{ScheduledPayment, Db, Customer}
use online_banking_system.Session.{◌>>=◌, open_session}
use online_banking_system.Session.Check.{ok}
use online_banking_system.Schedules.{is_due, deactivate, cancel_schedule}

-- After a cancellation has returned, the payment is not due at any time.
pub cancelled_never_due :
    (customer : Customer) (id r now : ℕ) (db : Db) (p : ScheduledPayment)
    → (cancel_schedule customer id (open_session db)).0 ≡ ok r
    → lookup id (cancel_schedule customer id (open_session db)).1.committed.scheduled_payments
      ≡ some p
    → is_due now p ≡ false
unfolding cancel_schedule ◌>>=◌ deactivate
cancelled_never_due customer id r now db p returned found =
    ground
      (arith, lookup-update id id (λ q. record q { still_active = false }) db.scheduled_payments)
