-- ===== src/Schedules/Service.antt =====
-- ScheduledPaymentService.create and cancel.
use online_banking_system.Prelude.{ℕ, false, Option, none, some, ◌==◌}
use online_banking_system.Table.{lookup, update}
use online_banking_system.Db.{
  not_found, account_not_active, currency_mismatch, is_active, PaymentFrequency, ScheduledPayment,
  Db, Customer,
}
use online_banking_system.Session.Check.{Result, ok, ◌>>=◌, ◌>>◌, require, or_raise}
use online_banking_system.Schedules.Repository.{NewSchedule}

-- CreateScheduledPaymentRequest
pub record ScheduleRequest : Type 0 where
  pub sender_account_id : ℕ
  pub receiver_account_number : ℕ
  pub amount : ℕ
  pub currency : ℕ
  pub frequency : PaymentFrequency
  pub start_at : Option ℕ

-- `payload.start_at or datetime.now(timezone.utc)`
abbrev pub first_run : Option ℕ → ℕ → ℕ
first_run none now = now
first_run (some t) now = t

unfoldable pub schedule_checks : Customer → ScheduleRequest → ℕ → Db → Result NewSchedule
schedule_checks customer p now db = do
  sender ← or_raise (lookup p.sender_account_id db.accounts) not_found
  require (sender.customer_id == customer.id) not_found
  require (is_active sender.status) account_not_active
  require (p.currency == sender.currency) currency_mismatch
  ok (record {
    customer_id = customer.id;
    sender_account_id = p.sender_account_id;
    receiver_account_number = p.receiver_account_number;
    amount = p.amount;
    currency = p.currency;
    frequency = p.frequency;
    first_run_at = first_run p.start_at now;
  })

unfoldable pub cancel_checks : Customer → ℕ → Db → Result ScheduledPayment
cancel_checks customer id db = do
  schedule ← or_raise (lookup id db.scheduled_payments) not_found
  require (schedule.customer_id == customer.id) not_found
  ok schedule

unfoldable pub deactivate : ℕ → Db → Db
deactivate id db = record db {
  scheduled_payments = update id (λ p. record p { still_active = false }) db.scheduled_payments;
}
