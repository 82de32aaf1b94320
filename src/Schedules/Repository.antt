-- ===== src/Schedules/Repository.antt =====
-- ScheduledPaymentRepository.
use online_banking_system.Prelude.{
  ℕ, ◌+◌, ◌*◌, Bool, true, ◌&&◌, none, some, [], ◌∷◌, leb, if◌then◌else◌,
}
use online_banking_system.Table.{Table, insert, update}
use online_banking_system.Db.{
  ScheduledPayment, PaymentFrequency, daily, weekly, monthly, Reason, Db,
}

-- _FREQUENCY_TIMEDELTA: 1, 7 and 30 days
abbrev pub period : PaymentFrequency → ℕ
period daily = 1 * 86400
period weekly = 7 * 86400
period monthly = 30 * 86400

abbrev pub advance_next_run : ℕ → PaymentFrequency → ℕ
advance_next_run current frequency = current + period frequency

abbrev pub is_due : ℕ → ScheduledPayment → Bool
is_due now p = p.still_active && leb p.next_run_at now

-- The rows with is_active and next_run_at <= now.
unfoldable pub list_due : ℕ → Table ScheduledPayment → Table ScheduledPayment
list_due now [] = []
list_due now ((id, p) ∷ t) =
    let rest = list_due now t in if is_due now p then (id, p) ∷ rest else rest

-- The arguments of `create`.
pub record NewSchedule : Type 0 where
  pub customer_id : ℕ
  pub sender_account_id : ℕ
  pub receiver_account_number : ℕ
  pub amount : ℕ
  pub currency : ℕ
  pub frequency : PaymentFrequency
  pub first_run_at : ℕ

abbrev pub new_schedule : NewSchedule → ScheduledPayment
new_schedule p = record {
  customer_id = p.customer_id;
  sender_account_id = p.sender_account_id;
  receiver_account_number = p.receiver_account_number;
  amount = p.amount;
  currency = p.currency;
  frequency = p.frequency;
  next_run_at = p.first_run_at;
  still_active = true;
  last_executed_at = none;
  last_transaction_id = none;
  last_failure_reason = none;
}

unfoldable pub create_schedule_row : ℕ → NewSchedule → Db → Db
create_schedule_row id p db = record db {
  scheduled_payments = insert id (new_schedule p) db.scheduled_payments;
}

-- `read` is the row as the session has it; other columns of the row stay as they are.
abbrev pub succeeded : ℕ → ℕ → ScheduledPayment → ScheduledPayment → ScheduledPayment
succeeded now transaction_id read p = record p {
  last_executed_at = some now;
  last_transaction_id = some transaction_id;
  last_failure_reason = none;
  next_run_at = advance_next_run read.next_run_at read.frequency;
}

abbrev pub missed : ℕ → Reason → ScheduledPayment → ScheduledPayment → ScheduledPayment
missed now reason read p = record p {
  last_executed_at = some now;
  last_failure_reason = some reason;
  next_run_at = advance_next_run read.next_run_at read.frequency;
}

unfoldable pub record_success : ℕ → ℕ → ℕ → ScheduledPayment → Db → Db
record_success id now transaction_id read db = record db {
  scheduled_payments = update id (succeeded now transaction_id read) db.scheduled_payments;
}

unfoldable pub record_failure : ℕ → ℕ → Reason → ScheduledPayment → Db → Db
record_failure id now reason read db = record db {
  scheduled_payments = update id (missed now reason read) db.scheduled_payments;
}
