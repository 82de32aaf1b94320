-- ===== src/Schedules/Sweep.antt =====
-- ScheduledPaymentService.create and cancel as requests, and _execute_scheduled_payments_async.
use online_banking_system.Prelude.{ℕ, ◌+◌, Bool, true, false, Option, none, some, List, [], ◌∷◌}
use online_banking_system.Table.{lookup}
use online_banking_system.Db.{Error, rule, no_customer, ScheduledPayment, CustomerRow, Db, Customer}
use online_banking_system.Session.Actions.{
  Action, ◌>>=◌, ◌>>◌, pure, check, modify, commit, send, catch_domain_error,
}
use online_banking_system.Session.Check.{Result, ok}
use online_banking_system.Session.Messages.{audit, AuditAction}
use online_banking_system.Transactions.{Stamp}
use online_banking_system.Transfers.{Others, TransferRequest, execute_scheduled_transfer}
use online_banking_system.Schedules.Repository.{
  list_due, create_schedule_row, record_success, record_failure,
}
use online_banking_system.Schedules.Service.{
  ScheduleRequest, schedule_checks, cancel_checks, deactivate,
}

unfoldable pub create_schedule : ℕ → ℕ → Customer → ScheduleRequest → Action ℕ
unfolding schedule_checks create_schedule_row
create_schedule id now customer payload = do
  new ← check (schedule_checks customer payload now)
  modify (create_schedule_row id new)
  commit
  send (audit customer.user_id AuditAction.scheduled_payment_created id ∷ [])
  pure id

unfoldable pub cancel_schedule : Customer → ℕ → Action ℕ
unfolding cancel_checks deactivate
cancel_schedule customer id = do
  schedule ← check (cancel_checks customer id)
  modify (deactivate id)
  commit
  send (audit customer.user_id AuditAction.scheduled_payment_cancelled id ∷ [])
  pure id

-- CustomerRepository.get_by_id: the row unless it is deleted.
abbrev pub present : ℕ → Option CustomerRow → Option Customer
present id none = none
present id (some c) = elim c.deleted_at [
  | none ↦ some (record { id = id; user_id = c.user_id })
  | some _ ↦ none
]

abbrev pub get_customer : ℕ → Db → Result (Option Customer)
get_customer id db = ok (present id (lookup id db.customers))

abbrev pub transfer_request : ScheduledPayment → TransferRequest
transfer_request p = record {
  sender_account_id = p.sender_account_id;
  receiver_account_number = p.receiver_account_number;
  amount = p.amount;
  currency = p.currency;
}

-- A failure is recorded on the schedule. Says that the payment was not executed.
unfoldable pub miss : ℕ → ℕ → ScheduledPayment → Error → Action Bool
unfolding record_failure
miss id now schedule e = do modify (record_failure id now (rule e) schedule); commit; pure false

unfoldable pub charge : Others → Stamp → ℕ → ScheduledPayment → Customer → Action Bool
unfolding execute_scheduled_transfer record_success
charge others stamp id schedule customer = do
  transaction_id ← execute_scheduled_transfer others stamp customer (transfer_request schedule)
  modify (record_success id stamp.now transaction_id schedule)
  commit
  pure true

unfoldable pub run_for : Others → Stamp → ℕ → ScheduledPayment → Option Customer → Action Bool
unfolding charge miss record_failure
run_for others stamp id schedule none = do
  modify (record_failure id stamp.now no_customer schedule)
  commit
  pure false
run_for others stamp id schedule (some customer) =
    catch_domain_error (charge others stamp id schedule customer) (miss id stamp.now schedule)

-- One turn of the loop over the due schedules.
unfoldable pub run_schedule : Others → Stamp → ℕ × ScheduledPayment → Action Bool
unfolding run_for
run_schedule others stamp due = do
  customer ← check (get_customer due.1.customer_id)
  run_for others stamp due.0 due.1 customer

abbrev pub tally : Bool → ℕ × ℕ → ℕ × ℕ
tally true counts = (counts.0 + 1, counts.1)
tally false counts = (counts.0, counts.1 + 1)

-- The loop, with what others commit in each turn and what each turn draws from outside; returns
-- how many payments were executed and how many failed.
unfoldable pub run_all : (ℕ → Others) → (ℕ → Stamp) → List (ℕ × ScheduledPayment) → Action (ℕ × ℕ)
unfolding run_schedule
run_all others stamps [] = pure (0, 0)
run_all others stamps (due ∷ rest) = do
  executed ← run_schedule (others due.0) (stamps due.0) due
  counts ← run_all others stamps rest
  pure (tally executed counts)

unfoldable pub execute_scheduled_payments : (ℕ → Others) → (ℕ → Stamp) → ℕ → Action (ℕ × ℕ)
unfolding list_due run_all
execute_scheduled_payments others stamps now = do
  due ← check (λ db. ok (list_due now db.scheduled_payments))
  run_all others stamps due
