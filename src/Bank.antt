-- ===== src/Bank.antt =====
-- The banking requests as one machine: any of the operations of TransactionService, CardService and
-- ScheduledPaymentService, sign-up, sign-in and profiles, the endpoints of the back office, and the
-- two periodic jobs, each on a session of its own, with other requests that commit while it waits.
pub mod Requests
mod Writes
mod Methods
mod Rows
mod Office
mod Access
mod Schedules
pub mod Reconciled
