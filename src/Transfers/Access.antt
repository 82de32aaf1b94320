-- ===== src/Transfers/Access.antt =====
-- Who may confirm a transfer or ask for a new code: _get_owned_pending_transaction and
-- _customer_is_sender, with the OTP challenge that resend_otp and confirm_transfer load next.
use online_banking_system.Prelude.{ℕ, Bool, false, none, some, ◌==◌}
use online_banking_system.Table.{lookup}
use online_banking_system.Db.{
  not_found, transaction_already_processed, is_pending, Transaction, TransferConfirmation, Db,
  Customer,
}
use online_banking_system.Session.Check.{Result, ok, ◌>>=◌, ◌>>◌, require, or_raise}

unfoldable pub customer_is_sender : Db → Customer → Transaction → Bool
customer_is_sender db customer t = elim t.sender_account_id [
  | none ↦ false
  | some id ↦ elim (lookup id db.accounts) [
    | none ↦ false
    | some sender ↦ sender.customer_id == customer.id
  ]
]

unfoldable pub get_owned_pending_transaction : Customer → ℕ → Db → Result Transaction
unfolding customer_is_sender
get_owned_pending_transaction customer id db = do
  t ← or_raise (lookup id db.transactions) not_found
  require (customer_is_sender db customer t) not_found
  require (is_pending t.status) transaction_already_processed
  ok t

-- The transaction's OTP challenge, for its sender and while it is pending.
unfoldable pub get_challenge : Customer → ℕ → Db → Result TransferConfirmation
unfolding get_owned_pending_transaction
get_challenge customer id db = do
  owned ← get_owned_pending_transaction customer id db
  or_raise (lookup id db.confirmations) not_found
