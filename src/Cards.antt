-- ===== src/Cards.antt =====
-- Debit cards: CardService (backend/app/modules/cards/service.py) and the card numbers of
-- CardRepository (backend/app/modules/cards/repository.py) and Card.mask.
mod Checks
mod Number
pub mod Outcome
pub mod Luhn
unfoldable pub use Checks.*
unfoldable pub use Number.*
use online_banking_system.Prelude.{ℕ, none, some, [], ◌∷◌}
use online_banking_system.Table.{update}
use online_banking_system.Db.{TransactionType, CardStatus, Card, Db, Customer}
use online_banking_system.Session.Actions.{
  Action, continue, ◌>>=◌, ◌>>◌, pure, raise, check, modify, commit, send, wait, try_except,
}
use online_banking_system.Session.Messages.{audit, AuditAction}
use online_banking_system.Transactions.{Stamp, NewTransaction}
use online_banking_system.Teller.{withdrawal_writes}

abbrev pub card_payment_row : ℕ → ℕ → ℕ → ℕ → NewTransaction
card_payment_row account_id amount currency card_id = record {
  transaction_type = TransactionType.card_payment;
  sender_account_id = some account_id;
  receiver_account_id = none;
  amount = amount;
  currency = currency;
  exchange_rate_id = none;
  converted_amount = none;
  performed_by_user_id = none;
  reversal_of_transaction_id = none;
  card_id = some card_id;
}

-- `others` is what other requests commit while the card's and the account's locks are awaited.
unfoldable pub pay_with_card : (Db → Db) → Stamp → Customer → ℕ → ℕ → ℕ → Action ℕ
unfolding payment_checks withdrawal_writes
pay_with_card others stamp customer card_id amount currency =
    try_except
      (do
        wait others
        account_id ← check (payment_checks card_id amount currency)
        modify (
            withdrawal_writes stamp (card_payment_row account_id amount currency card_id)
              account_id)
        commit
        send (audit customer.user_id AuditAction.card_payment card_id ∷ [])
        pure stamp.id)
      raise

unfoldable pub block_card_row : ℕ → ℕ → Db → Db
block_card_row card_id now db = record db {
  cards =
      update card_id (λ c. record c { status = CardStatus.blocked; blocked_at = some now })
        db.cards;
}

-- `card` is the row that get_owned_card loaded.
unfoldable pub block_own_card : Customer → ℕ → ℕ → Card → Action ℕ
unfolding block_checks block_card_row
block_own_card customer now card_id card = do
  check (λ _. block_checks card.status)
  modify (block_card_row card_id now)
  commit
  send (audit customer.user_id AuditAction.customer_card_blocked card_id ∷ [])
  pure card_id
