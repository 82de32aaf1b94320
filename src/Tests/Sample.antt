-- ===== src/Tests/Sample.antt =====
-- Two customers with three accounts, a pending transfer with its challenge, two cards.
use online_banking_system.Prelude.{ℕ, ◌+◌, true, false, none, some, [], ◌∷◌}
use online_banking_system.Prelude.Int.{pos}
use online_banking_system.Db.{
  Account, AccountStatus, Transaction, TransactionStatus, TransactionType, TransferConfirmation,
  ExchangeRate, Card, CardStatus, CustomerStatus, Db, Customer,
}
use online_banking_system.Session.Messages.{DeliveryChannel}
use online_banking_system.Transactions.{Stamp}
use online_banking_system.Transfers.Locked.{Settlement}
use online_banking_system.Transfers.{Settings, TransferRequest}

abbrev pub account : ℕ → ℕ → ℕ → ℕ → Account
account customer number currency balance = record {
  customer_id = customer;
  account_number = number;
  currency = currency;
  balance = pos balance;
  status = AccountStatus.active;
  version = 0;
  closed_at = none;
}

-- Transaction 100: 25.00 from account 1 to account 2.
abbrev pub pending_transfer : Transaction
pending_transfer = record {
  reference_number = 5;
  transaction_type = TransactionType.transfer;
  sender_account_id = some 1;
  receiver_account_id = some 2;
  amount = 2500;
  currency = 1;
  exchange_rate_id = none;
  converted_amount = some 2500;
  status = TransactionStatus.pending;
  otp_verified = false;
  failure_reason = none;
  performed_by_user_id = none;
  reversal_of_transaction_id = none;
  card_id = none;
  completed_at = none;
}

abbrev pub challenge : ℕ → TransferConfirmation
challenge attempts = record {
  otp_code_hash = 777;
  attempts = attempts;
  max_attempts = 5;
  expires_at = 1000;
  verified_at = none;
}

abbrev pub card : CardStatus → Card
card status = record {
  account_id = 1;
  masked_card_number = [];
  status = status;
  blocked_at = none;
  deleted_at = none;
}

-- One unit of currency 1 is 1.7 of currency 2.
abbrev pub euro_rate : ExchangeRate
euro_rate = record {
  source_currency = 1;
  target_currency = 2;
  rate = 170000000;
  in_force = true;
  valid_from = 10;
  valid_to = none;
}

-- `sender` cents on account 1, and `attempts` wrong codes so far.
abbrev pub bank : ℕ → ℕ → Db
bank sender attempts = record {
  accounts =
      (1, account 10 1001 1 sender) ∷ (2, account 20 1002 1 300) ∷ (3, account 20 1003 2 0) ∷ [];
  transactions = (100, pending_transfer) ∷ [];
  confirmations = (100, challenge attempts) ∷ [];
  ledger = [];
  exchange_rates = (60, euro_rate) ∷ [];
  cards = (7, card CardStatus.active) ∷ (8, card CardStatus.blocked) ∷ [];
  scheduled_payments = [];
  customers =
      (
        10,
        record {
          user_id = 11;
          phone_number = 555;
          address = none;
          national_id = none;
          status = CustomerStatus.active;
          deleted_at = none;
        },
      )
      ∷ [];
  users = [];
  refresh_tokens = [];
  registrations = [];
  beneficiaries = [];
}

-- What the checks under lock find for transaction 100.
abbrev pub settlement : Settlement
settlement = record {
  sender_id = 1;
  receiver_id = 2;
  sender = account 10 1001 1 5000;
  receiver = account 20 1002 1 300;
  amount = 2500;
  credit_amount = 2500;
}

abbrev pub alice : Customer
alice = record { id = 10; user_id = 11 }

abbrev pub bob : Customer
bob = record { id = 20; user_id = 21 }

abbrev pub stamp : ℕ → Stamp
stamp id = record { id = id; reference_number = id + 900; now = 50 }

abbrev pub settings : Settings
settings = record { otp_expire_minutes = 5; otp_delivery_channel = DeliveryChannel.both }

-- From account 1 to the account with this number.
abbrev pub pay_to : ℕ → TransferRequest
pay_to number = record {
  sender_account_id = 1;
  receiver_account_number = number;
  amount = 1000;
  currency = 1;
}
