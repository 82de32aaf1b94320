-- ===== src/Db/Rows.antt =====
-- The columns that the services read or write. Left out are free text (note, merchant name,
-- account type) and created_at.
use online_banking_system.Prelude.{ℕ, Bool, true, false, Option, List}
use online_banking_system.Prelude.Int.{ℤ}
use online_banking_system.Table.{Table}
use online_banking_system.Db.Errors.{Error}

pub data AccountStatus : Type 0 where
  active blocked closed pending : AccountStatus

pub record Account : Type 0 where
  pub customer_id : ℕ
  pub account_number : ℕ
  pub currency : ℕ
  pub balance : ℤ
  pub status : AccountStatus
  pub version : ℕ
  pub closed_at : Option ℕ

-- `status == AccountStatus.ACTIVE`
abbrev pub is_active : AccountStatus → Bool
is_active AccountStatus.active = true
is_active _ = false

pub data TransactionStatus : Type 0 where
  pending success failed reversed : TransactionStatus

abbrev pub is_pending : TransactionStatus → Bool
is_pending TransactionStatus.pending = true
is_pending _ = false

abbrev pub is_success : TransactionStatus → Bool
is_success TransactionStatus.success = true
is_success _ = false

pub data TransactionType : Type 0 where
  transfer deposit withdrawal card_payment : TransactionType

-- The texts that are written to `failure_reason` and `last_failure_reason`; `rule e` is `str(exc)` of a domain error.
pub data Reason : Type 0 where
  otp_timeout otp_attempts housekeeping no_customer : Reason
  rule : Error → Reason

pub record Transaction : Type 0 where
  pub reference_number : ℕ
  pub transaction_type : TransactionType
  pub sender_account_id : Option ℕ
  pub receiver_account_id : Option ℕ
  pub amount : ℕ
  pub currency : ℕ
  pub exchange_rate_id : Option ℕ
  pub converted_amount : Option ℕ
  pub status : TransactionStatus
  pub otp_verified : Bool
  pub failure_reason : Option Reason
  pub performed_by_user_id : Option ℕ
  pub reversal_of_transaction_id : Option ℕ
  pub card_id : Option ℕ
  pub completed_at : Option ℕ

-- Stored under its transaction's id, which is UNIQUE.
pub record TransferConfirmation : Type 0 where
  pub otp_code_hash : ℕ
  pub attempts : ℕ
  pub max_attempts : ℕ
  pub expires_at : ℕ
  pub verified_at : Option ℕ

pub data LedgerEntryType : Type 0 where
  debit credit : LedgerEntryType

pub record LedgerEntry : Type 0 where
  pub transaction_id : ℕ
  pub account_id : ℕ
  pub entry_type : LedgerEntryType
  pub amount : ℕ
  pub currency : ℕ
  pub balance_before : ℤ
  pub balance_after : ℤ

-- `rate` counts units of 10^-8 (NUMERIC(18,8)).
pub record ExchangeRate : Type 0 where
  pub source_currency : ℕ
  pub target_currency : ℕ
  pub rate : ℕ
  pub in_force : Bool
  pub valid_from : ℕ
  pub valid_to : Option ℕ

pub data CardStatus : Type 0 where
  active blocked expired : CardStatus

pub record Card : Type 0 where
  pub account_id : ℕ
  pub masked_card_number : List ℕ
  pub status : CardStatus
  pub blocked_at : Option ℕ
  pub deleted_at : Option ℕ

pub data PaymentFrequency : Type 0 where
  daily weekly monthly : PaymentFrequency

-- `still_active` is the column is_active.
pub record ScheduledPayment : Type 0 where
  pub customer_id : ℕ
  pub sender_account_id : ℕ
  pub receiver_account_number : ℕ
  pub amount : ℕ
  pub currency : ℕ
  pub frequency : PaymentFrequency
  pub next_run_at : ℕ
  pub still_active : Bool
  pub last_executed_at : Option ℕ
  pub last_transaction_id : Option ℕ
  pub last_failure_reason : Option Reason

pub data CustomerStatus : Type 0 where
  active blocked pending_verification : CustomerStatus

-- A row of the customers, by its id.
pub record CustomerRow : Type 0 where
  pub user_id : ℕ
  pub phone_number : ℕ
  pub address : Option ℕ
  pub national_id : Option ℕ
  pub status : CustomerStatus
  pub deleted_at : Option ℕ

pub data UserRole : Type 0 where
  admin customer : UserRole

-- `email` stands for the address in lower case, `enabled` is the column is_active.
pub record User : Type 0 where
  pub email : ℕ
  pub password_hash : ℕ
  pub role : UserRole
  pub enabled : Bool
  pub is_blocked : Bool
  pub email_verified : Bool
  pub last_login_at : Option ℕ
  pub totp_secret : Option ℕ
  pub totp_enabled : Bool
  pub deleted_at : Option ℕ

pub record RefreshToken : Type 0 where
  pub user_id : ℕ
  pub token_hash : ℕ
  pub expires_at : ℕ
  pub revoked_at : Option ℕ
  pub replaced_by_token_id : Option ℕ

-- Stored under its user's id, which is UNIQUE.
pub record RegistrationConfirmation : Type 0 where
  pub otp_code_hash : ℕ
  pub attempts : ℕ
  pub max_attempts : ℕ
  pub expires_at : ℕ
  pub verified_at : Option ℕ

pub data BeneficiaryStatus : Type 0 where
  active deleted : BeneficiaryStatus

pub record Beneficiary : Type 0 where
  pub customer_id : ℕ
  pub account_number : ℕ
  pub name : ℕ
  pub nickname : Option ℕ
  pub status : BeneficiaryStatus
  pub deleted_at : Option ℕ

pub record Db : Type 0 where
  pub accounts : Table Account
  pub transactions : Table Transaction
  pub confirmations : Table TransferConfirmation
  pub ledger : List LedgerEntry
  pub exchange_rates : Table ExchangeRate
  pub cards : Table Card
  pub scheduled_payments : Table ScheduledPayment
  pub customers : Table CustomerRow
  pub users : Table User
  pub refresh_tokens : Table RefreshToken
  pub registrations : Table RegistrationConfirmation
  pub beneficiaries : Table Beneficiary

-- The signed-in customer.
pub record Customer : Type 0 where
  pub id : ℕ
  pub user_id : ℕ
