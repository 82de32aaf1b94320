-- ===== src/Transactions/Confirmations.antt =====
-- TransferConfirmationRepository: the OTP challenge of a transaction.
use online_banking_system.Prelude.{ℕ, ◌+◌, Bool, none, some, leb}
use online_banking_system.Table.{insert, update}
use online_banking_system.Db.{TransferConfirmation, Db}

-- `max_attempts` has the column default 5.
unfoldable pub create_confirmation : ℕ → ℕ → ℕ → Db → Db
create_confirmation transaction_id otp_code_hash expires_at db = record db {
  confirmations =
      insert transaction_id
        (record {
          otp_code_hash = otp_code_hash;
          attempts = 0;
          max_attempts = 5;
          expires_at = expires_at;
          verified_at = none;
        })
        db.confirmations;
}

-- `confirmation.attempts += 1` writes the value computed from the row as it was read.
unfoldable pub register_failed_attempt : ℕ → TransferConfirmation → Db → Db
register_failed_attempt transaction_id read db = record db {
  confirmations =
      update transaction_id (λ c. record c { attempts = read.attempts + 1 }) db.confirmations;
}

unfoldable pub reissue : ℕ → ℕ → ℕ → Db → Db
reissue transaction_id otp_code_hash expires_at db = record db {
  confirmations =
      update transaction_id
        (λ c. record c { otp_code_hash = otp_code_hash; expires_at = expires_at; attempts = 0 })
        db.confirmations;
}

unfoldable pub mark_verified : ℕ → ℕ → Db → Db
mark_verified transaction_id now db = record db {
  confirmations = update transaction_id (λ c. record c { verified_at = some now }) db.confirmations;
}

abbrev pub is_expired : TransferConfirmation → ℕ → Bool
is_expired c now = leb c.expires_at now

abbrev pub attempts_exhausted : TransferConfirmation → Bool
attempts_exhausted c = leb c.max_attempts c.attempts
