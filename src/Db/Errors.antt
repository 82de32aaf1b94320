-- ===== src/Db/Errors.antt =====
-- The exceptions that the services raise: the `DomainError` classes of
-- backend/app/core/exceptions.py, and the three that are no domain errors.
use online_banking_system.Prelude.{ℕ, Bool, true, false}

pub data Error : Type 0 where
  not_found conflict account_not_active currency_mismatch same_account_transfer : Error
  insufficient_balance exchange_rate_not_found otp_expired too_many_otp_attempts : Error
  transaction_already_processed transaction_not_reversible : Error
  invalid_otp : ℕ → Error
  unauthorized forbidden invalid_credentials account_blocked email_already_registered : Error
  email_not_verified registration_already_confirmed registration_otp_expired : Error
  registration_otp_max_attempts invalid_refresh_token invalid_reset_token : Error
  two_factor_already_enabled two_factor_not_enabled two_factor_setup_not_started : Error
  invalid_totp_code mfa_challenge_invalid : Error
  registration_otp_invalid : ℕ → Error
  assertion_failed key_error integrity_error : Error

-- `isinstance(exc, DomainError)`
abbrev pub is_domain_error : Error → Bool
is_domain_error assertion_failed = false
is_domain_error key_error = false
is_domain_error integrity_error = false
is_domain_error _ = true
