-- ===== src/Db/Responses.antt =====
-- The HTTP status of an exception: the class hierarchy and the handlers of
-- backend/app/core/exceptions.py.
use online_banking_system.Prelude.{ℕ, ◌≡◌, refl, ◌&&◌, Option, none, some, ltb, leb}
use online_banking_system.Db.Errors.{
  Error, is_domain_error, not_found, conflict, account_not_active, currency_mismatch,
  same_account_transfer, insufficient_balance, exchange_rate_not_found, otp_expired,
  too_many_otp_attempts, transaction_already_processed, transaction_not_reversible, invalid_otp,
  unauthorized, forbidden, invalid_credentials, account_blocked, email_already_registered,
  email_not_verified, registration_already_confirmed, registration_otp_expired,
  registration_otp_max_attempts, invalid_refresh_token, invalid_reset_token,
  two_factor_already_enabled, two_factor_not_enabled, two_factor_setup_not_started,
  invalid_totp_code, mfa_challenge_invalid, registration_otp_invalid, assertion_failed, key_error,
  integrity_error,
}

-- The classes that set a status code.
pub data ErrorClass : Type 0 where
  domain_error not_found_error conflict_error unauthorized_error forbidden_error : ErrorClass

abbrev pub class_status : ErrorClass → ℕ
class_status ErrorClass.domain_error = 400
class_status ErrorClass.not_found_error = 404
class_status ErrorClass.conflict_error = 409
class_status ErrorClass.unauthorized_error = 401
class_status ErrorClass.forbidden_error = 403

-- The class that a domain error inherits its status from.
unfoldable pub error_class : Error → Option ErrorClass
error_class not_found = some ErrorClass.not_found_error
error_class same_account_transfer = some ErrorClass.domain_error
error_class currency_mismatch = some ErrorClass.domain_error
error_class unauthorized = some ErrorClass.unauthorized_error
error_class invalid_credentials = some ErrorClass.unauthorized_error
error_class registration_otp_expired = some ErrorClass.unauthorized_error
error_class (registration_otp_invalid _) = some ErrorClass.unauthorized_error
error_class invalid_refresh_token = some ErrorClass.unauthorized_error
error_class invalid_reset_token = some ErrorClass.unauthorized_error
error_class otp_expired = some ErrorClass.unauthorized_error
error_class (invalid_otp _) = some ErrorClass.unauthorized_error
error_class invalid_totp_code = some ErrorClass.unauthorized_error
error_class mfa_challenge_invalid = some ErrorClass.unauthorized_error
error_class forbidden = some ErrorClass.forbidden_error
error_class account_blocked = some ErrorClass.forbidden_error
error_class email_not_verified = some ErrorClass.forbidden_error
error_class registration_otp_max_attempts = some ErrorClass.forbidden_error
error_class account_not_active = some ErrorClass.forbidden_error
error_class too_many_otp_attempts = some ErrorClass.forbidden_error
error_class assertion_failed = none
error_class key_error = none
error_class integrity_error = none
error_class _ = some ErrorClass.conflict_error

-- handle_domain_error, or handle_unexpected_error
abbrev pub handled_status : Option ErrorClass → ℕ
handled_status none = 500
handled_status (some c) = class_status c

unfoldable pub response_status : Error → ℕ
unfolding error_class
response_status e = handled_status (error_class e)

-- A request fails with a server error exactly when its exception is no domain error; every domain
-- error is answered with a status of 400 to 499.
pub response_status-blame :
    (e : Error) → (leb 400 (response_status e) && ltb (response_status e) 500) ≡ is_domain_error e
unfolding response_status
response_status-blame not_found = refl
response_status-blame conflict = refl
response_status-blame account_not_active = refl
response_status-blame currency_mismatch = refl
response_status-blame same_account_transfer = refl
response_status-blame insufficient_balance = refl
response_status-blame exchange_rate_not_found = refl
response_status-blame otp_expired = refl
response_status-blame too_many_otp_attempts = refl
response_status-blame transaction_already_processed = refl
response_status-blame transaction_not_reversible = refl
response_status-blame (invalid_otp n) = refl
response_status-blame unauthorized = refl
response_status-blame forbidden = refl
response_status-blame invalid_credentials = refl
response_status-blame account_blocked = refl
response_status-blame email_already_registered = refl
response_status-blame email_not_verified = refl
response_status-blame registration_already_confirmed = refl
response_status-blame registration_otp_expired = refl
response_status-blame registration_otp_max_attempts = refl
response_status-blame invalid_refresh_token = refl
response_status-blame invalid_reset_token = refl
response_status-blame two_factor_already_enabled = refl
response_status-blame two_factor_not_enabled = refl
response_status-blame two_factor_setup_not_started = refl
response_status-blame invalid_totp_code = refl
response_status-blame mfa_challenge_invalid = refl
response_status-blame (registration_otp_invalid n) = refl
response_status-blame assertion_failed = refl
response_status-blame key_error = refl
response_status-blame integrity_error = refl
