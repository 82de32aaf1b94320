-- ===== src/Bank/Access.antt =====
-- Sign-up and sign-in keep the ledger and the balances reconciled.
use online_banking_system.Prelude.{ℕ, Bool, Option, none, some}
use online_banking_system.Db.{Customer, Error, RefreshToken, RegistrationConfirmation, User, Db}
use online_banking_system.Session.Keeps.{Keeps}
use online_banking_system.Session.Messages.{AuditAction}
use online_banking_system.Ledger.Reconciliation.{IsReconciled}
use online_banking_system.Transfers.{Settings}
use online_banking_system.Auth.Crypto.{Crypto}
use online_banking_system.Auth.{
  RegisterRequest, TokenSettings, Draw, issue_registration_otp, store_customer, register,
  verify_registration, miss_registration, answer_registration, confirm_registration,
  resend_registration_otp, refused_login, open_login, known_login, login_as, login, reuse_detected,
  rotate, refresh_stored, refresh, logout_stored, logout, change_password, request_password_reset,
  confirm_password_reset, setup_two_factor, enable_two_factor, disable_two_factor, check_totp,
  check_stored, answer_challenge, verify_mfa_login, SignUpEndpoint, sign_up, confirm_sign_up,
  resend_sign_up_code, serve_sign_up, PasswordEndpoint, change_to, request_reset, reset_to,
  serve_password, send_reset, TwoFactorEndpoint, set_up, enable, disable, serve_two_factor,
  SessionEndpoint, log_in, refresh_session, log_out, verify_login, serve_session, login_endpoint,
  refresh_endpoint, logout_endpoint, verify_login_endpoint,
}
use online_banking_system.Accounts.{ProfileRequest, update_profile}
use online_banking_system.Beneficiaries.{
  create_beneficiary, rename_beneficiary, delete_own_beneficiary,
}
use online_banking_system.Portal.{
  OwnBeneficiaryEndpoint, save_recipient, edit_recipient, drop_recipient, serve_own_beneficiary,
}
use online_banking_system.Bank.Writes.{reconciled_rules}
use online_banking_system.Bank.Rows.{row_rules}
use online_banking_system.Bank.Methods.{Quiet}

issue_registration_otp-Keeps :
    (settings : Settings) (now hash id : ℕ)
    → Keeps IsReconciled (issue_registration_otp settings now hash id)
unfolding issue_registration_otp
issue_registration_otp-Keeps settings now hash id = search (reconciled_rules, row_rules) depth 9

store_customer-Keeps :
    (user_id id : ℕ) (p : RegisterRequest) → Keeps IsReconciled (store_customer user_id id p)
unfolding store_customer
store_customer-Keeps user_id id p = search (reconciled_rules, row_rules) depth 9

register-Keeps :
    (others : Db → Db) (settings : Settings) (now hash user_id id : ℕ) (p : RegisterRequest)
    → Quiet others
    → Keeps IsReconciled (register others settings now hash user_id id p)
unfolding register
register-Keeps others settings now hash user_id id p q =
    search (reconciled_rules, issue_registration_otp-Keeps, store_customer-Keeps) depth 12

verify_registration-Keeps : (now id : ℕ) → Keeps IsReconciled (verify_registration now id)
unfolding verify_registration
verify_registration-Keeps now id = search (reconciled_rules, row_rules) depth 9

miss_registration-Keeps :
    (id : ℕ) (c : RegistrationConfirmation) → Keeps IsReconciled (miss_registration id c)
unfolding miss_registration
miss_registration-Keeps id c = search (reconciled_rules, row_rules) depth 9

confirm_registration-Keeps :
    (crypto : Crypto) (others : Db → Db) (now id code : ℕ)
    → Quiet others
    → Keeps IsReconciled (confirm_registration crypto others now id code)
unfolding confirm_registration answer_registration
confirm_registration-Keeps crypto others now id code q =
    search (reconciled_rules, verify_registration-Keeps, miss_registration-Keeps) depth 9

pub serve_sign_up-Keeps :
    (crypto : Crypto) (others : Db → Db) (settings : Settings) (now : ℕ) (e : SignUpEndpoint)
    → Quiet others
    → Keeps IsReconciled (serve_sign_up crypto others settings now e)
unfolding serve_sign_up resend_registration_otp
serve_sign_up-Keeps crypto others settings now (sign_up hash user_id id p) q =
    search (reconciled_rules, register-Keeps) depth 9
serve_sign_up-Keeps crypto others settings now (confirm_sign_up id code) q =
    search (reconciled_rules, confirm_registration-Keeps) depth 9
serve_sign_up-Keeps crypto others settings now (resend_sign_up_code hash id) q =
    search (reconciled_rules, issue_registration_otp-Keeps) depth 9

module _ (crypto : Crypto) where
  change_password-Keeps :
      (hash now current id : ℕ) (u : User)
      → Keeps IsReconciled (change_password crypto hash now current id u)
  unfolding change_password
  change_password-Keeps hash now current id u = search (reconciled_rules, row_rules) depth 9

  confirm_password_reset-Keeps :
      (hash now token : ℕ) → Keeps IsReconciled (confirm_password_reset crypto hash now token)
  unfolding confirm_password_reset
  confirm_password_reset-Keeps hash now token = search (reconciled_rules, row_rules) depth 9

  send_reset-Keeps : (r : Option (ℕ × ℕ)) → Keeps IsReconciled (send_reset r)
  unfolding send_reset
  send_reset-Keeps none = search reconciled_rules
  send_reset-Keeps (some r) = search reconciled_rules

  pub serve_password-Keeps :
      (now : ℕ) (credentials : Option ℕ) (e : PasswordEndpoint)
      → Keeps IsReconciled (serve_password crypto now credentials e)
  unfolding serve_password request_password_reset
  serve_password-Keeps now credentials (change_to hash current) =
      search (reconciled_rules, change_password-Keeps) depth 9
  serve_password-Keeps now credentials (request_reset email) =
      search (reconciled_rules, send_reset-Keeps) depth 9
  serve_password-Keeps now credentials (reset_to hash token) =
      search (reconciled_rules, confirm_password_reset-Keeps) depth 9

  pub serve_two_factor-Keeps :
      (now : ℕ) (credentials : Option ℕ) (e : TwoFactorEndpoint)
      → Keeps IsReconciled (serve_two_factor crypto now credentials e)
  unfolding serve_two_factor setup_two_factor enable_two_factor disable_two_factor
  serve_two_factor-Keeps now credentials (set_up secret) =
      search (reconciled_rules, row_rules) depth 12
  serve_two_factor-Keeps now credentials (enable code) =
      search (reconciled_rules, row_rules) depth 12
  serve_two_factor-Keeps now credentials (disable password code) =
      search (reconciled_rules, row_rules) depth 12

  module _ (settings : TokenSettings) where
    open_login-Keeps :
        (action : AuditAction) (draw : Draw) (id : ℕ)
        → Keeps IsReconciled (open_login crypto settings action draw id)
    unfolding open_login
    open_login-Keeps action draw id = search (reconciled_rules, row_rules) depth 9

    refused_login-Keeps :
        (id : ℕ) (action : AuditAction) (e : Error)
        → Keeps IsReconciled (refused_login crypto settings id action e)
    unfolding refused_login
    refused_login-Keeps id action e = search reconciled_rules depth 9

    known_login-Keeps :
        (draw : Draw) (id : ℕ) (u : User)
        → Keeps IsReconciled (known_login crypto settings draw id u)
    unfolding known_login
    known_login-Keeps draw id u =
        search (reconciled_rules, open_login-Keeps, refused_login-Keeps) depth 12

    login_as-Keeps :
        (draw : Draw) (password : ℕ) (found : Option (ℕ × User))
        → Keeps IsReconciled (login_as crypto settings draw password found)
    unfolding login_as
    login_as-Keeps draw password none = search reconciled_rules depth 9
    login_as-Keeps draw password (some (id, u)) =
        search (reconciled_rules, known_login-Keeps) depth 9

    check_totp-Keeps :
        (draw : Draw) (code id : ℕ) (secret : Option ℕ)
        → Keeps IsReconciled (check_totp crypto settings draw code id secret)
    unfolding check_totp
    check_totp-Keeps draw code id none = search reconciled_rules
    check_totp-Keeps draw code id (some secret) =
        search (reconciled_rules, open_login-Keeps) depth 9

    check_stored-Keeps :
        (draw : Draw) (code id : ℕ) (stored : Option ℕ)
        → Keeps IsReconciled (check_stored crypto settings draw code id stored)
    unfolding check_stored
    check_stored-Keeps draw code id none = search reconciled_rules
    check_stored-Keeps draw code id (some stored) =
        check_totp-Keeps draw code id (crypto.decrypt_secret stored)

    answer_challenge-Keeps :
        (draw : Draw) (code : ℕ) (u : ℕ × User)
        → Keeps IsReconciled (answer_challenge crypto settings draw code u)
    unfolding answer_challenge
    answer_challenge-Keeps draw code u = check_stored-Keeps draw code u.0 u.1.totp_secret

    rotate-Keeps :
        (others : Db → Db) (draw : Draw) (t : ℕ × RefreshToken)
        → Quiet others
        → Keeps IsReconciled (rotate crypto settings others draw t)
    unfolding rotate
    rotate-Keeps others draw t q = search (reconciled_rules, row_rules) depth 12

    refresh-Keeps :
        (others : Db → Db) (draw : Draw) (raw : ℕ)
        → Quiet others
        → Keeps IsReconciled (refresh crypto settings others draw raw)
    unfolding refresh refresh_stored reuse_detected
    refresh-Keeps others draw raw q = search (reconciled_rules, row_rules, rotate-Keeps) depth 12

  logout_stored-Keeps :
      (now : ℕ) (t : Option (ℕ × RefreshToken)) → Keeps IsReconciled (logout_stored crypto now t)
  unfolding logout_stored
  logout_stored-Keeps now none = search reconciled_rules
  logout_stored-Keeps now (some t) = search (reconciled_rules, row_rules) depth 9

  pub serve_session-Keeps :
      (is_production : Bool) (settings : TokenSettings) (others : Db → Db) (now : ℕ)
      (cookie : Option ℕ) (e : SessionEndpoint)
      → Quiet others
      → Keeps IsReconciled (serve_session crypto is_production settings others now cookie e)
  unfolding serve_session login_endpoint login refresh_endpoint logout_endpoint logout
      verify_login_endpoint verify_mfa_login
  serve_session-Keeps prod settings others now cookie (log_in draw email password) q =
      search (reconciled_rules, login_as-Keeps) depth 9
  serve_session-Keeps prod settings others now none (refresh_session draw) q =
      search reconciled_rules
  serve_session-Keeps prod settings others now (some raw) (refresh_session draw) q =
      search (reconciled_rules, refresh-Keeps) depth 9
  serve_session-Keeps prod settings others now none log_out q = search reconciled_rules
  serve_session-Keeps prod settings others now (some raw) log_out q =
      search (reconciled_rules, logout_stored-Keeps) depth 9
  serve_session-Keeps prod settings others now cookie (verify_login draw challenge code) q =
      search (reconciled_rules, answer_challenge-Keeps) depth 9

-- What customers change of their own profile and saved recipients.
pub profile-Keeps : (c : Customer) (p : ProfileRequest) → Keeps IsReconciled (update_profile c p)
unfolding update_profile
profile-Keeps c p = search (reconciled_rules, row_rules) depth 9

pub recipient-Keeps :
    (now : ℕ) (e : OwnBeneficiaryEndpoint) (c : Customer)
    → Keeps IsReconciled (serve_own_beneficiary now e c)
unfolding serve_own_beneficiary create_beneficiary rename_beneficiary delete_own_beneficiary
recipient-Keeps now (save_recipient id p) c = search (reconciled_rules, row_rules) depth 12
recipient-Keeps now (edit_recipient id name nickname) c =
    search (reconciled_rules, row_rules) depth 12
recipient-Keeps now (drop_recipient id) c = search (reconciled_rules, row_rules) depth 12
