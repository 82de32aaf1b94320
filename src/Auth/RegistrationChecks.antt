-- ===== src/Auth/RegistrationChecks.antt =====
-- The checks of register, confirm_registration and resend_registration_otp.
use online_banking_system.Prelude.{ℕ, Bool, leb}
use online_banking_system.Table.{lookup}
use online_banking_system.Db.{
  conflict, not_found, email_already_registered, registration_already_confirmed,
  registration_otp_expired, registration_otp_max_attempts, User, RegistrationConfirmation, Db,
}
use online_banking_system.Session.Check.{Result, ok, ◌>>=◌, ◌>>◌, refuse, or_raise}
use online_banking_system.Auth.Users.{RegisterRequest, get_user, email_exists, national_id_exists}

unfoldable pub registration_checks : RegisterRequest → Db → Result (Unit {0})
unfolding national_id_exists
registration_checks p db = do
  refuse (email_exists p.email db) email_already_registered
  refuse (national_id_exists p.national_id db) conflict

unfoldable pub unverified_user : ℕ → Db → Result User
unfolding get_user
unverified_user user_id db = do
  user ← or_raise (get_user user_id db) not_found
  refuse user.email_verified registration_already_confirmed
  ok user

-- RegistrationConfirmationRepository.is_expired and attempts_exhausted
abbrev pub challenge_is_expired : ℕ → RegistrationConfirmation → Bool
challenge_is_expired now c = leb c.expires_at now

abbrev pub challenge_is_exhausted : RegistrationConfirmation → Bool
challenge_is_exhausted c = leb c.max_attempts c.attempts

-- The challenge that a code may answer.
unfoldable pub registration_challenge : ℕ → ℕ → Db → Result RegistrationConfirmation
unfolding unverified_user
registration_challenge now user_id db = do
  user ← unverified_user user_id db
  confirmation ← or_raise (lookup user_id db.registrations) not_found
  refuse (challenge_is_expired now confirmation) registration_otp_expired
  refuse (challenge_is_exhausted confirmation) registration_otp_max_attempts
  ok confirmation
