-- ===== src/Auth/Registration.antt =====
-- register, confirm_registration and resend_registration_otp, with
-- RegistrationConfirmationRepository. `others` is what other requests commit between a request's
-- reads and its writes.
use online_banking_system.Prelude.{
  ℕ, ◌+◌, ◌-◌, true, false, Option, none, some, [], ◌∷◌, ◌==◌, leb, if◌then◌else◌,
}
use online_banking_system.Table.{lookup, insert, update}
use online_banking_system.Db.{
  conflict, registration_otp_max_attempts, registration_otp_invalid, RegistrationConfirmation, Db,
}
use online_banking_system.Session.Actions.{
  Action, ◌>>=◌, ◌>>◌, pure, raise, check, modify, commit, send, wait, translate_integrity_error,
}
use online_banking_system.Session.Check.{ok}
use online_banking_system.Session.Messages.{audit, AuditAction, registration_messages}
use online_banking_system.Transfers.{Settings, otp_lifetime}
use online_banking_system.Auth.Crypto.{Crypto}
use online_banking_system.Auth.Users.{
  RegisterRequest, new_user, create_user, create_customer_row, update_user,
}
use online_banking_system.Auth.RegistrationChecks.{
  registration_checks, unverified_user, registration_challenge,
}

-- RegistrationConfirmationRepository.create and reissue
abbrev pub fresh_challenge : ℕ → ℕ → RegistrationConfirmation
fresh_challenge otp_code_hash expires_at = record {
  otp_code_hash = otp_code_hash;
  attempts = 0;
  max_attempts = 5;
  expires_at = expires_at;
  verified_at = none;
}

unfoldable pub store_challenge : ℕ → ℕ → ℕ → Option RegistrationConfirmation → Db → Db
store_challenge user_id otp_code_hash expires_at none db = record db {
  registrations = insert user_id (fresh_challenge otp_code_hash expires_at) db.registrations;
}
store_challenge user_id otp_code_hash expires_at (some _) db = record db {
  registrations =
      update user_id
        (λ c. record c { otp_code_hash = otp_code_hash; expires_at = expires_at; attempts = 0 })
        db.registrations;
}

unfoldable pub update_challenge :
    ℕ → (RegistrationConfirmation → RegistrationConfirmation) → Db → Db
update_challenge user_id f db = record db { registrations = update user_id f db.registrations }

-- _issue_registration_otp, with the hash of a fresh code
unfoldable pub issue_registration_otp : Settings → ℕ → ℕ → ℕ → Action ℕ
unfolding store_challenge registration_messages
issue_registration_otp settings now otp_code_hash user_id = do
  confirmation ← check (λ db. ok (lookup user_id db.registrations))
  modify (store_challenge user_id otp_code_hash (now + otp_lifetime settings) confirmation)
  commit
  send (registration_messages settings.otp_delivery_channel user_id)
  pure (otp_lifetime settings)

-- The rows of a new customer; the UNIQUE constraints settle a race.
unfoldable pub store_customer : ℕ → ℕ → RegisterRequest → Action (Unit {0})
unfolding create_user create_customer_row
store_customer user_id customer_id p =
    translate_integrity_error
      (do
        modify (create_user user_id (new_user p.email p.password_hash false))
        modify (create_customer_row customer_id user_id p)
        commit)
      conflict

-- Returns the new user's id and the lifetime of the code.
unfoldable pub register : (Db → Db) → Settings → ℕ → ℕ → ℕ → ℕ → RegisterRequest → Action (ℕ × ℕ)
unfolding registration_checks store_customer issue_registration_otp
register others settings now otp_code_hash user_id customer_id p = do
  check (registration_checks p)
  wait others
  store_customer user_id customer_id p
  send (audit user_id AuditAction.customer_registered user_id ∷ [])
  lifetime ← issue_registration_otp settings now otp_code_hash user_id
  pure (user_id, lifetime)

unfoldable pub verify_registration : ℕ → ℕ → Action (Unit {0})
unfolding update_user update_challenge
verify_registration now user_id = do
  modify (update_user user_id (λ u. record u { email_verified = true }))
  modify (update_challenge user_id (λ c. record c { verified_at = some now }))
  commit
  send (audit user_id AuditAction.registration_email_verified user_id ∷ [])

unfoldable pub miss_registration : ℕ → RegistrationConfirmation → Action (Unit {0})
unfolding update_challenge
miss_registration user_id read = do
  modify (update_challenge user_id (λ c. record c { attempts = read.attempts + 1 }))
  commit
  if leb read.max_attempts (read.attempts + 1)
      then raise registration_otp_max_attempts
      else raise (registration_otp_invalid (read.max_attempts - (read.attempts + 1)))

module _ (crypto : Crypto) where
  unfoldable pub answer_registration : ℕ → ℕ → ℕ → RegistrationConfirmation → Action (Unit {0})
  unfolding verify_registration miss_registration
  answer_registration now user_id code confirmation =
      if crypto.hash_otp_code code == confirmation.otp_code_hash
      then verify_registration now user_id
      else miss_registration user_id confirmation

  unfoldable pub confirm_registration : (Db → Db) → ℕ → ℕ → ℕ → Action (Unit {0})
  unfolding registration_challenge answer_registration
  confirm_registration others now user_id code = do
    confirmation ← check (registration_challenge now user_id)
    wait others
    answer_registration now user_id code confirmation

unfoldable pub resend_registration_otp : Settings → ℕ → ℕ → ℕ → Action ℕ
unfolding unverified_user issue_registration_otp
resend_registration_otp settings now otp_code_hash user_id = do
  user ← check (unverified_user user_id)
  issue_registration_otp settings now otp_code_hash user_id
