-- ===== src/Auth/Onboarding.antt =====
-- From the registration form to the first session.
use online_banking_system.Prelude.{
  ℕ, ◌+◌, ◌<◌, ◌≡◌, refl, true, false, none, some, arith, ◌∙◌, ==_self, leb,
}
use online_banking_system.Table.{lookup, update}
use online_banking_system.Db.{Db}
use online_banking_system.Db.Constraints.{meets_constraints}
use online_banking_system.Session.{◌>>=◌, open_session, translate_integrity_error}
use online_banking_system.Session.Check.{ok}
use online_banking_system.Transfers.{Settings, otp_lifetime}
use online_banking_system.Auth.Crypto.{Crypto}
use online_banking_system.Auth.{
  TokenSettings, Draw, tokens, token_response, RegisterRequest, new_user, create_user,
  create_customer_row, update_user, get_user, get_by_email, registration_checks, fresh_challenge,
  store_challenge, update_challenge, issue_registration_otp, store_customer, register,
  unverified_user, registration_challenge, verify_registration, answer_registration,
  confirm_registration, login,
}
use online_banking_system.Auth.Accepted.{update_user-accepted}
use online_banking_system.Auth.Admission.{login-MayLogIn}

-- The rows of a new customer.
abbrev pub with_customer : ℕ → ℕ → RegisterRequest → Db → Db
with_customer user_id customer_id p db =
    create_customer_row customer_id user_id p
      (create_user user_id (new_user p.email p.password_hash false) db)

-- A registration that the checks, the rows of the other requests and the constraints let pass.
pub record IsWelcome (user_id customer_id : ℕ) (p : RegisterRequest) (db seen : Db) : Type 0 where
  pub allowed : registration_checks p db ≡ ok tt
  pub unused : lookup user_id seen.registrations ≡ none
  pub meets : meets_constraints (with_customer user_id customer_id p seen) ≡ true

module _ (settings : Settings) (now otp_code_hash user_id customer_id : ℕ)
    (p : RegisterRequest) where
  -- The rows of a new customer and of the challenge.
  abbrev registered : Db → Db
  registered db =
      store_challenge user_id otp_code_hash (now + otp_lifetime settings) none
        (with_customer user_id customer_id p db)

  registered-accepted :
      (db : Db)
      → meets_constraints (registered db)
        ≡ meets_constraints (with_customer user_id customer_id p db)
  unfolding meets_constraints store_challenge
  registered-accepted db = refl

  register-commits :
      (others : Db → Db) (db : Db)
      → IsWelcome user_id customer_id p db (others db)
      → (register others settings now otp_code_hash user_id customer_id p
          (open_session db)).1.committed
        ≡ registered (others db)
  unfolding register store_customer issue_registration_otp translate_integrity_error ◌>>=◌
      store_challenge create_customer_row create_user
  register-commits others db w =
      rw w.allowed (rw w.meets (rw w.unused (rw (registered-accepted (others db) ∙ w.meets) refl)))

-- The rows after an answer with the right code.
abbrev confirmed_rows : ℕ → ℕ → Db → Db
confirmed_rows now user_id db =
    update_challenge user_id (λ c. record c { verified_at = some now })
      (update_user user_id (λ u. record u { email_verified = true }) db)

module _ (user_id now : ℕ) where
  verified-accepted :
      (db : Db)
      → meets_constraints db ≡ true
      → meets_constraints (confirmed_rows now user_id db) ≡ true
  unfolding meets_constraints update_challenge
  verified-accepted db met =
      update_user-accepted user_id (λ u. record u { email_verified = true }) (λ u. refl) db met

module _ (crypto : Crypto) (settings : Settings) (start otp_code_hash user_id customer_id : ℕ)
    (p : RegisterRequest) (seen : Db) where
  -- The rows that a new customer confirms.
  abbrev unconfirmed : Db
  unconfirmed = registered settings start otp_code_hash user_id customer_id p seen

  challenge-found :
      (now : ℕ)
      → now < start + otp_lifetime settings
      → registration_challenge now user_id unconfirmed
        ≡ ok (fresh_challenge otp_code_hash (start + otp_lifetime settings))
  unfolding registration_challenge unverified_user get_user store_challenge create_customer_row
      create_user
  challenge-found now early =
      let in_time : leb (start + otp_lifetime settings) now ≡ false = ground (arith, early) in
      rw (==_self user_id) (rw in_time refl)

  confirm-commits :
      (now code : ℕ)
      → crypto.hash_otp_code code ≡ otp_code_hash
      → now < start + otp_lifetime settings
      → meets_constraints (with_customer user_id customer_id p seen) ≡ true
      → (confirm_registration crypto
          (λ d. d)
          now
          user_id
          code
          (open_session unconfirmed)).1.committed
        ≡ confirmed_rows now user_id unconfirmed
  unfolding confirm_registration answer_registration verify_registration ◌>>=◌
  confirm-commits now code right early met =
      let stored =
        registered-accepted settings start otp_code_hash user_id customer_id p seen ∙ met in
      rw (challenge-found now early) (
        rw right
          (rw (==_self otp_code_hash) (rw (verified-accepted user_id now unconfirmed stored) refl)))

  verified-found :
      (now : ℕ)
      → get_by_email p.email (confirmed_rows now user_id unconfirmed)
        ≡ some (user_id, record (new_user p.email p.password_hash false) { email_verified = true })
  unfolding get_by_email update_user update store_challenge create_user update_challenge
      create_customer_row
  verified-found now = rw (==_self user_id) (rw (==_self p.email) refl)

-- Onboarding works: when a registration passes its checks, its rows meet the constraints among those
-- that other requests have committed by then, no code was issued to its user id before, and its code
-- is answered rightly and in time, with no request in between, then at once a login with the registered address and a password that
-- verifies against the registered hash opens a session and returns its tokens.
pub registered_can_login :
    (crypto : Crypto) (settings : Settings) (token_settings : TokenSettings) (others : Db → Db)
    (start otp_code_hash user_id customer_id now code password : ℕ) (p : RegisterRequest)
    (draw : Draw) (db : Db)
    → IsWelcome user_id customer_id p db (others db)
    → crypto.hash_otp_code code ≡ otp_code_hash
    → now < start + otp_lifetime settings
    → crypto.verify_password password p.password_hash ≡ true
    → let first =
        register others settings start otp_code_hash user_id customer_id p (open_session db) in
      let second =
        confirm_registration crypto (λ d. d) now user_id code (open_session first.1.committed) in
      (login crypto token_settings draw p.email password (open_session second.1.committed)).0
      ≡ ok (tokens (token_response token_settings draw user_id))
registered_can_login crypto settings token_settings others start otp_code_hash user_id customer_id
      now code password p draw db w right early knows =
    let seen = others db in
    let stored =
      registered-accepted settings start otp_code_hash user_id customer_id p seen ∙ w.meets in
    let rows = unconfirmed crypto settings start otp_code_hash user_id customer_id p seen in
    rw (register-commits settings start otp_code_hash user_id customer_id p others db w) (
      rw
        (confirm-commits crypto settings start otp_code_hash user_id customer_id p seen now code
          right early w.meets)
        ((login-MayLogIn crypto token_settings draw p.email password
          (confirmed_rows now user_id rows) (verified-accepted user_id now rows stored)
          (record {
            id = user_id;
            user = record (new_user p.email p.password_hash false) { email_verified = true };
            found =
                verified-found crypto settings start otp_code_hash user_id customer_id p seen now;
            knows = knows;
            admitted = refl;
            verified = refl;
            single_factor = refl;
          })).0))
