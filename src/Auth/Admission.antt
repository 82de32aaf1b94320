-- ===== src/Auth/Admission.antt =====
-- Who gets a session by password alone.
use online_banking_system.Prelude.{
  ℕ, ◌≡◌, ◌↔◌, refl, inl, inr, true, false, Option, none, some, Bool-cases,
}
use online_banking_system.Db.{User, Db}
use online_banking_system.Db.Constraints.{meets_constraints}
use online_banking_system.Session.{◌>>=◌, open_session}
use online_banking_system.Session.Check.{ok}
use online_banking_system.Auth.Crypto.{Crypto}
use online_banking_system.Auth.{
  TokenSettings, Draw, TokenResponse, token_response, shut_out, get_by_email, mark_login,
  issue_token_pair, tokens, refused_login, open_login, known_login, login_as, login,
}
use online_banking_system.Auth.Accepted.{open_login-accepted}

-- The user of this address, not deleted, with this password, neither blocked nor disabled, with a
-- verified address and without a second factor.
pub record MayLogIn (crypto : Crypto) (email password : ℕ) (db : Db) : Type 0 where
  pub id : ℕ
  pub user : User
  pub found : get_by_email email db ≡ some (id, user)
  pub knows : crypto.verify_password password user.password_hash ≡ true
  pub admitted : shut_out user ≡ false
  pub verified : user.email_verified ≡ true
  pub single_factor : user.totp_enabled ≡ false

module _ (crypto : Crypto) (settings : TokenSettings) (draw : Draw) (email password : ℕ) (db : Db)
    (met : meets_constraints db ≡ true) where
  pub login-MayLogIn :
      (w : MayLogIn crypto email password db)
      → ((login crypto settings draw email password (open_session db)).0
          ≡ ok (tokens (token_response settings draw w.id)))
        × ((login crypto settings draw email password (open_session db)).1.committed
            ≡ issue_token_pair crypto settings draw w.id (mark_login w.id draw.now db))
  unfolding login login_as known_login open_login ◌>>=◌
  login-MayLogIn w = rw w.found (
      rw w.knows (
        rw w.admitted (
          rw w.verified (
            rw w.single_factor
              (rw (open_login-accepted crypto settings draw w.id db met) (refl, refl))))))

  known_login-MayLogIn :
      (id : ℕ) (u : User) (r : TokenResponse)
      → get_by_email email db ≡ some (id, u)
      → crypto.verify_password password u.password_hash ≡ true
      → (known_login crypto settings draw id u (open_session db)).0 ≡ ok (tokens r)
      → MayLogIn crypto email password db
  unfolding known_login refused_login ◌>>=◌
  known_login-MayLogIn id u r found knows opened = elim (Bool-cases (shut_out u)) [
    | inl out ↦ cc (rw out at opened)
    | inr admitted ↦ elim (Bool-cases u.email_verified) [
      | inr unverified ↦ cc (rw unverified at (rw admitted at opened))
      | inl verified ↦ elim (Bool-cases u.totp_enabled) [
        | inl second ↦ cc (rw second at (rw verified at (rw admitted at opened)))
        | inr single ↦ record {
          id = id;
          user = u;
          found = found;
          knows = knows;
          admitted = admitted;
          verified = verified;
          single_factor = single;
        }
      ]
    ]
  ]

  login_as-MayLogIn :
      (found : Option (ℕ × User)) (r : TokenResponse)
      → get_by_email email db ≡ found
      → (login_as crypto settings draw password found (open_session db)).0 ≡ ok (tokens r)
      → MayLogIn crypto email password db
  unfolding login_as ◌>>=◌
  login_as-MayLogIn none r unknown opened = cc opened
  login_as-MayLogIn (some (id, u)) r found opened =
      elim (Bool-cases (crypto.verify_password password u.password_hash)) [
        | inl knows ↦ known_login-MayLogIn id u r found knows (rw knows at opened)
        | inr wrong ↦ cc (rw wrong at opened)
      ]

  login-opened :
      (r : TokenResponse)
      → (login crypto settings draw email password (open_session db)).0 ≡ ok (tokens r)
      → MayLogIn crypto email password db
  unfolding login ◌>>=◌
  login-opened r opened = login_as-MayLogIn (get_by_email email db) r refl opened

-- Where the rows meet the constraints, a login opens a session, with tokens, exactly for an
-- admitted user: known by that address and password, not deleted, blocked or disabled, with a
-- verified address and without a second factor.
pub login_opens_iff :
    (crypto : Crypto) (settings : TokenSettings) (draw : Draw) (email password : ℕ) (db : Db)
    → meets_constraints db ≡ true
    → ((r : TokenResponse) × ((login crypto settings draw email password (open_session db)).0
          ≡ ok (tokens r)))
      ↔ MayLogIn crypto email password db
login_opens_iff crypto settings draw email password db met = (
  λ opened. login-opened crypto settings draw email password db met opened.0 opened.1,
  λ w. (
    token_response settings draw w.id,
    (login-MayLogIn crypto settings draw email password db met w).0,
  ),
)
