-- ===== src/Auth/Accepted.antt =====
-- The writes of the sign-in code meet the constraints of the tables.
use online_banking_system.Prelude.{ℕ, ◌≡◌, refl, true, [], ◌∷◌, arith, ◌==◌, ◌∙◌, Option, some}
use online_banking_system.Table.{Table, update}
use online_banking_system.Db.{User, Db}
use online_banking_system.Db.Constraints.{some_row, unique_emails, meets_constraints}
use online_banking_system.Transactions.Accepted.{Meets-sound, Meets-complete}
use online_banking_system.Auth.Crypto.{Crypto}
use online_banking_system.Auth.{
  TokenSettings, Draw, update_user, mark_login, issue_token_pair, revoke, revoke_all_for_user,
  set_password,
}

module _ (id : ℕ) (f : User → User) (same : (u : User) → (f u).email ≡ u.email) where
  some_row-update :
      (e : ℕ) (t : Table User)
      → some_row (λ v. v.email == e) (update id f t) ≡ some_row (λ v. v.email == e) t
  unfolding some_row update
  some_row-update e [] = refl
  some_row-update e ((j, u) ∷ t) = ground (arith, same u, some_row-update e t)

  unique_emails-update : (t : Table User) → unique_emails (update id f t) ≡ unique_emails t
  unfolding unique_emails update
  unique_emails-update [] = refl
  unique_emails-update ((j, u) ∷ t) =
      ground (arith, same u, some_row-update u.email t, unique_emails-update t)

  -- Changing anything of a user but the e-mail address is accepted.
  pub update_user-accepted :
      (db : Db) → meets_constraints db ≡ true → meets_constraints (update_user id f db) ≡ true
  unfolding update_user
  update_user-accepted db met =
      let m = Meets-complete db met in
      Meets-sound (record {
        accounts = m.accounts;
        transactions = m.transactions;
        ledger = m.ledger;
        schedules = m.schedules;
        emails = unique_emails-update db.users ∙ m.emails;
        national_ids = m.national_ids;
      })

module _ (crypto : Crypto) (settings : TokenSettings) where
  pub issue_token_pair-accepted :
      (draw : Draw) (id : ℕ) (db : Db)
      → meets_constraints (issue_token_pair crypto settings draw id db) ≡ meets_constraints db
  unfolding meets_constraints issue_token_pair
  issue_token_pair-accepted draw id db = refl

  pub open_login-accepted :
      (draw : Draw) (id : ℕ) (db : Db)
      → meets_constraints db ≡ true
      → meets_constraints (issue_token_pair crypto settings draw id (mark_login id draw.now db))
        ≡ true
  unfolding mark_login
  open_login-accepted draw id db met =
      issue_token_pair-accepted draw id (mark_login id draw.now db)
      ∙ update_user-accepted id (λ u. record u { last_login_at = some draw.now }) (λ u. refl) db met

pub revoke-accepted :
    (id now : ℕ) (r : Option ℕ) (db : Db)
    → meets_constraints (revoke id now r db) ≡ meets_constraints db
unfolding meets_constraints revoke
revoke-accepted id now r db = refl

pub revoke_all-accepted :
    (id now : ℕ) (db : Db)
    → meets_constraints (revoke_all_for_user id now db) ≡ meets_constraints db
unfolding meets_constraints revoke_all_for_user
revoke_all-accepted id now db = refl

pub set_password-accepted :
    (hash now id : ℕ) (db : Db)
    → meets_constraints db ≡ true
    → meets_constraints (set_password hash now id db) ≡ true
unfolding set_password
set_password-accepted hash now id db met =
    revoke_all-accepted id now (update_user id (λ u. record u { password_hash = hash }) db)
    ∙ update_user-accepted id (λ u. record u { password_hash = hash }) (λ u. refl) db met
