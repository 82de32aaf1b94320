-- ===== src/Bank/Rows.antt =====
-- The writes of sign-up, sign-in and the back office keep the ledger and the balances reconciled.
use online_banking_system.Prelude.{ℕ, ◌≡◌, false, Option, none, some, Option-cases, inl, inr, arith}
use online_banking_system.Table.{lookup, lookup-update}
use online_banking_system.Db.{
  AccountStatus, Beneficiary, Card, CustomerRow, ExchangeRate, User, RegistrationConfirmation, Db,
}
use online_banking_system.Ledger.Reconciliation.{IsReconciled}
use online_banking_system.Accounts.{update_customer}
use online_banking_system.Beneficiaries.{create_beneficiary_row, update_beneficiary}
use online_banking_system.Auth.Crypto.{Crypto}
use online_banking_system.Auth.{
  RegisterRequest, create_user, create_customer_row, update_user, mark_login, TokenSettings, Draw,
  create_token, issue_token_pair, revoke, revoke_all_for_user, store_challenge, update_challenge,
  set_password,
}
use online_banking_system.Admin.{
  is_taken, new_account, create_account_row, update_account, with_status, create_rate_row,
  create_card_row, delete_card_row,
}

module _ {db : Db} (h : IsReconciled db) where
  pub create_user-IsReconciled : (id : ℕ) (u : User) → IsReconciled (create_user id u db)
  unfolding create_user
  create_user-IsReconciled id u = record { at = h.at; unused = h.unused }

  pub create_customer_row-IsReconciled :
      (id user_id : ℕ) (p : RegisterRequest) → IsReconciled (create_customer_row id user_id p db)
  unfolding create_customer_row
  create_customer_row-IsReconciled id user_id p = record { at = h.at; unused = h.unused }

  pub update_user-IsReconciled : (id : ℕ) (f : User → User) → IsReconciled (update_user id f db)
  unfolding update_user
  update_user-IsReconciled id f = record { at = h.at; unused = h.unused }

  pub mark_login-IsReconciled : (id now : ℕ) → IsReconciled (mark_login id now db)
  unfolding mark_login
  mark_login-IsReconciled id now = update_user-IsReconciled id _

  pub issue_token_pair-IsReconciled :
      (crypto : Crypto) (settings : TokenSettings) (draw : Draw) (id : ℕ)
      → IsReconciled (issue_token_pair crypto settings draw id db)
  unfolding issue_token_pair create_token
  issue_token_pair-IsReconciled crypto settings draw id = record { at = h.at; unused = h.unused }

  pub revoke-IsReconciled : (id now : ℕ) (by : Option ℕ) → IsReconciled (revoke id now by db)
  unfolding revoke
  revoke-IsReconciled id now by = record { at = h.at; unused = h.unused }

  pub revoke_all-IsReconciled : (id now : ℕ) → IsReconciled (revoke_all_for_user id now db)
  unfolding revoke_all_for_user
  revoke_all-IsReconciled id now = record { at = h.at; unused = h.unused }

  pub store_challenge-IsReconciled :
      (id hash t : ℕ) (c : Option RegistrationConfirmation)
      → IsReconciled (store_challenge id hash t c db)
  unfolding store_challenge
  store_challenge-IsReconciled id hash t none = record { at = h.at; unused = h.unused }
  store_challenge-IsReconciled id hash t (some c) = record { at = h.at; unused = h.unused }

  pub update_challenge-IsReconciled :
      (id : ℕ) (f : RegistrationConfirmation → RegistrationConfirmation)
      → IsReconciled (update_challenge id f db)
  unfolding update_challenge
  update_challenge-IsReconciled id f = record { at = h.at; unused = h.unused }

  pub set_password-IsReconciled : (hash now id : ℕ) → IsReconciled (set_password hash now id db)
  unfolding set_password update_user revoke_all_for_user
  set_password-IsReconciled hash now id = record { at = h.at; unused = h.unused }

  pub update_customer-IsReconciled :
      (id : ℕ) (f : CustomerRow → CustomerRow) → IsReconciled (update_customer id f db)
  unfolding update_customer
  update_customer-IsReconciled id f = record { at = h.at; unused = h.unused }

  pub create_beneficiary_row-IsReconciled :
      (id : ℕ) (b : Beneficiary) → IsReconciled (create_beneficiary_row id b db)
  unfolding create_beneficiary_row
  create_beneficiary_row-IsReconciled id b = record { at = h.at; unused = h.unused }

  pub update_beneficiary-IsReconciled :
      (id : ℕ) (f : Beneficiary → Beneficiary) → IsReconciled (update_beneficiary id f db)
  unfolding update_beneficiary
  update_beneficiary-IsReconciled id f = record { at = h.at; unused = h.unused }

  pub create_rate_row-IsReconciled :
      (id : ℕ) (r : ExchangeRate) → IsReconciled (create_rate_row id r db)
  unfolding create_rate_row
  create_rate_row-IsReconciled id r = record { at = h.at; unused = h.unused }

  pub create_card_row-IsReconciled : (id : ℕ) (c : Card) → IsReconciled (create_card_row id c db)
  unfolding create_card_row
  create_card_row-IsReconciled id c = record { at = h.at; unused = h.unused }

  pub delete_card_row-IsReconciled : (id now : ℕ) → IsReconciled (delete_card_row id now db)
  unfolding delete_card_row
  delete_card_row-IsReconciled id now = record { at = h.at; unused = h.unused }

  -- Only the balance of an account counts.
  pub update_account-IsReconciled :
      (id now : ℕ) (status : AccountStatus)
      → IsReconciled (update_account id (with_status now status) db)
  unfolding update_account
  update_account-IsReconciled id now status = record {
    at = λ j a found.
        let moved = lookup-update j id (with_status now status) db.accounts in
        elim (Option-cases (lookup j db.accounts)) [
          | inl missing ↦ absurd (ground (arith, moved, missing, found))
          | inr (b, there) ↦ ground (arith, moved, there, found, h.at j b there)
        ];
    unused = λ j missing.
        let moved = lookup-update j id (with_status now status) db.accounts in
        elim (Option-cases (lookup j db.accounts)) [
          | inl none_there ↦ h.unused j none_there
          | inr (b, there) ↦ absurd (ground (arith, moved, there, missing))
        ];
  }

  -- A new account begins with no money, under an id that no entry names.
  pub create_account_row-IsReconciled :
      (id number customer_id currency : ℕ)
      → is_taken id number db ≡ false
      → IsReconciled (create_account_row id (new_account customer_id number currency) db)
  unfolding create_account_row is_taken
  create_account_row-IsReconciled id number customer_id currency free =
      let no_row : lookup id db.accounts ≡ none = elim (Option-cases (lookup id db.accounts)) [
        | inl missing ↦ missing
        | inr (b, there) ↦ absurd (ground (arith, free, there))
      ] in
      record {
        at = λ j a found. ground (arith, found, h.at j a, h.unused id no_row);
        unused = λ j missing. ground (arith, missing, h.unused j);
      }

pub ruleset row_rules = (
  create_user-IsReconciled, create_customer_row-IsReconciled, update_user-IsReconciled,
  mark_login-IsReconciled, issue_token_pair-IsReconciled, revoke-IsReconciled,
  revoke_all-IsReconciled, store_challenge-IsReconciled, update_challenge-IsReconciled,
  set_password-IsReconciled, update_customer-IsReconciled, create_beneficiary_row-IsReconciled,
  update_beneficiary-IsReconciled, create_rate_row-IsReconciled, create_card_row-IsReconciled,
  delete_card_row-IsReconciled, update_account-IsReconciled,
)
