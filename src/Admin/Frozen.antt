-- ===== src/Admin/Frozen.antt =====
-- What an account can still do once the back office has blocked or closed it.
use online_banking_system.Prelude.{
  ℕ, ◌≡◌, refl, sym, false, some, List, ==_self, Bool-cases, Option-cases, inl, inr, ◌∙◌,
}
use online_banking_system.Table.{lookup, lookup-update}
use online_banking_system.Db.{account_not_active, is_active, Account, AccountStatus, Db}
use online_banking_system.Db.Constraints.{meets_constraints}
use online_banking_system.Session.{◌>>=◌, open_session, try_except}
use online_banking_system.Session.Check.{ok, err}
use online_banking_system.Transactions.{Stamp}
use online_banking_system.Transfers.{Others, Moment}
use online_banking_system.Teller.{deposit_checks, withdrawal_checks, deposit, withdraw}
use online_banking_system.Admin.{with_status, update_account, get_account, update_account_status}
use online_banking_system.Admin.Movements.{Movement, perform_all, perform_all-Rests}

-- The account is there, and not active.
record IsFrozen (id : ℕ) (db : Db) : Type 0 where
  account : Account
  found : lookup id db.accounts ≡ some account
  frozen : is_active account.status ≡ false

module _ (admin now id : ℕ) (status : AccountStatus) (db : Db) where
  update_account_status-IsFrozen :
      (r : ℕ)
      → is_active status ≡ false
      → (update_account_status admin now id status (open_session db)).0 ≡ ok r
      → IsFrozen id (update_account_status admin now id status (open_session db)).1.committed
  unfolding update_account_status get_account update_account ◌>>=◌
  update_account_status-IsFrozen r still returned = elim (Option-cases (lookup id db.accounts)) [
    | inl unknown ↦ cc (rw unknown at returned)
    | inr (a, known) ↦
        elim (Bool-cases (meets_constraints (update_account id (with_status now status) db))) [
          | inr broken ↦ cc (rw broken at (rw known at returned))
          | inl met ↦ rw known (
              rw met (record {
                account = with_status now status a;
                found =
                    lookup-update id id (with_status now status) db.accounts
                    ∙ rw (==_self id) (rw known refl);
                frozen = still;
              }))
        ]
  ]

module _ (id : ℕ) (db : Db) (f : IsFrozen id db) (stamp : Stamp) (amount currency admin : ℕ) where
  deposit-IsFrozen :
      (deposit (λ d. d) stamp id amount currency admin (open_session db)).0 ≡ err account_not_active
  unfolding deposit deposit_checks try_except ◌>>=◌
  deposit-IsFrozen = rw f.found (rw f.frozen refl)

  withdraw-IsFrozen :
      (withdraw (λ d. d) stamp id amount currency admin (open_session db)).0
      ≡ err account_not_active
  unfolding withdraw withdrawal_checks try_except ◌>>=◌
  withdraw-IsFrozen = rw f.found (rw f.frozen refl)

-- The committed rows after the back office has set the account's status.
abbrev pub left_by : ℕ → ℕ → ℕ → AccountStatus → Db → Db
left_by admin now id status db =
    (update_account_status admin now id status (open_session db)).1.committed

-- An account that the back office has blocked, closed or made pending moves no money: after any
-- sequence of deposits, withdrawals, card payments, reversals, executed transfers and scheduled
-- transfers, on whatever accounts, its row with its balance is as the back office has left it, if
-- no other request changes that row meanwhile. And with no other request in between, every deposit
-- on it and every withdrawal from it raises AccountNotActiveError.
pub frozen_account_is_still :
    (admin now id : ℕ) (status : AccountStatus) (db : Db) (r : ℕ) (others : Others)
    (ms : List Movement)
    → is_active status ≡ false
    → (update_account_status admin now id status (open_session db)).0 ≡ ok r
    → ((at : Moment) (d : Db)
        → lookup id d.accounts ≡ lookup id (left_by admin now id status db).accounts
        → lookup id (others at d).accounts ≡ lookup id (left_by admin now id status db).accounts)
    → let after = left_by admin now id status db in
      (lookup id (perform_all others ms after).accounts ≡ lookup id after.accounts)
      × ((stamp : Stamp) (amount currency teller : ℕ)
          → ((deposit (λ d. d) stamp id amount currency teller (open_session after)).0
              ≡ err account_not_active)
            × ((withdraw (λ d. d) stamp id amount currency teller (open_session after)).0
                ≡ err account_not_active))
frozen_account_is_still admin now id status db r others ms still returned quiet =
    let after = (update_account_status admin now id status (open_session db)).1.committed in
    let f = update_account_status-IsFrozen admin now id status db r still returned in
    let rest =
      perform_all-Rests f.frozen others
        (λ at d h. record { found = quiet at d (h.found ∙ sym f.found) ∙ f.found }) ms after
        (record { found = f.found }) in
    (
      rest.found ∙ sym f.found,
      λ stamp amount currency teller. (
        deposit-IsFrozen id after f stamp amount currency teller,
        withdraw-IsFrozen id after f stamp amount currency teller,
      ),
    )
