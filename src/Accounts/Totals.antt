-- ===== src/Accounts/Totals.antt =====
-- The balances on the dashboard.
use online_banking_system.Prelude.{
  ℕ, ◌+◌, ◌≡◌, ◌≤◌, refl, not, ◌&&◌, Option, none, some, [], ◌∷◌, ◌==◌, arith, if◌then◌else◌,
  Bool-cases, inl, inr, ◌∙◌, ap,
}
use online_banking_system.Prelude.Int.{ℤ, pos, ◌+ℤ◌, int_laws, +ℤ_assoc, zero-+ℤ}
use online_banking_system.Table.{Table, lookup}
use online_banking_system.Db.{Account, Customer, Db}
use online_banking_system.Accounts.{
  is_closed, list_for_customer, add_total, add_totals, total_balance_by_currency, get_dashboard,
}

-- The total of a currency, 0 if it has none.
abbrev pub or_zero : Option ℤ → ℤ
or_zero none = pos 0
or_zero (some total) = total

unfoldable pub total_of : ℕ → Table ℤ → ℤ
total_of currency totals = or_zero (lookup currency totals)

-- How often a currency is listed.
unfoldable pub listings : ℕ → Table ℤ → ℕ
listings currency [] = 0
listings currency ((c, _) ∷ totals) = (if c == currency then 1 else 0) + listings currency totals

-- What an account adds to a currency.
abbrev pub share : ℕ → Account → ℤ
share currency a = if not (is_closed a.status) && a.currency == currency then a.balance else pos 0

-- The sum of a customer's balances in a currency, over the accounts that are not closed.
unfoldable pub customer_balance : ℕ → ℕ → Table Account → ℤ
customer_balance id currency [] = pos 0
customer_balance id currency ((_, a) ∷ accounts) =
    (if a.customer_id == id then share currency a else pos 0)
    +ℤ customer_balance id currency accounts

module _ (currency : ℕ) where
  total_of-add_total :
      (c : ℕ) (balance : ℤ) (totals : Table ℤ)
      → total_of currency (add_total c balance totals)
        ≡ (if c == currency then total_of currency totals +ℤ balance else total_of currency totals)
  unfolding total_of add_total
  total_of-add_total c balance [] = ground arith
  total_of-add_total c balance ((d, total) ∷ totals) =
      ground (arith, total_of-add_total c balance totals)

  listings-add_total :
      (c : ℕ) (balance : ℤ) (totals : Table ℤ)
      → listings currency (add_total c balance totals)
        ≡ (if c == currency && listings currency totals == 0 then 1 else listings currency totals)
  unfolding listings add_total
  listings-add_total c balance [] = ground arith
  listings-add_total c balance ((d, total) ∷ totals) =
      ground (arith, listings-add_total c balance totals)

  -- The sum over a list of accounts.
  sum_shares : Table Account → ℤ
  sum_shares [] = pos 0
  sum_shares ((_, a) ∷ accounts) = share currency a +ℤ sum_shares accounts

  sum_shares-list_for_customer :
      (id : ℕ) (accounts : Table Account)
      → sum_shares (list_for_customer id accounts) ≡ customer_balance id currency accounts
  unfolding sum_shares list_for_customer customer_balance
  sum_shares-list_for_customer id [] = refl
  sum_shares-list_for_customer id ((k, a) ∷ accounts) = elim (Bool-cases (a.customer_id == id)) [
    | inl own ↦ rw own (ap (λ x. share currency a +ℤ x) (sum_shares-list_for_customer id accounts))
    | inr other ↦ rw other (sum_shares-list_for_customer id accounts ∙ omega int_laws)
  ]

  total_of-share :
      (a : Account) (totals : Table ℤ)
      → total_of currency
          (if is_closed a.status then totals else add_total a.currency a.balance totals)
        ≡ total_of currency totals +ℤ share currency a
  total_of-share a totals = elim (Bool-cases (is_closed a.status)) [
    | inl closed ↦ rw closed (omega int_laws)
    | inr counted ↦ rw counted (elim (Bool-cases (a.currency == currency)) [
      | inl same ↦ total_of-add_total a.currency a.balance totals ∙ rw same refl
      | inr differs ↦ total_of-add_total a.currency a.balance totals ∙ rw differs (omega int_laws)
    ])
  ]

  add_totals-total :
      (accounts : Table Account) (totals : Table ℤ)
      → total_of currency (add_totals accounts totals)
        ≡ total_of currency totals +ℤ sum_shares accounts
  unfolding add_totals sum_shares
  add_totals-total [] totals = omega int_laws
  add_totals-total ((k, a) ∷ accounts) totals =
      let next = if is_closed a.status then totals else add_total a.currency a.balance totals in
      add_totals-total accounts next
      ∙ ap (λ x. x +ℤ sum_shares accounts) (total_of-share a totals)
      ∙ +ℤ_assoc (total_of currency totals) (share currency a) (sum_shares accounts)

  add_totals-listings :
      (accounts : Table Account) (totals : Table ℤ)
      → listings currency totals ≤ 1
      → listings currency (add_totals accounts totals) ≤ 1
  unfolding add_totals
  add_totals-listings [] totals le = le
  add_totals-listings ((k, a) ∷ accounts) totals le = elim (Bool-cases (is_closed a.status)) [
    | inl closed ↦ rw closed (add_totals-listings accounts totals le)
    | inr counted ↦ rw counted (
        add_totals-listings accounts (add_total a.currency a.balance totals)
          (ground (arith, le, listings-add_total a.currency a.balance totals)))
  ]

-- The dashboard shows what the customer owns: for every currency, its total is the sum of the
-- balances of the customer's accounts in that currency that are not closed, and no currency is
-- listed twice.
pub dashboard_shows_balances :
    (customer : Customer) (db : Db) (currency : ℕ)
    → let totals = (get_dashboard customer db).balances_by_currency in
      (total_of currency totals ≡ customer_balance customer.id currency db.accounts)
      × (listings currency totals ≤ 1)
unfolding get_dashboard total_balance_by_currency listings total_of
dashboard_shows_balances customer db currency = (
  add_totals-total currency (list_for_customer customer.id db.accounts) []
      ∙ zero-+ℤ (sum_shares currency (list_for_customer customer.id db.accounts))
      ∙ sum_shares-list_for_customer currency customer.id db.accounts,
  add_totals-listings currency (list_for_customer customer.id db.accounts) [] (ground arith),
)
