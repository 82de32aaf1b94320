-- ===== src/Admin/Views.antt =====
-- The pages of the back office. `order` is what ORDER BY makes of the rows. The free-text search is
-- left out.
use online_banking_system.Prelude.{ℕ, Bool, true, false, ◌&&◌, Option, ◌==◌, is_none, not}
use online_banking_system.Table.{Table}
use online_banking_system.Pages.{where_rows, page_of, optionally}
use online_banking_system.Db.{
  Account, AccountStatus, Card, CardStatus, CustomerRow, CustomerStatus, Beneficiary, Db,
}
use online_banking_system.Admin.Checks.{is_removed}

abbrev pub same_customer_status : CustomerStatus → CustomerStatus → Bool
same_customer_status CustomerStatus.active CustomerStatus.active = true
same_customer_status CustomerStatus.blocked CustomerStatus.blocked = true
same_customer_status CustomerStatus.pending_verification CustomerStatus.pending_verification = true
same_customer_status _ _ = false

unfoldable pub list_customers :
    (Table CustomerRow → Table CustomerRow)
    → ℕ
    → ℕ
    → Option CustomerStatus
    → Db
    → Table CustomerRow × ℕ
unfolding where_rows page_of
list_customers order page page_size status db = page_of order page page_size (
    where_rows (λ c. is_none c.deleted_at && optionally (same_customer_status c.status) status)
      db.customers)

abbrev pub same_account_status : AccountStatus → AccountStatus → Bool
same_account_status AccountStatus.active AccountStatus.active = true
same_account_status AccountStatus.blocked AccountStatus.blocked = true
same_account_status AccountStatus.closed AccountStatus.closed = true
same_account_status AccountStatus.pending AccountStatus.pending = true
same_account_status _ _ = false

unfoldable pub list_accounts :
    (Table Account → Table Account)
    → ℕ
    → ℕ
    → Option AccountStatus
    → Option ℕ
    → Db
    → Table Account × ℕ
unfolding where_rows page_of
list_accounts order page page_size status customer_id db = page_of order page page_size (
    where_rows
      (λ a.
        optionally (same_account_status a.status) status
        && optionally (λ id. a.customer_id == id) customer_id)
      db.accounts)

abbrev pub same_card_status : CardStatus → CardStatus → Bool
same_card_status CardStatus.active CardStatus.active = true
same_card_status CardStatus.blocked CardStatus.blocked = true
same_card_status CardStatus.expired CardStatus.expired = true
same_card_status _ _ = false

unfoldable pub list_cards :
    (Table Card → Table Card) → ℕ → ℕ → Option CardStatus → Db → Table Card × ℕ
unfolding where_rows page_of
list_cards order page page_size status db = page_of order page page_size (
    where_rows (λ c. is_none c.deleted_at && optionally (same_card_status c.status) status)
      db.cards)

unfoldable pub list_beneficiaries :
    (Table Beneficiary → Table Beneficiary) → ℕ → ℕ → Db → Table Beneficiary × ℕ
unfolding where_rows page_of
list_beneficiaries order page page_size db =
    page_of order page page_size (where_rows (λ b. not (is_removed b.status)) db.beneficiaries)
