-- ===== src/Portal/Transactions.antt =====
-- The transactions that a customer sees: list_for_customer, get_owned_transaction,
-- search_by_reference, get_ledger_entries and _customer_owns_transaction of TransactionService, with
-- the queries of TransactionRepository and LedgerEntryRepository.
use online_banking_system.Prelude.{
  ℕ, Bool, false, ◌||◌, Option, none, some, List, [], ◌∷◌, ◌==◌, if◌then◌else◌,
}
use online_banking_system.Table.{Table, lookup, find_by}
use online_banking_system.Pages.{where_rows, page_of}
use online_banking_system.Db.{not_found, Account, Transaction, LedgerEntry, Customer, Db}
use online_banking_system.Session.Check.{Result, ok, ◌>>=◌, ◌>>◌, require, or_raise}
use online_banking_system.Accounts.{list_for_customer}

-- `[a.id for a in accounts]`
unfoldable pub ids_of {ℓ} : {V : Type ℓ} → Table V → List ℕ
ids_of [] = []
ids_of ((id, _) ∷ rows) = id ∷ ids_of rows

-- `column.in_(ids)`, false for NULL
unfoldable pub is_in : Option ℕ → List ℕ → Bool
is_in none ids = false
is_in (some id) [] = false
is_in (some id) (j ∷ ids) = j == id || is_in (some id) ids

-- `or_(sender_account_id.in_(account_ids), receiver_account_id.in_(account_ids))`
unfoldable pub touches : List ℕ → Transaction → Bool
unfolding is_in
touches account_ids t =
    is_in t.sender_account_id account_ids || is_in t.receiver_account_id account_ids

-- list_for_customer_accounts
unfoldable pub list_for_customer_accounts :
    (Table Transaction → Table Transaction) → ℕ → ℕ → List ℕ → Db → Table Transaction × ℕ
unfolding touches where_rows page_of
list_for_customer_accounts order page page_size account_ids db =
    page_of order page page_size (where_rows (touches account_ids) db.transactions)

-- `if not account_ids: return [], 0`
abbrev pub unless_empty : List ℕ → Table Transaction × ℕ → Table Transaction × ℕ
unless_empty [] rows = ([], 0)
unless_empty (id ∷ ids) rows = rows

-- `order` is what ORDER BY makes of the rows.
unfoldable pub list_transactions :
    (Table Transaction → Table Transaction) → Customer → ℕ → ℕ → Db → Table Transaction × ℕ
unfolding ids_of list_for_customer list_for_customer_accounts
list_transactions order customer page page_size db =
    let account_ids = ids_of (list_for_customer customer.id db.accounts) in
    unless_empty account_ids (list_for_customer_accounts order page page_size account_ids db)

abbrev pub is_customers : Customer → Option Account → Bool
is_customers customer none = false
is_customers customer (some a) = a.customer_id == customer.id

-- One side of _customer_owns_transaction.
unfoldable pub owns_side : Db → Customer → Option ℕ → Bool
owns_side db customer none = false
owns_side db customer (some id) = is_customers customer (lookup id db.accounts)

unfoldable pub customer_owns_transaction : Db → Customer → Transaction → Bool
unfolding owns_side
customer_owns_transaction db customer t =
    owns_side db customer t.sender_account_id || owns_side db customer t.receiver_account_id

unfoldable pub get_owned_transaction : Customer → ℕ → Db → Result Transaction
unfolding customer_owns_transaction
get_owned_transaction customer id db = do
  t ← or_raise (lookup id db.transactions) not_found
  require (customer_owns_transaction db customer t) not_found
  ok t

-- get_by_reference_number; the reference number is UNIQUE.
unfoldable pub search_by_reference : Customer → ℕ → Db → Result (ℕ × Transaction)
unfolding customer_owns_transaction
search_by_reference customer reference db = do
  t ← or_raise (find_by (λ t. t.reference_number == reference) db.transactions) not_found
  require (customer_owns_transaction db customer t.1) not_found
  ok t

-- LedgerEntryRepository.list_for_transaction; the ledger is in the order of `created_at`.
unfoldable pub entries_of : ℕ → List LedgerEntry → List LedgerEntry
entries_of transaction_id [] = []
entries_of transaction_id (e ∷ es) =
    let rest = entries_of transaction_id es in
    if e.transaction_id == transaction_id then e ∷ rest else rest
