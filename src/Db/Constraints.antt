-- ===== src/Db/Constraints.antt =====
-- The CHECK and UNIQUE constraints that PostgreSQL enforces on the tables: the
-- `__table_args__` of the models in backend/app/modules/{accounts,transactions,ledger_entries}.
use online_banking_system.Prelude.{
  ℕ, Bool, true, false, not, ◌&&◌, ◌||◌, Option, some, List, [], ◌∷◌, ltb, ◌==◌, is_some, is_none,
}
use online_banking_system.Prelude.Int.{pos, leb_ℤ}
use online_banking_system.Table.{Table, all_rows}
use online_banking_system.Db.Rows.{
  Account, Transaction, TransactionType, ScheduledPayment, User, CustomerRow, LedgerEntry,
  LedgerEntryType, debit, credit, Db,
}

-- ck_accounts_balance_non_negative
abbrev pub account_check : Account → Bool
account_check a = leb_ℤ (pos 0) a.balance

-- ck_transactions_distinct_accounts: an unknown comparison satisfies the CHECK
abbrev pub distinct_accounts : Option ℕ → Option ℕ → Bool
distinct_accounts (some a) (some b) = not (a == b)
distinct_accounts _ _ = true

-- ck_transactions_accounts_match_type
abbrev pub accounts_match_type : TransactionType → Option ℕ → Option ℕ → Bool
accounts_match_type TransactionType.transfer s r = is_some s && is_some r
accounts_match_type TransactionType.deposit s r = is_none s && is_some r
accounts_match_type TransactionType.withdrawal s r = is_some s && is_none r
accounts_match_type TransactionType.card_payment s r = is_some s && is_none r

unfoldable pub transaction_check : Transaction → Bool
transaction_check t =
    ltb 0 t.amount
    && distinct_accounts t.sender_account_id t.receiver_account_id
    && accounts_match_type t.transaction_type t.sender_account_id t.receiver_account_id

abbrev pub same_type : LedgerEntryType → LedgerEntryType → Bool
same_type debit debit = true
same_type credit credit = true
same_type _ _ = false

-- Some row holds the UNIQUE pair (transaction_id, entry_type).
unfoldable pub slot_taken : ℕ → LedgerEntryType → List LedgerEntry → Bool
slot_taken t k [] = false
slot_taken t k (e ∷ es) = e.transaction_id == t && same_type e.entry_type k || slot_taken t k es

-- ck_ledger_entries_amount_positive and uq_ledger_entries_transaction_entry_type
unfoldable pub ledger_check : List LedgerEntry → Bool
ledger_check [] = true
ledger_check (e ∷ es) =
    ltb 0 e.amount && not (slot_taken e.transaction_id e.entry_type es) && ledger_check es

-- ck_scheduled_payments_amount_positive
abbrev pub scheduled_payment_check : ScheduledPayment → Bool
scheduled_payment_check p = ltb 0 p.amount

-- Some row meets a condition.
unfoldable pub some_row {ℓ} : {V : Type ℓ} → (V → Bool) → Table V → Bool
some_row p [] = false
some_row p ((_, v) ∷ t) = p v || some_row p t

-- UNIQUE (email)
unfoldable pub unique_emails : Table User → Bool
unfolding some_row
unique_emails [] = true
unique_emails ((_, u) ∷ t) = not (some_row (λ v. v.email == u.email) t) && unique_emails t

-- UNIQUE (national_id): NULL equals nothing
abbrev pub same_national_id : Option ℕ → Option ℕ → Bool
same_national_id (some a) (some b) = a == b
same_national_id _ _ = false

unfoldable pub unique_national_ids : Table CustomerRow → Bool
unfolding some_row
unique_national_ids [] = true
unique_national_ids ((_, c) ∷ t) =
    not (some_row (λ d. same_national_id d.national_id c.national_id) t) && unique_national_ids t

unfoldable pub meets_constraints : Db → Bool
unfolding all_rows transaction_check ledger_check slot_taken unique_emails unique_national_ids
    some_row
meets_constraints db =
    all_rows account_check db.accounts
    && all_rows transaction_check db.transactions
    && ledger_check db.ledger
    && all_rows scheduled_payment_check db.scheduled_payments
    && unique_emails db.users
    && unique_national_ids db.customers
