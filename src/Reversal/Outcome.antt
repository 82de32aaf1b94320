-- ===== src/Reversal/Outcome.antt =====
-- What reverse_transaction does to the accounts of a transfer and to the original.
use online_banking_system.Prelude.{
  ℕ, ◌≡◌, refl, ◌∙◌, Option, none, some, [], ◌∷◌, arith, ◌==◌, if◌then◌else◌, Bool-cases,
  Option-cases, inl, inr,
}
use online_banking_system.Table.{Table, lookup, apply_some, insert, update, lookup-update}
use online_banking_system.Db.{
  transaction_not_reversible, Transaction, TransactionType, TransactionStatus, LedgerEntryType,
  debit, credit, Db,
}
use online_banking_system.Session.{open_session}
use online_banking_system.Session.Check.{ok, err}
use online_banking_system.Session.Messages.{audit, admin_transaction_reversed}
use online_banking_system.Session.Atomic.{one_write, one_write_ok, one_write_refused}
use online_banking_system.Ledger.{shift_balance}
use online_banking_system.Ledger.Posting.{lookup-post, transactions-post}
use online_banking_system.Transactions.{Stamp, new_row, create, mark_success, success_row}
use online_banking_system.Reversal.{reversal_row, post_side, reversal_writes, reverse_transaction}
use online_banking_system.Reversal.Checks.{Reversal, by_type, reverse_transfer, reversal_checks}

-- The plan for a transfer swaps its accounts.
pub reversal_checks-transfer :
    (id sender_id receiver_id : ℕ) (row : Transaction) (plan : Reversal) (db : Db)
    → lookup id db.transactions ≡ some row
    → row.transaction_type ≡ TransactionType.transfer
    → row.sender_account_id ≡ some sender_id
    → row.receiver_account_id ≡ some receiver_id
    → reversal_checks id db ≡ ok plan
    → (plan.original ≡ row)
      × (plan.new_sender_id ≡ some receiver_id)
      × (plan.new_receiver_id ≡ some sender_id)
unfolding reversal_checks by_type reverse_transfer
reversal_checks-transfer id s r row plan db found kind from to passed = ground arith

-- Whatever is reversed, its row is there and is SUCCESS.
reversal_checks-row :
    (id : ℕ) (plan : Reversal) (db : Db)
    → reversal_checks id db ≡ ok plan
    → (row : Transaction) × (lookup id db.transactions ≡ some row)
unfolding reversal_checks
reversal_checks-row id plan db passed = elim (Option-cases (lookup id db.transactions)) [
  | inl gone ↦ absurd (ground arith)
  | inr found ↦ found
]

accounts-post_side :
    (kind : LedgerEntryType) (tx j a : ℕ) (o : Option ℕ) (t : Transaction) (db : Db)
    → o ≡ some a
    → lookup j (post_side kind tx o t db).accounts ≡ (
        if a == j
        then apply_some (shift_balance kind t.amount) (lookup j db.accounts)
        else lookup j db.accounts)
unfolding post_side
accounts-post_side kind tx j a none t db e = cc
accounts-post_side kind tx j a (some b) t db e =
    ground (arith, lookup-post j kind tx b t.amount t.currency db)

transactions-post_side :
    (kind : LedgerEntryType) (tx : ℕ) (o : Option ℕ) (t : Transaction) (db : Db)
    → (post_side kind tx o t db).transactions ≡ db.transactions
unfolding post_side
transactions-post_side kind tx none t db = refl
transactions-post_side kind tx (some a) t db = transactions-post kind tx a t.amount t.currency db

-- Rows stay when others are inserted or updated.
IsThere : ℕ → Table Transaction → Type 0
IsThere id t = (x : Transaction) × (lookup id t ≡ some x)

insert-IsThere :
    (k id : ℕ) (v : Transaction) (t : Table Transaction) → IsThere id t → IsThere id (insert k v t)
unfolding IsThere
insert-IsThere k id v t (x, found) = elim (Bool-cases (k == id)) [
  | inl same ↦ (v, rw same)
  | inr other ↦ (x, rw other found)
]

update-IsThere :
    (k id : ℕ) (f : Transaction → Transaction) (t : Table Transaction)
    → IsThere id t
    → IsThere id (update k f t)
unfolding IsThere
update-IsThere k id f t (x, found) = elim (Bool-cases (k == id)) [
  | inl same ↦ (f x, lookup-update id k f t ∙ rw same (rw found))
  | inr other ↦ (x, lookup-update id k f t ∙ rw other found)
]

mark-reversed :
    (id : ℕ) (t : Table Transaction)
    → IsThere id t
    → (x : Transaction) × (lookup id
          (update id (λ r. record r { status = TransactionStatus.reversed }) t)
        ≡ some x)
      × (x.status ≡ TransactionStatus.reversed)
unfolding IsThere
mark-reversed id t (x, found) = (
  record x { status = TransactionStatus.reversed },
  lookup-update id id (λ r. record r { status = TransactionStatus.reversed }) t
      ∙ ground (arith, found),
  refl,
)

already_reversed :
    (id : ℕ) (x : Transaction) (db : Db)
    → lookup id db.transactions ≡ some x
    → x.status ≡ TransactionStatus.reversed
    → reversal_checks id db ≡ err transaction_not_reversible
unfolding reversal_checks
already_reversed id x db marked is_reversed = rw marked (ground arith)

module _ (stamp : Stamp) (id admin : ℕ) (plan : Reversal) (db : Db) where
  abbrev pub created : Db
  created = create stamp (reversal_row plan id admin) db

  abbrev pub debited : Db
  debited = post_side debit stamp.id plan.new_sender_id plan.original created

  -- From the plan of a transfer, the account that was credited is debited, and the other credited.
  pub accounts-reversal_writes :
      (j sender_id receiver_id : ℕ)
      → plan.new_sender_id ≡ some receiver_id
      → plan.new_receiver_id ≡ some sender_id
      → (lookup j debited.accounts ≡ (
          if receiver_id == j
          then apply_some (shift_balance debit plan.original.amount) (lookup j db.accounts)
          else lookup j db.accounts))
        × (lookup j (reversal_writes stamp id admin plan db).accounts ≡ (
            if sender_id == j
            then apply_some (shift_balance credit plan.original.amount) (lookup j debited.accounts)
            else lookup j debited.accounts))
  unfolding reversal_writes mark_success create
  accounts-reversal_writes j s r from to = (
    accounts-post_side debit stamp.id j r plan.new_sender_id plan.original created from,
    accounts-post_side credit stamp.id j s plan.new_receiver_id plan.original debited to,
  )

  -- The original's row is REVERSED.
  transactions-reversal_writes :
      (row : Transaction)
      → lookup id db.transactions ≡ some row
      → (x : Transaction) × (lookup id (reversal_writes stamp id admin plan db).transactions
          ≡ some x)
        × (x.status ≡ TransactionStatus.reversed)
  unfolding reversal_writes mark_success create IsThere
  transactions-reversal_writes row found =
      let credited = post_side credit stamp.id plan.new_receiver_id plan.original debited in
      let same : credited.transactions ≡ created.transactions =
        transactions-post_side credit stamp.id plan.new_receiver_id plan.original debited
        ∙ transactions-post_side debit stamp.id plan.new_sender_id plan.original created in
      mark-reversed id (update stamp.id (success_row stamp.now) credited.transactions) (
        update-IsThere stamp.id id (success_row stamp.now) credited.transactions (
          rw same (
            insert-IsThere stamp.id id (new_row stamp (reversal_row plan id admin)) db.transactions
              (row, found))))

-- A transaction is reversed at most once: after a reversal has returned, a further reversal of
-- the same transaction, with no other request in between, raises TransactionNotReversibleError
-- and commits nothing.
pub reverse_once :
    (others : Db → Db) (stamp again : Stamp) (admin id r : ℕ) (db : Db)
    → (reverse_transaction others stamp admin id (open_session db)).0 ≡ ok r
    → let after = (reverse_transaction others stamp admin id (open_session db)).1.committed in
      let out = reverse_transaction (λ d. d) again admin id (open_session after) in
      (out.0 ≡ err transaction_not_reversible) × (out.1.committed ≡ after)
unfolding reverse_transaction one_write
reverse_once others stamp again admin id r db returned =
    let (plan, passed, done) =
      one_write_ok others (reversal_checks id) (reversal_writes stamp id admin)
        (audit admin admin_transaction_reversed id ∷ []) stamp.id db r returned in
    let (row, found) = reversal_checks-row id plan (others db) passed in
    let (x, marked, is_reversed) =
      transactions-reversal_writes stamp id admin plan (others db) row found in
    one_write_refused (λ d. d) (reversal_checks id) (reversal_writes again id admin)
      (audit admin admin_transaction_reversed id ∷ []) again.id _ transaction_not_reversible
      (rw done (
        already_reversed id x (reversal_writes stamp id admin plan (others db)) marked is_reversed))
