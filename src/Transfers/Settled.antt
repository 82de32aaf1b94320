-- ===== src/Transfers/Settled.antt =====
-- What the writes of an executed transfer change, and that the constraints accept them.
use online_banking_system.Prelude.{
  ℕ, ◌<◌, ◌≡◌, ◌≢◌, ◌∙◌, Bool, true, false, some, [], ◌∷◌, ◌++◌, arith, ◌==◌, if◌then◌else◌,
}
use online_banking_system.Prelude.Int.{◌+ℤ◌}
use online_banking_system.Table.{
  lookup, apply_some, lookup-update, all_rows, all_rows-update, all_rows-lookup,
}
use online_banking_system.Db.{Transaction, debit, credit, Db}
use online_banking_system.Db.Constraints.{slot_taken, transaction_check, meets_constraints}
use online_banking_system.Ledger.{shift_balance, posting_entry, post, signed}
use online_banking_system.Ledger.Posting.{
  lookup-post, transactions-post, scheduled_payments-post, users-post, customers-post, ledger-post,
  ledger_check-append, slot_taken-append, accounts-post,
}
use online_banking_system.Ledger.Conservation.{total, total-post}
use online_banking_system.Transactions.{success_row, mark_success, mark_verified}
use online_banking_system.Transactions.Accepted.{Meets-sound, Meets-complete, mark_success-accepted}
use online_banking_system.Transfers.Locked.{Settlement}
use online_banking_system.Transfers.Facts.{IsLocked}
use online_banking_system.Transfers.Execution.{verified, mark_otp_verified, settle}

-- From `before` to `after` the transfer has debited its sender and credited its receiver, with an
-- entry for each and its status SUCCESS; every other account is as it was.
pub record Settles (id now : ℕ) (b : Bool) (t : Settlement) (row : Transaction) (before after : Db)
    : Type 0 where
  pub sender : lookup t.sender_id after.accounts ≡ some (shift_balance debit t.amount t.sender)
  pub receiver :
      lookup t.receiver_id after.accounts ≡ some (shift_balance credit t.credit_amount t.receiver)
  pub elsewhere :
      (j : ℕ)
      → j ≢ t.sender_id
      → j ≢ t.receiver_id
      → lookup j after.accounts ≡ lookup j before.accounts
  pub entries :
      after.ledger
      ≡ (before.ledger
          ++ posting_entry debit id t.sender_id t.amount t.sender.currency t.sender ∷ [])
        ++ posting_entry credit id t.receiver_id t.credit_amount t.receiver.currency t.receiver ∷ []
  pub transaction : lookup id after.transactions ≡ some (verified b (success_row now row))
  pub untouched : (j : ℕ) → j ≢ id → lookup j after.transactions ≡ lookup j before.transactions

module _ (b : Bool) (id now : ℕ) (db : Db) where
  accounts-verified : (mark_otp_verified b id now db).accounts ≡ db.accounts
  unfolding mark_otp_verified
  accounts-verified = ground arith

  ledger-verified : (mark_otp_verified b id now db).ledger ≡ db.ledger
  unfolding mark_otp_verified
  ledger-verified = ground arith

  pub scheduled_payments-verified :
      (mark_otp_verified b id now db).scheduled_payments ≡ db.scheduled_payments
  unfolding mark_otp_verified
  scheduled_payments-verified = ground arith

  users-verified : (mark_otp_verified b id now db).users ≡ db.users
  unfolding mark_otp_verified
  users-verified = ground arith

  customers-verified : (mark_otp_verified b id now db).customers ≡ db.customers
  unfolding mark_otp_verified
  customers-verified = ground arith

  untouched-verified :
      (j : ℕ)
      → j ≢ id
      → lookup j (mark_otp_verified b id now db).transactions ≡ lookup j db.transactions
  unfolding mark_otp_verified mark_verified
  untouched-verified j other = ground (arith, lookup-update j id (verified true) db.transactions)

  transactions-verified :
      (row : Transaction)
      → lookup id db.transactions ≡ some row
      → lookup id (mark_otp_verified b id now db).transactions ≡ some (verified b row)
  unfolding mark_otp_verified mark_verified
  transactions-verified row found =
      ground (arith, lookup-update id id (verified true) db.transactions)

verified-accepted :
    (b : Bool) (id now : ℕ) (db : Db)
    → all_rows transaction_check db.transactions ≡ true
    → all_rows transaction_check (mark_otp_verified b id now db).transactions ≡ true
unfolding mark_otp_verified mark_verified transaction_check
verified-accepted true id now db h =
    all_rows-update transaction_check id (verified true) db.transactions h
      (λ v e. all_rows-lookup transaction_check id v db.transactions h e)
verified-accepted false id now db h = h

module _ (id now : ℕ) (b : Bool) (t : Settlement) (row : Transaction) (db : Db)
    (l : IsLocked id db t row) (apart : t.sender_id ≢ t.receiver_id) where
  abbrev debited : Db
  debited = post debit id t.sender_id t.amount t.sender.currency db

  abbrev posted : Db
  posted = post credit id t.receiver_id t.credit_amount t.receiver.currency debited

  receiver_kept : lookup t.receiver_id debited.accounts ≡ some t.receiver
  receiver_kept =
      lookup-post t.receiver_id debit id t.sender_id t.amount t.sender.currency db
      ∙ ground (arith, l.receiver)

  accounts_posted :
      (j : ℕ)
      → (lookup j debited.accounts ≡ (
          if t.sender_id == j
          then apply_some (shift_balance debit t.amount) (lookup j db.accounts)
          else lookup j db.accounts))
        × (lookup j posted.accounts ≡ (
            if t.receiver_id == j
            then apply_some (shift_balance credit t.credit_amount) (lookup j debited.accounts)
            else lookup j debited.accounts))
  accounts_posted j = (
    lookup-post j debit id t.sender_id t.amount t.sender.currency db,
    lookup-post j credit id t.receiver_id t.credit_amount t.receiver.currency debited,
  )

  transactions_posted : posted.transactions ≡ db.transactions
  transactions_posted =
      transactions-post credit id t.receiver_id t.credit_amount t.receiver.currency debited
      ∙ transactions-post debit id t.sender_id t.amount t.sender.currency db

  ledger_posted :
      posted.ledger
      ≡ (db.ledger ++ posting_entry debit id t.sender_id t.amount t.sender.currency t.sender ∷ [])
        ++ posting_entry credit id t.receiver_id t.credit_amount t.receiver.currency t.receiver ∷ []
  ledger_posted =
      ledger-post credit id t.receiver_id t.credit_amount t.receiver.currency debited t.receiver
        receiver_kept
      ∙ rw (ledger-post debit id t.sender_id t.amount t.sender.currency db t.sender l.sender)

  pub settle-Settles : Settles id now b t row db (settle id now b t db)
  unfolding settle mark_success
  settle-Settles = record {
    sender = rw accounts-verified (ground (arith, accounts_posted t.sender_id, l.sender));
    receiver = rw accounts-verified (ground (arith, accounts_posted t.receiver_id, receiver_kept));
    elsewhere = λ j p q. rw accounts-verified (ground (arith, accounts_posted j));
    entries = rw ledger-verified ledger_posted;
    transaction = transactions-verified b id now _ (success_row now row) (
        rw transactions_posted
          (lookup-update id id (success_row now) db.transactions ∙ ground (arith, l.found)));
    untouched = λ j other.
        untouched-verified b id now (mark_success id now posted) j other
        ∙ rw transactions_posted
            (ground (arith, lookup-update j id (success_row now) db.transactions));
  }

  -- The constraints accept the transfer, given positive amounts and no earlier entries of it.
  pub settle-accepted :
      0 < t.amount
      → 0 < t.credit_amount
      → slot_taken id debit db.ledger ≡ false
      → slot_taken id credit db.ledger ≡ false
      → meets_constraints db ≡ true
      → meets_constraints (settle id now b t db) ≡ true
  unfolding settle mark_success posting_entry
  settle-accepted p q no_debit no_credit met =
      let m = Meets-complete db met in
      let first = posting_entry debit id t.sender_id t.amount t.sender.currency t.sender in
      let second =
        posting_entry credit id t.receiver_id t.credit_amount t.receiver.currency t.receiver in
      Meets-sound (record {
        accounts = rw accounts-verified (
            accounts-post credit id t.receiver_id t.credit_amount t.receiver.currency debited
              t.receiver receiver_kept tt
              (accounts-post debit id t.sender_id t.amount t.sender.currency db t.sender l.sender
                l.covered m.accounts));
        transactions = verified-accepted b id now (mark_success id now posted) (
            mark_success-accepted posted.transactions (rw transactions_posted m.transactions) id
              now);
        schedules = rw (scheduled_payments-verified b id now (mark_success id now posted)) (
            rw
              (scheduled_payments-post credit id t.receiver_id t.credit_amount t.receiver.currency
                debited)
              (rw (scheduled_payments-post debit id t.sender_id t.amount t.sender.currency db)
                m.schedules));
        emails = rw (users-verified b id now (mark_success id now posted)) (
            rw (users-post credit id t.receiver_id t.credit_amount t.receiver.currency debited)
              (rw (users-post debit id t.sender_id t.amount t.sender.currency db) m.emails));
        national_ids = rw (customers-verified b id now (mark_success id now posted)) (
            rw (customers-post credit id t.receiver_id t.credit_amount t.receiver.currency debited)
              (rw (customers-post debit id t.sender_id t.amount t.sender.currency db)
                m.national_ids));
        ledger = rw ledger-verified (
            rw ledger_posted (
              ledger_check-append (db.ledger ++ first ∷ []) second
                (ledger_check-append db.ledger first m.ledger no_debit p)
                (ground (arith, slot_taken-append id credit db.ledger first)) q));
      })

  -- Money is conserved: each currency's total changes by what was credited in it less what was
  -- debited in it.
  pub total-settle :
      (c : ℕ)
      → total c (settle id now b t db).accounts ≡ (
          if t.receiver.currency == c
          then (if t.sender.currency == c
              then total c db.accounts +ℤ signed debit t.amount
              else total c db.accounts)
            +ℤ signed credit t.credit_amount
          else if t.sender.currency == c
          then total c db.accounts +ℤ signed debit t.amount
          else total c db.accounts)
  unfolding settle mark_success
  total-settle c = rw accounts-verified (
      total-post credit id t.receiver_id t.credit_amount t.receiver.currency c debited t.receiver
        receiver_kept
      ∙ rw (total-post debit id t.sender_id t.amount t.sender.currency c db t.sender l.sender))
