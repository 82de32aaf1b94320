-- ===== src/Admin/Resting.antt =====
-- The row of an account that is not active, under the operations that move money.
use online_banking_system.Prelude.{
  ℕ, ◌≡◌, ◌≢◌, refl, ◌∙◌, ◌⊎◌, inl, inr, Option-cases, Bool, true, false, Option, none, some, arith,
}
use online_banking_system.Table.{lookup}
use online_banking_system.Db.{
  is_active, Account, Transaction, TransactionType, LedgerEntryType, debit, credit, Db,
}
use online_banking_system.Session.Check.{ok}
use online_banking_system.Ledger.{post}
use online_banking_system.Ledger.Posting.{lookup-post}
use online_banking_system.Transactions.{Stamp, NewTransaction, create, mark_success}
use online_banking_system.Transfers.{settle, mark_otp_verified}
use online_banking_system.Transfers.Locked.{Settlement, locked_checks}
use online_banking_system.Transfers.Facts.{locked_checks-facts}
use online_banking_system.Teller.{
  deposit_checks, withdrawal_checks, deposit_writes, withdrawal_writes,
}
use online_banking_system.Cards.{payment_checks}
use online_banking_system.Reversal.{post_side, reversal_row, reversal_writes}
use online_banking_system.Reversal.Checks.{
  Reversal, reverse_transfer, reverse_deposit, reverse_withdrawal, by_type, reversal_checks,
}

-- The account's row is this one.
pub record Rests (id : ℕ) (a : Account) (db : Db) : Type 0 where
  pub found : lookup id db.accounts ≡ some a

-- What passes the checks of a reversal: the accounts that it debits and credits are active.
abbrev ActiveSide : Option ℕ → Db → Type 0
ActiveSide side db =
    (k : ℕ) (b : Account)
    → side ≡ some k
    → lookup k db.accounts ≡ some b
    → is_active b.status ≡ true

abbrev ActiveSides : Reversal → Db → Type 0
ActiveSides plan db = ActiveSide plan.new_sender_id db × ActiveSide plan.new_receiver_id db

module _ (db : Db) (original : Transaction) (plan : Reversal) where
  transfer_sides : reverse_transfer db original ≡ ok plan → ActiveSides plan db
  unfolding reverse_transfer
  transfer_sides passed = (λ k b side found. ground arith, λ k b side found. ground arith)

  deposit_sides : reverse_deposit db original ≡ ok plan → ActiveSides plan db
  unfolding reverse_deposit
  deposit_sides passed = (λ k b side found. ground arith, λ k b side found. ground arith)

  withdrawal_sides : reverse_withdrawal db original ≡ ok plan → ActiveSides plan db
  unfolding reverse_withdrawal
  withdrawal_sides passed = (λ k b side found. ground arith, λ k b side found. ground arith)

  type_sides : (kind : TransactionType) → by_type db original kind ≡ ok plan → ActiveSides plan db
  unfolding by_type
  type_sides TransactionType.transfer passed = transfer_sides passed
  type_sides TransactionType.deposit passed = deposit_sides passed
  type_sides TransactionType.withdrawal passed = withdrawal_sides passed
  type_sides TransactionType.card_payment passed = cc passed

module _ {id : ℕ} {a : Account} (frozen : is_active a.status ≡ false) where
  active-apart :
      {db : Db} (k : ℕ)
      → ((b : Account) → lookup k db.accounts ≡ some b → is_active b.status ≡ true)
      → Rests id a db
      → k ≢ id
  active-apart k active h same = cc (active a (rw (← same) at h.found), frozen)

  pub deposit-apart :
      (k currency : ℕ) (db : Db) (b : Account)
      → deposit_checks k currency db ≡ ok b
      → Rests id a db
      → k ≢ id
  unfolding deposit_checks
  deposit-apart k currency db b passed = active-apart k (λ c found. ground arith)

  pub withdrawal-apart :
      (k n currency : ℕ) (db : Db) (b : Account)
      → withdrawal_checks k n currency db ≡ ok b
      → Rests id a db
      → k ≢ id
  unfolding withdrawal_checks
  withdrawal-apart k n currency db b passed = active-apart k (λ c found. ground arith)

  pub payment-apart :
      (card n currency k : ℕ) (db : Db)
      → payment_checks card n currency db ≡ ok k
      → Rests id a db
      → k ≢ id
  unfolding payment_checks
  payment-apart card n currency k db passed = active-apart k (λ c found. ground arith)

  post-Rests :
      (kind : LedgerEntryType) (tx k n c : ℕ) (db : Db)
      → k ≢ id
      → Rests id a db
      → Rests id a (post kind tx k n c db)
  post-Rests kind tx k n c db apart h = record {
    found = lookup-post id kind tx k n c db ∙ (let there = h.found in ground (arith, apart, there));
  }

  reversal-apart :
      (tx k : ℕ) (db : Db) (plan : Reversal)
      → reversal_checks tx db ≡ ok plan
      → Rests id a db
      → ((plan.new_sender_id ≡ some k) ⊎ (plan.new_receiver_id ≡ some k))
      → k ≢ id
  unfolding reversal_checks
  reversal-apart tx k db plan passed h side = elim (Option-cases (lookup tx db.transactions)) [
    | inl gone ↦ absurd (ground (arith, gone))
    | inr (t, known) ↦
        let typed : by_type db t t.transaction_type ≡ ok plan = ground (arith, known) in
        let sides = type_sides db t plan t.transaction_type typed in
        elim side [
          | inl sends ↦ active-apart k (λ b found. sides.0 k b sends found) h
          | inr receives ↦ active-apart k (λ b found. sides.1 k b receives found) h
        ]
  ]

  pub deposit_writes-Rests :
      (stamp : Stamp) (row : NewTransaction) (k : ℕ) (db : Db)
      → k ≢ id
      → Rests id a db
      → Rests id a (deposit_writes stamp row k db)
  unfolding deposit_writes create mark_success
  deposit_writes-Rests stamp row k db apart h = record {
    found =
        (post-Rests credit stamp.id k row.amount row.currency (create stamp row db) apart
          (record { found = h.found })).found;
  }

  pub withdrawal_writes-Rests :
      (stamp : Stamp) (row : NewTransaction) (k : ℕ) (db : Db)
      → k ≢ id
      → Rests id a db
      → Rests id a (withdrawal_writes stamp row k db)
  unfolding withdrawal_writes create mark_success
  withdrawal_writes-Rests stamp row k db apart h = record {
    found =
        (post-Rests debit stamp.id k row.amount row.currency (create stamp row db) apart
          (record { found = h.found })).found;
  }

  side-Rests :
      (kind : LedgerEntryType) (tx : ℕ) (side : Option ℕ) (t : Transaction) (db : Db)
      → ((k : ℕ) → side ≡ some k → k ≢ id)
      → Rests id a db
      → Rests id a (post_side kind tx side t db)
  unfolding post_side
  side-Rests kind tx none t db apart h = h
  side-Rests kind tx (some k) t db apart h =
      post-Rests kind tx k t.amount t.currency db (apart k refl) h

  pub reversal_writes-Rests :
      (stamp : Stamp) (tx admin : ℕ) (plan : Reversal) (db : Db)
      → reversal_checks tx db ≡ ok plan
      → Rests id a db
      → Rests id a (reversal_writes stamp tx admin plan db)
  unfolding reversal_writes create mark_success
  reversal_writes-Rests stamp tx admin plan db passed h =
      let apart = λ (k : ℕ). reversal-apart tx k db plan passed h in
      let created = create stamp (reversal_row plan tx admin) db in
      let debited =
        side-Rests debit stamp.id plan.new_sender_id plan.original created
          (λ k sends. apart k (inl sends)) (record { found = h.found }) in
      let credited =
        side-Rests credit stamp.id plan.new_receiver_id plan.original _
          (λ k receives. apart k (inr receives)) debited in
      record { found = credited.found }

  verified-Rests :
      (b : Bool) (tx now : ℕ) (db : Db) → Rests id a db → Rests id a (mark_otp_verified b tx now db)
  unfolding mark_otp_verified
  verified-Rests true tx now db h = record { found = h.found }
  verified-Rests false tx now db h = h

  pub settle-Rests :
      (tx now : ℕ) (b : Bool) (t : Settlement) (db : Db)
      → locked_checks tx db ≡ ok t
      → Rests id a db
      → Rests id a (settle tx now b t db)
  unfolding settle mark_success
  settle-Rests tx now b t db passed h =
      let (row, l) = locked_checks-facts tx db t passed in
      let sends =
        active-apart t.sender_id (λ c found. ground (arith, found, l.sender, l.sender_active)) h in
      let receives =
        active-apart t.receiver_id (λ c found. ground (arith, found, l.receiver, l.receiver_active))
          h in
      let debited = post-Rests debit tx t.sender_id t.amount t.sender.currency db sends h in
      let posted =
        post-Rests credit tx t.receiver_id t.credit_amount t.receiver.currency _ receives debited in
      verified-Rests b tx now _ (record { found = posted.found })
