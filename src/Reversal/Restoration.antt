-- ===== src/Reversal/Restoration.antt =====
-- A transfer and its reversal, one after the other.
use online_banking_system.Prelude.{
  ℕ, ◌≡◌, ◌≢◌, ◌↔◌, refl, ap, sym, ◌∙◌, Bool, Option, some, [], ◌∷◌, arith,
}
use online_banking_system.Prelude.Int.{ℤ, pos, ◌+ℤ◌, ◌-ℤ◌, pos_part, neg_part, int_laws}
use online_banking_system.Table.{lookup}
use online_banking_system.Db.{Account, Transaction, TransactionType, debit, credit, Db}
use online_banking_system.Session.{open_session}
use online_banking_system.Session.Check.{ok}
use online_banking_system.Session.Messages.{audit, admin_transaction_reversed}
use online_banking_system.Session.Atomic.{one_write, one_write_ok}
use online_banking_system.Ledger.{shift_balance}
use online_banking_system.Transactions.{Stamp, success_row}
use online_banking_system.Transfers.{verified}
use online_banking_system.Transfers.Locked.{Settlement}
use online_banking_system.Transfers.Facts.{IsLocked}
use online_banking_system.Transfers.Settled.{Settles}
use online_banking_system.Reversal.{reversal_writes, reverse_transaction}
use online_banking_system.Reversal.Checks.{reversal_checks}
use online_banking_system.Reversal.Outcome.{reversal_checks-transfer, accounts-reversal_writes}

-- The balances of the two accounts of a transfer.
pub record HasBalances (t : Settlement) (sender receiver : ℤ) (db : Db) : Type 0 where
  pub sender_row : Account
  pub receiver_row : Account
  pub sender_found : lookup t.sender_id db.accounts ≡ some sender_row
  pub receiver_found : lookup t.receiver_id db.accounts ≡ some receiver_row
  pub sender_balance : sender_row.balance ≡ sender
  pub receiver_balance : receiver_row.balance ≡ receiver

shift_back :
    (n : ℕ) (a : Account) → (shift_balance credit n (shift_balance debit n a)).balance ≡ a.balance
unfolding shift_balance
shift_back n a = omega int_laws

shift_over :
    (n k : ℕ) (a : Account)
    → (shift_balance debit n (shift_balance credit k a)).balance ≡ a.balance +ℤ pos k -ℤ pos n
unfolding shift_balance
shift_over n k a = refl

settled_row :
    (b : Bool) (now : ℕ) (row : Transaction)
    → let x = verified b (success_row now row) in
      (x.transaction_type ≡ row.transaction_type)
      × (x.sender_account_id ≡ row.sender_account_id)
      × (x.receiver_account_id ≡ row.receiver_account_id)
      × (x.amount ≡ row.amount)
unfolding success_row
settled_row b now row = ground arith

same_row : {o : Option Account} {a b : Account} → o ≡ some a → o ≡ some b → a ≡ b
same_row p q = cc

moved_nothing : (x : ℤ) (k n : ℕ) → x +ℤ pos k -ℤ pos n ≡ x → k ≡ n
moved_nothing x k n e = omega (int_laws, ap pos_part e, ap neg_part e)

restored_amount :
    (t : Settlement) (a b : Account)
    → a ≡ b
    → a.balance ≡ t.receiver.balance +ℤ pos t.credit_amount -ℤ pos t.amount
    → b.balance ≡ t.receiver.balance
    → t.credit_amount ≡ t.amount
restored_amount t a b same x y =
    let e : t.receiver.balance +ℤ pos t.credit_amount -ℤ pos t.amount ≡ t.receiver.balance =
      sym x ∙ ap (λ (r : Account). r.balance) same ∙ y in
    moved_nothing t.receiver.balance t.credit_amount t.amount e

-- Reversing a transfer that has been executed gives the sender its balance back, and leaves the
-- receiver with its balance plus the credited less the debited amount: the reversal moves the
-- debited amount, and not what was credited.
pub reversal_balances :
    (id now : ℕ) (b : Bool) (t : Settlement) (row : Transaction) (before after : Db) (stamp : Stamp)
    (admin r : ℕ)
    → IsLocked id before t row
    → row.transaction_type ≡ TransactionType.transfer
    → t.sender_id ≢ t.receiver_id
    → Settles id now b t row before after
    → (reverse_transaction (λ d. d) stamp admin id (open_session after)).0 ≡ ok r
    → HasBalances t t.sender.balance
        (t.receiver.balance +ℤ pos t.credit_amount -ℤ pos t.amount)
        (reverse_transaction (λ d. d) stamp admin id (open_session after)).1.committed
unfolding reverse_transaction one_write
reversal_balances id now b t row before after stamp admin r l kind apart s returned =
    let (plan, passed, done) =
      one_write_ok (λ d. d) (reversal_checks id) (reversal_writes stamp id admin)
        (audit admin admin_transaction_reversed id ∷ []) stamp.id after r returned in
    let x = settled_row b now row in
    let facts =
      reversal_checks-transfer id t.sender_id t.receiver_id (verified b (success_row now row)) plan
        after s.transaction (x.0 ∙ kind) (x.1 ∙ l.from) (x.2 ∙ l.to) passed in
    let n = plan.original.amount in
    let amount : n ≡ t.amount = ap (λ (o : Transaction). o.amount) facts.0 ∙ x.3 ∙ sym l.debited in
    let at = λ (j : ℕ).
      accounts-reversal_writes stamp id admin plan after j t.sender_id t.receiver_id facts.1
        facts.2 in
    rw done (record {
      sender_row = shift_balance credit n (shift_balance debit t.amount t.sender);
      receiver_row = shift_balance debit n (shift_balance credit t.credit_amount t.receiver);
      sender_found = ground (arith, at t.sender_id, s.sender);
      receiver_found = ground (arith, at t.receiver_id, s.receiver);
      sender_balance = rw amount (shift_back t.amount t.sender);
      receiver_balance = rw amount (shift_over t.amount t.credit_amount t.receiver);
    })

-- A reversal that returns, right after the execution of a transfer between two different
-- accounts, undoes it exactly when the transfer credited what it debited: then both balances are
-- as before. After a transfer between currencies with another credited amount, the receiver's
-- balance is not restored.
pub reversal_restores_iff :
    (id now : ℕ) (b : Bool) (t : Settlement) (row : Transaction) (before after : Db) (stamp : Stamp)
    (admin r : ℕ)
    → IsLocked id before t row
    → row.transaction_type ≡ TransactionType.transfer
    → t.sender_id ≢ t.receiver_id
    → Settles id now b t row before after
    → (reverse_transaction (λ d. d) stamp admin id (open_session after)).0 ≡ ok r
    → HasBalances t t.sender.balance t.receiver.balance
        (reverse_transaction (λ d. d) stamp admin id (open_session after)).1.committed
      ↔ (t.credit_amount ≡ t.amount)
reversal_restores_iff id now b t row before after stamp admin r l kind apart s returned =
    let h = reversal_balances id now b t row before after stamp admin r l kind apart s returned in
    (
      (λ k.
          restored_amount t h.receiver_row k.receiver_row
            (same_row h.receiver_found k.receiver_found) h.receiver_balance k.receiver_balance),
      (λ e. record {
        sender_row = h.sender_row;
        receiver_row = h.receiver_row;
        sender_found = h.sender_found;
        receiver_found = h.receiver_found;
        sender_balance = h.sender_balance;
        receiver_balance = h.receiver_balance ∙ rw e (omega int_laws);
      }),
    )
