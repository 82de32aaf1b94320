-- ===== src/Bank/Methods.antt =====
-- The methods of the services keep the ledger and the balances reconciled.
use online_banking_system.Prelude.{ℕ, Bool, Option, none, some}
use online_banking_system.Db.{Error, Transaction, TransferConfirmation, Reason, Db, Customer, Card}
use online_banking_system.Session.Keeps.{Keeps}
use online_banking_system.Ledger.Reconciliation.{IsReconciled}
use online_banking_system.Transactions.{Stamp}
use online_banking_system.Transfers.{
  Others, Moment, Settings, TransferRequest, initiate_transfer, resend_otp, confirm_transfer,
  resolve, fail_or_report, give_up, wrong_code, right_code, execute_locked_transfer,
  execute_scheduled_transfer,
}
use online_banking_system.Teller.{deposit, withdraw}
use online_banking_system.Reversal.{reverse_transaction}
use online_banking_system.Cards.{pay_with_card, block_own_card}
use online_banking_system.Bank.Writes.{block-IsReconciled, reconciled_rules}

-- `others` are requests that keep the rows reconciled.
abbrev pub Quiet : (Db → Db) → Type 0
Quiet others = (db : Db) → IsReconciled db → IsReconciled (others db)

pub initiate_transfer-Keeps :
    (settings : Settings) (stamp : Stamp) (h : ℕ) (c : Customer) (p : TransferRequest)
    → Keeps IsReconciled (initiate_transfer settings stamp h c p)
unfolding initiate_transfer
initiate_transfer-Keeps settings stamp h c p = search reconciled_rules depth 9

pub resend_otp-Keeps :
    (settings : Settings) (now h : ℕ) (c : Customer) (id : ℕ)
    → Keeps IsReconciled (resend_otp settings now h c id)
unfolding resend_otp
resend_otp-Keeps settings now h c id = search reconciled_rules depth 9

pub deposit-Keeps :
    (others : Db → Db) (stamp : Stamp) (id n c admin : ℕ)
    → Quiet others
    → Keeps IsReconciled (deposit others stamp id n c admin)
unfolding deposit
deposit-Keeps others stamp id n c admin q = search reconciled_rules depth 9

pub withdraw-Keeps :
    (others : Db → Db) (stamp : Stamp) (id n c admin : ℕ)
    → Quiet others
    → Keeps IsReconciled (withdraw others stamp id n c admin)
unfolding withdraw
withdraw-Keeps others stamp id n c admin q = search reconciled_rules depth 9

pub reverse_transaction-Keeps :
    (others : Db → Db) (stamp : Stamp) (admin id : ℕ)
    → Quiet others
    → Keeps IsReconciled (reverse_transaction others stamp admin id)
unfolding reverse_transaction
reverse_transaction-Keeps others stamp admin id q = search reconciled_rules depth 9

pub pay_with_card-Keeps :
    (others : Db → Db) (stamp : Stamp) (c : Customer) (id n cur : ℕ)
    → Quiet others
    → Keeps IsReconciled (pay_with_card others stamp c id n cur)
unfolding pay_with_card
pay_with_card-Keeps others stamp c id n cur q = search reconciled_rules depth 9

pub block_own_card-Keeps :
    (c : Customer) (now id : ℕ) (card : Card) → Keeps IsReconciled (block_own_card c now id card)
unfolding block_own_card
block_own_card-Keeps c now id card = search (reconciled_rules, block-IsReconciled) depth 9

-- The same of what they commit at each moment of an execution.
abbrev pub Calm : Others → Type 0
Calm others = (at : Moment) → Quiet (others at)

pub resolve-Keeps :
    (later : Db → Db) (id now : ℕ) (e : Error) (t : Option Transaction)
    → Quiet later
    → Keeps IsReconciled (resolve later id now e t)
unfolding resolve
resolve-Keeps later id now e none q = search reconciled_rules
resolve-Keeps later id now e (some t) q = search reconciled_rules depth 9

pub fail_or_report-Keeps :
    (others : Others) (id now : ℕ) (e : Error)
    → Calm others
    → Keeps IsReconciled (fail_or_report others id now e)
unfolding fail_or_report
fail_or_report-Keeps others id now e q = search (reconciled_rules, resolve-Keeps) depth 9

pub execute_locked_transfer-Keeps :
    (others : Others) (id now : ℕ) (b : Bool)
    → Calm others
    → Keeps IsReconciled (execute_locked_transfer others id now b)
unfolding execute_locked_transfer
execute_locked_transfer-Keeps others id now b q =
    search (reconciled_rules, fail_or_report-Keeps) depth 9

pub execute_scheduled_transfer-Keeps :
    (others : Others) (stamp : Stamp) (c : Customer) (p : TransferRequest)
    → Calm others
    → Keeps IsReconciled (execute_scheduled_transfer others stamp c p)
unfolding execute_scheduled_transfer
execute_scheduled_transfer-Keeps others stamp c p q =
    search (reconciled_rules, execute_locked_transfer-Keeps) depth 9

module _ (hash_otp_code : ℕ → ℕ) where
  pub give_up-Keeps :
      (now : ℕ) (c : Customer) (id : ℕ) (r : Reason) (e : Error)
      → Keeps IsReconciled (give_up hash_otp_code now c id r e)
  unfolding give_up
  give_up-Keeps now c id r e = search reconciled_rules depth 9

  pub wrong_code-Keeps :
      (now : ℕ) (c : Customer) (id : ℕ) (k : TransferConfirmation)
      → Keeps IsReconciled (wrong_code hash_otp_code now c id k)
  unfolding wrong_code
  wrong_code-Keeps now c id k = search (reconciled_rules, give_up-Keeps) depth 9

  pub right_code-Keeps :
      (others : Others) (settings : Settings) (now : ℕ) (c : Customer) (id : ℕ)
      → Calm others
      → Keeps IsReconciled (right_code hash_otp_code others settings now c id)
  unfolding right_code
  right_code-Keeps others settings now c id q =
      search (reconciled_rules, execute_locked_transfer-Keeps) depth 9

  pub confirm_transfer-Keeps :
      (a : Db → Db) (b : Others) (settings : Settings) (now : ℕ) (c : Customer) (id code : ℕ)
      → Quiet a
      → Calm b
      → Keeps IsReconciled (confirm_transfer hash_otp_code a b settings now c id code)
  unfolding confirm_transfer
  confirm_transfer-Keeps a b settings now c id code qa qb =
      search (reconciled_rules, give_up-Keeps, wrong_code-Keeps, right_code-Keeps) depth 12
