-- ===== src/Transfers/Opening.antt =====
-- What initiate_transfer leaves behind when it returns.
use online_banking_system.Prelude.{
  ℕ, ◌+◌, ◌<◌, ◌≡◌, ◌≢◌, refl, ap, ◌∙◌, true, Option, none, some, arith, ◌==◌,
}
use online_banking_system.Prelude.Int.{pos, ◌≤ℤ◌}
use online_banking_system.Table.{lookup, find_by, HasRow, find_by-HasRow}
use online_banking_system.Db.{is_active, Account, TransactionType, Db, Customer}
use online_banking_system.Db.Constraints.{transaction_check, meets_constraints}
use online_banking_system.Session.{open_session, ◌>>=◌}
use online_banking_system.Session.Check.{Result, ok, err}
use online_banking_system.Transactions.{Stamp, NewTransaction, new_row, create, create_confirmation}
use online_banking_system.Transactions.Accepted.{Meets-sound, Meets-complete, insert-accepted}
use online_banking_system.Transfers.{
  Settings, otp_lifetime, TransferRequest, conversion, validate_sender, validate_receiver,
  validate_transfer, initiate_transfer,
}

-- A valid request: the customer's own active account, in its currency, with enough money, and
-- another account of the bank, the one with the requested number, that is active; the amount to credit is the amount itself within one currency.
pub record IsValid (db : Db) (customer : Customer) (p : TransferRequest) (new : NewTransaction)
    : Type 0 where
  pub sender : Account
  pub receiver : Account
  pub receiver_id : ℕ
  pub found : lookup p.sender_account_id db.accounts ≡ some sender
  pub owned : sender.customer_id ≡ customer.id
  pub sender_active : is_active sender.status ≡ true
  pub currency : p.currency ≡ sender.currency
  pub covered : pos p.amount ≤ℤ sender.balance
  pub known : HasRow receiver_id receiver db.accounts
  pub number : receiver.account_number ≡ p.receiver_account_number
  pub receiver_active : is_active receiver.status ≡ true
  pub apart : receiver_id ≢ p.sender_account_id
  pub kind : new.transaction_type ≡ TransactionType.transfer
  pub from : new.sender_account_id ≡ some p.sender_account_id
  pub to : new.receiver_account_id ≡ some receiver_id
  pub amount : new.amount ≡ p.amount
  pub unconverted : sender.currency ≡ receiver.currency → new.converted_amount ≡ some p.amount

second :
    {c : Result (Option ℕ × ℕ)} {k : Option ℕ × ℕ} {n : ℕ} → c ≡ ok k → c ≡ ok (none, n) → k.1 ≡ n
second u v = ground arith

new_row-accepted :
    (stamp : Stamp) (new : NewTransaction) (db : Db) (customer : Customer) (p : TransferRequest)
    → IsValid db customer p new
    → 0 < p.amount
    → transaction_check (new_row stamp new) ≡ true
unfolding transaction_check new_row
new_row-accepted stamp new db customer p v positive =
    rw (v.from, v.to, v.amount, v.kind) (ground (arith, v.apart))

module _ (customer : Customer) (p : TransferRequest) (db : Db) where
  sender_facts :
      (a : Account)
      → validate_sender db customer p ≡ ok a
      → (lookup p.sender_account_id db.accounts ≡ some a)
        × (a.customer_id ≡ customer.id)
        × (is_active a.status ≡ true)
        × (p.currency ≡ a.currency)
  unfolding validate_sender
  sender_facts a passed = ground arith

  receiver_facts :
      (r : ℕ × Account)
      → validate_receiver db p ≡ ok r
      → (r.0 ≢ p.sender_account_id)
        × (is_active r.1.status ≡ true)
        × (find_by (λ a. a.account_number == p.receiver_account_number) db.accounts ≡ some r)
  unfolding validate_receiver
  receiver_facts r passed = ground arith

  converted_within : (x y n now : ℕ) → x ≡ y → conversion db x y n now ≡ ok (none, n)
  unfolding conversion
  converted_within x y n now same = ground arith

  receiver_found :
      (now : ℕ) (new : NewTransaction) (a : Account)
      → validate_sender db customer p ≡ ok a
      → validate_transfer db customer p now ≡ ok new
      → (r : ℕ × Account) × (validate_receiver db p ≡ ok r)
  unfolding validate_transfer
  receiver_found now new a q passed = go (validate_receiver db p) refl
    where
      go :
          (r : Result (ℕ × Account))
          → validate_receiver db p ≡ r
          → (r : ℕ × Account) × (validate_receiver db p ≡ ok r)
      go (err e) w = absurd (ground arith)
      go (ok r) w = (r, w)

  sender_found :
      (now : ℕ) (new : NewTransaction)
      → validate_transfer db customer p now ≡ ok new
      → (a : Account) × (validate_sender db customer p ≡ ok a)
  unfolding validate_transfer
  sender_found now new passed = go (validate_sender db customer p) refl
    where
      go :
          (r : Result Account)
          → validate_sender db customer p ≡ r
          → (a : Account) × (validate_sender db customer p ≡ ok a)
      go (err e) w = absurd (ground arith)
      go (ok a) w = (a, w)

  conversion_found :
      (now : ℕ) (new : NewTransaction) (a : Account) (r : ℕ × Account)
      → validate_sender db customer p ≡ ok a
      → validate_receiver db p ≡ ok r
      → validate_transfer db customer p now ≡ ok new
      → (k : Option ℕ × ℕ) × (conversion db a.currency r.1.currency p.amount now ≡ ok k)
        × (pos p.amount ≤ℤ a.balance)
        × (new.sender_account_id ≡ some p.sender_account_id)
        × (new.receiver_account_id ≡ some r.0)
        × (new.amount ≡ p.amount)
        × (new.converted_amount ≡ some k.1)
        × (new.transaction_type ≡ TransactionType.transfer)
  unfolding validate_transfer
  conversion_found now new a r q w passed =
      go (conversion db a.currency r.1.currency p.amount now) refl
    where
      go :
          (c : Result (Option ℕ × ℕ))
          → conversion db a.currency r.1.currency p.amount now ≡ c
          → (k : Option ℕ × ℕ) × (conversion db a.currency r.1.currency p.amount now ≡ ok k)
            × (pos p.amount ≤ℤ a.balance)
            × (new.sender_account_id ≡ some p.sender_account_id)
            × (new.receiver_account_id ≡ some r.0)
            × (new.amount ≡ p.amount)
            × (new.converted_amount ≡ some k.1)
            × (new.transaction_type ≡ TransactionType.transfer)
      go (err e) u = absurd (ground arith)
      go (ok k) u =
          (k, u, ground arith, ground arith, ground arith, ground arith, ground arith, ground arith)

  pub validate_transfer-IsValid :
      (now : ℕ) (new : NewTransaction)
      → validate_transfer db customer p now ≡ ok new
      → IsValid db customer p new
  validate_transfer-IsValid now new passed =
      let (a, q) = sender_found now new passed in
      let (r, w) = receiver_found now new a q passed in
      let k = conversion_found now new a r q w passed in
      let s = sender_facts a q in
      let t = receiver_facts r w in
      let listed =
        find_by-HasRow (λ a. a.account_number == p.receiver_account_number) db.accounts r.0 r.1
          t.2 in
      record {
        sender = a;
        receiver = r.1;
        receiver_id = r.0;
        found = s.0;
        owned = s.1;
        sender_active = s.2;
        currency = s.3;
        covered = k.2;
        known = listed.1;
        number = ground (arith, listed.0);
        receiver_active = t.1;
        apart = t.0;
        from = k.3;
        to = k.4;
        amount = k.5;
        kind = k.7;
        unconverted = λ same.
            let c = converted_within a.currency r.1.currency p.amount now same in
            k.6 ∙ ap some (second (k.1) c);
      }

-- The transfer is opened: the reply is the new transaction's id and the lifetime of its code, the
-- transaction is PENDING with a fresh challenge of five attempts, and no money has moved.
abbrev pub Opens :
    Settings
    → Stamp
    → ℕ
    → Customer
    → TransferRequest
    → NewTransaction
    → Db
    → Result (ℕ × ℕ)
    → Db
    → Type 0
Opens settings stamp hash customer p new db reply after =
    (reply ≡ ok (stamp.id, otp_lifetime settings))
    × IsValid db customer p new
    × (lookup stamp.id after.transactions ≡ some (new_row stamp new))
    × (lookup stamp.id after.confirmations
        ≡ some (record {
          otp_code_hash = hash;
          attempts = 0;
          max_attempts = 5;
          expires_at = stamp.now + otp_lifetime settings;
          verified_at = none;
        }))
    × (after.accounts ≡ db.accounts)
    × (after.ledger ≡ db.ledger)

-- A request of a positive amount that passes the validation, in rows that meet the constraints,
-- opens the transfer: the reply is the new transaction's id and the lifetime of its code, the
-- transaction is committed as PENDING with a fresh challenge of five attempts, and no money has
-- moved: the accounts and the ledger are as before. That it passes means that it is from the
-- customer's own active account, in its currency and with enough money, to another account
-- of the bank, that has the requested number and is active.
pub initiate-Opens :
    (settings : Settings) (stamp : Stamp) (hash : ℕ) (customer : Customer) (p : TransferRequest)
    (db : Db) (new : NewTransaction)
    → validate_transfer db customer p stamp.now ≡ ok new
    → 0 < p.amount
    → meets_constraints db ≡ true
    → let out = initiate_transfer settings stamp hash customer p (open_session db) in
      Opens settings stamp hash customer p new db out.0 out.1.committed
unfolding initiate_transfer ◌>>=◌ create create_confirmation
initiate-Opens settings stamp hash customer p db new passed positive met =
    let v = validate_transfer-IsValid customer p db stamp.now new passed in
    let m = Meets-complete db met in
    let accepted : meets_constraints (
          create_confirmation stamp.id hash (stamp.now + otp_lifetime settings)
            (create stamp new db))
        ≡ true =
      Meets-sound (record {
        accounts = m.accounts;
        transactions =
            insert-accepted db.transactions m.transactions stamp.id (new_row stamp new)
              (new_row-accepted stamp new db customer p v positive);
        ledger = m.ledger;
        schedules = m.schedules;
        emails = m.emails;
        national_ids = m.national_ids;
      }) in
    rw passed (rw accepted (refl, v, ground arith, ground arith, refl, refl))
