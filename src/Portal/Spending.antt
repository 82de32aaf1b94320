-- ===== src/Portal/Spending.antt =====
-- The three operations of a customer that debit an account: execution, confirmation, card payment.
use online_banking_system.Prelude.{
  ℕ, ◌≡◌, true, [], ◌∷◌, false, Bool, ◌==◌, arith, refl, if◌then◌else◌,
}
use online_banking_system.Db.{
  Card, TransferConfirmation, Db, Customer, debit, otp_expired, too_many_otp_attempts, otp_timeout,
  otp_attempts,
}
use online_banking_system.Session.{
  Session, Action, open_session, ◌>>=◌, ◌>>◌, commit, pure, raise, send, try_except,
}
use online_banking_system.Session.Check.{Result, ok, err}
use online_banking_system.Session.Messages.{audit, AuditAction}
use online_banking_system.Session.Keeps.{
  Holds, Keeps-bind, Keeps-commit, Keeps-pure, Keeps-send, Keeps-raise, keeps_rules,
  check_write-Holds, Holds-handled, bind-Holds,
}
use online_banking_system.Transactions.{Stamp, is_expired, attempts_exhausted}
use online_banking_system.Transfers.{
  Settings, customer_is_sender, get_owned_pending_transaction, get_challenge, locked_body, settle,
  execute_locked_transfer, fail_or_report, right_code, answer, confirm_transfer,
}
use online_banking_system.Transfers.Locked.{Settlement, locked_checks}
use online_banking_system.Transfers.Facts.{locked_checks-facts}
use online_banking_system.Cards.{payment_checks, pay_with_card, card_payment_row}
use online_banking_system.Accounts.{get_owned_card}
use online_banking_system.Teller.{withdrawal_writes}
use online_banking_system.Portal.Spared.{IsSpared, May}
use online_banking_system.Portal.Writes.{settle-IsSpared, withdrawal-IsSpared}
use online_banking_system.Portal.Methods.{fail_or_report-Keeps, give_up-Keeps, wrong_code-Keeps}

Holds-if :
    {A : Type 0} {P : Db → Type 0} (b : Bool) (m n : Action A) (s : Session)
    → Holds P (m s).1
    → Holds P (n s).1
    → Holds P ((if b then m else n) s).1
Holds-if true m n s of_m of_n = of_m
Holds-if false m n s of_m of_n = of_n

execute-Holds :
    (c : ℕ) (before : Db) (id now : ℕ) (b : Bool) (s : Session)
    → ((t : Settlement) → locked_checks id s.db ≡ ok t → May debit c t.sender_id s.db)
    → Holds (IsSpared c before) s
    → Holds (IsSpared c before) (execute_locked_transfer (λ _ d. d) id now b s).1
unfolding execute_locked_transfer try_except locked_body ◌>>=◌
execute-Holds c before id now b s own h =
    Holds-handled (fail_or_report (λ _ d. d) id now) _ _ (fail_or_report-Keeps id now) (
      check_write-Holds (locked_checks id) (settle id now b) (λ _. commit >> pure id) s
        (λ _. Keeps-bind commit _ Keeps-commit (λ _. Keeps-pure id))
        (λ t passed. settle-IsSpared id now c b t before s.db (own t passed) h.seen) h)

-- Whoever gets the challenge of a transfer is the customer of the account that it debits.
challenge-own :
    (me : Customer) (id : ℕ) (k : TransferConfirmation) (db : Db)
    → get_challenge me id db ≡ ok k
    → (t : Settlement) → locked_checks id db ≡ ok t
    → May debit me.id t.sender_id db
unfolding get_challenge get_owned_pending_transaction customer_is_sender
challenge-own me id k db passed t locked a found =
    let (row, l) = locked_checks-facts id db t locked in
    ground (arith, passed, found, l.found, l.from, l.sender)

module _ (hash_otp_code : ℕ → ℕ) (settings : Settings) (now : ℕ) (me : Customer) (db : Db) where
  right_code-Holds :
      (id : ℕ) (k : TransferConfirmation)
      → get_challenge me id db ≡ ok k
      → Holds (IsSpared me.id db) (open_session db)
      → Holds
          (IsSpared me.id db)
          (right_code hash_otp_code (λ _ d. d) settings now me id (open_session db)).1
  unfolding right_code
  right_code-Holds id k passed h =
      bind-Holds (execute_locked_transfer (λ _ d. d) id now true) _ (open_session db)
        (execute-Holds me.id db id now true (open_session db) (challenge-own me id k db passed) h)
        (λ _. Keeps-bind _ _ (Keeps-send _) (λ _. Keeps-pure _))

  pub confirm_transfer-Holds :
      (id code : ℕ)
      → Holds (IsSpared me.id db) (open_session db)
      → Holds
          (IsSpared me.id db)
          (confirm_transfer hash_otp_code
            (λ d. d)
            (λ _ d. d)
            settings
            now
            me
            id
            code
            (open_session db)).1
  unfolding confirm_transfer answer ◌>>=◌
  confirm_transfer-Holds id code h = go (get_challenge me id db) refl
    where
      go :
          (r : Result TransferConfirmation)
          → get_challenge me id db ≡ r
          → Holds
              (IsSpared me.id db)
              (confirm_transfer hash_otp_code
                (λ d. d)
                (λ _ d. d)
                settings
                now
                me
                id
                code
                (open_session db)).1
      go (err e) p = rw p h
      go (ok k) p = rw p (
          Holds-if (is_expired k now) _ _ _
            ((give_up-Keeps hash_otp_code now me id otp_timeout otp_expired).at _ h)
            (Holds-if (attempts_exhausted k) _ _ _
              ((give_up-Keeps hash_otp_code now me id otp_attempts too_many_otp_attempts).at _ h)
              (Holds-if (hash_otp_code code == k.otp_code_hash) _ _ _ (right_code-Holds id k p h)
                ((wrong_code-Keeps hash_otp_code now me id k).at _ h))))

-- The account behind a card of the customer is the customer's.
card-own :
    (me : Customer) (card_id amount currency : ℕ) (card : Card) (account_id : ℕ) (db : Db)
    → get_owned_card me card_id db ≡ ok card
    → payment_checks card_id amount currency db ≡ ok account_id
    → May debit me.id account_id db
unfolding get_owned_card payment_checks
card-own me card_id amount currency card account_id db mine passed a found = ground arith

pub pay_with_card-Holds :
    (stamp : Stamp) (me : Customer) (card_id amount currency : ℕ) (card : Card) (db : Db)
    → get_owned_card me card_id db ≡ ok card
    → Holds (IsSpared me.id db) (open_session db)
    → Holds
        (IsSpared me.id db)
        (pay_with_card (λ d. d) stamp me card_id amount currency (open_session db)).1
unfolding pay_with_card try_except ◌>>=◌
pay_with_card-Holds stamp me card_id amount currency card db mine h =
    Holds-handled raise _ _ Keeps-raise (
      check_write-Holds (payment_checks card_id amount currency)
        (λ account_id.
          withdrawal_writes stamp (card_payment_row account_id amount currency card_id) account_id)
        (λ _.
          commit
          >> (send (audit me.user_id AuditAction.card_payment card_id ∷ []) >> pure stamp.id))
        (open_session db) (λ _. search keeps_rules depth 9)
        (λ account_id passed.
          withdrawal-IsSpared stamp _ account_id me.id db db
            (card-own me card_id amount currency card account_id db mine passed) h.seen)
        h)
