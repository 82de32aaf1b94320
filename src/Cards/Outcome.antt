-- ===== src/Cards/Outcome.antt =====
-- What pay_with_card does.
use online_banking_system.Prelude.{ℕ, ◌<◌, ◌≡◌, refl, true, false, some, [], ◌∷◌, arith}
use online_banking_system.Prelude.Int.{pos, ◌≤ℤ◌}
use online_banking_system.Db.{conflict, Account, CardStatus, Card, debit, Db, Customer}
use online_banking_system.Db.Constraints.{transaction_check}
use online_banking_system.Session.{open_session}
use online_banking_system.Session.Check.{ok, err}
use online_banking_system.Session.Messages.{audit, AuditAction}
use online_banking_system.Session.Atomic.{one_write, one_write_done, one_write_refused}
use online_banking_system.Transactions.{Stamp, new_row}
use online_banking_system.Teller.{withdrawal_writes}
use online_banking_system.Teller.Movement.{Moved, movement-Moved, movement-accepted}
use online_banking_system.Teller.Outcome.{IsOpen, IsReady}
use online_banking_system.Cards.{
  card_payment_row, pay_with_card, payment_checks, get_card, is_chargeable,
}

payment_row_accepted :
    (stamp : Stamp) (account_id n currency card_id : ℕ)
    → 0 < n
    → transaction_check (new_row stamp (card_payment_row account_id n currency card_id)) ≡ true
unfolding transaction_check new_row
payment_row_accepted stamp account_id n currency card_id positive = ground arith

payment_checks-passed :
    (card_id n currency : ℕ) (card : Card) (a : Account) (db : Db)
    → get_card card_id db.cards ≡ some card
    → card.status ≡ CardStatus.active
    → IsOpen card.account_id currency a db
    → pos n ≤ℤ a.balance
    → payment_checks card_id n currency db ≡ ok card.account_id
unfolding payment_checks
payment_checks-passed card_id n currency card a db found active o covers =
    rw found (ground (arith, o.found))

payment_checks-refused :
    (card_id n currency : ℕ) (card : Card) (db : Db)
    → get_card card_id db.cards ≡ some card
    → is_chargeable card.status ≡ false
    → payment_checks card_id n currency db ≡ err conflict
unfolding payment_checks
payment_checks-refused card_id n currency card db found inactive = rw found (rw inactive refl)

module _ (others : Db → Db) (stamp : Stamp) (customer : Customer) (card_id n currency : ℕ) (db : Db)
    (card : Card) (found : get_card card_id (others db).cards ≡ some card) where
  -- A payment of a positive amount, of at most the balance, with an active card of an active
  -- account in its own currency succeeds, in rows that meet the constraints and have no entry
  -- under its fresh id: exactly that movement is committed.
  pay_with_card_done :
      (a : Account)
      → card.status ≡ CardStatus.active
      → IsOpen card.account_id currency a (others db)
      → pos n ≤ℤ a.balance
      → 0 < n
      → IsReady stamp (others db)
      → ((pay_with_card others stamp customer card_id n currency (open_session db)).0 ≡ ok stamp.id)
        × Moved debit stamp
            (card_payment_row card.account_id n currency card_id)
            card.account_id
            a
            (others db)
            (pay_with_card others stamp customer card_id n currency (open_session db)).1.committed
  unfolding pay_with_card one_write
  pay_with_card_done a active o covers positive r =
      let row = card_payment_row card.account_id n currency card_id in
      let out =
        one_write_done others (payment_checks card_id n currency)
          (λ account_id.
            withdrawal_writes stamp (card_payment_row account_id n currency card_id) account_id)
          (audit customer.user_id AuditAction.card_payment card_id ∷ []) stamp.id db card.account_id
          (payment_checks-passed card_id n currency card a (others db) found active o covers)
          (movement-accepted debit stamp row card.account_id a (others db) o.found covers positive
            (payment_row_accepted stamp card.account_id n currency card_id positive) r.no_debit
            r.met) in
      (out.0, rw out.1 (movement-Moved debit stamp row card.account_id a (others db) o.found))

  -- A card that is there but blocked or expired by the time its lock is granted is not charged:
  -- ConflictError is raised and nothing is committed.
  pub pay_with_card_refused :
      is_chargeable card.status ≡ false
      → ((pay_with_card others stamp customer card_id n currency (open_session db)).0
          ≡ err conflict)
        × ((pay_with_card others stamp customer card_id n currency (open_session db)).1.committed
            ≡ others db)
  unfolding pay_with_card one_write
  pay_with_card_refused inactive =
      one_write_refused others (payment_checks card_id n currency)
        (λ account_id.
          withdrawal_writes stamp (card_payment_row account_id n currency card_id) account_id)
        (audit customer.user_id AuditAction.card_payment card_id ∷ []) stamp.id db conflict
        (payment_checks-refused card_id n currency card (others db) found inactive)
