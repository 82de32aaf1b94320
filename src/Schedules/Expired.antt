-- ===== src/Schedules/Expired.antt =====
-- The sweep of abandoned transfers.
use online_banking_system.Prelude.{
  ℕ, ◌≡◌, refl, Bool, true, false, ◌||◌, some, List, [], ◌∷◌, length, ◌==◌, arith, Bool-cases, inl,
  inr, if◌then◌else◌, Option-cases, sym, ◌∙◌,
}
use online_banking_system.Table.{Table, lookup, lookup-update, apply_some}
use online_banking_system.Db.{housekeeping, is_pending, Transaction, TransferConfirmation, Db}
use online_banking_system.Db.Constraints.{meets_constraints}
use online_banking_system.Session.{◌>>=◌, open_session}
use online_banking_system.Session.Check.{ok}
use online_banking_system.Transactions.{mark_failed, failed_row}
use online_banking_system.Transactions.Accepted.{
  Meets, Meets-sound, Meets-complete, mark_failed-accepted,
}
use online_banking_system.Schedules.{
  challenge_expired, list_stale, mark_all_failed, expire_stale_transactions,
}

-- `id` is in the list.
unfoldable pub listed : ℕ → List ℕ → Bool
listed id [] = false
listed id (j ∷ ids) = j == id || listed id ids

pub list_stale-listed :
    (now id : ℕ) (cs : Table TransferConfirmation) (ts : Table Transaction) (t : Transaction)
    → lookup id ts ≡ some t
    → is_pending t.status ≡ true
    → challenge_expired now (lookup id cs) ≡ true
    → listed id (list_stale now cs ts) ≡ true
unfolding list_stale listed
list_stale-listed now id cs [] t found p x = ground arith
list_stale-listed now id cs ((j, u) ∷ ts) t found p x =
    ground (arith, list_stale-listed now id cs ts t)

-- What the sweep has made of the rows.
pub record IsSwept (now : ℕ) (before after : Db) : Type 0 where
  pub none_left :
      (id : ℕ) (t : Transaction)
      → lookup id after.transactions ≡ some t
      → is_pending t.status ≡ true
      → challenge_expired now (lookup id before.confirmations) ≡ false
  pub accounts : after.accounts ≡ before.accounts
  pub ledger : after.ledger ≡ before.ledger

failed_row-pending :
    (id now : ℕ) (ts : Table Transaction) (t : Transaction) (o : Bool)
    → (if o then apply_some (failed_row housekeeping now) (lookup id ts) else lookup id ts) ≡ some t
    → is_pending t.status ≡ true
    → (o ≡ false) × (lookup id ts ≡ some t)
unfolding failed_row
failed_row-pending id now ts t false h p = (refl, h)
failed_row-pending id now ts t true h p = elim (Option-cases (lookup id ts)) [
  | inl e ↦ ground (arith, h, e)
  | inr (u, e) ↦ ground (arith, h, e)
]

-- A row that is still pending after the marking was not in the list, and is as it was.
mark_all_failed-pending :
    (now id : ℕ) (ids : List ℕ) (db : Db) (t : Transaction)
    → lookup id (mark_all_failed now ids db).transactions ≡ some t
    → is_pending t.status ≡ true
    → (listed id ids ≡ false) × (lookup id db.transactions ≡ some t)
unfolding mark_all_failed listed mark_failed
mark_all_failed-pending now id [] db t h p = (refl, h)
mark_all_failed-pending now id (j ∷ ids) db t h p =
    let later = mark_all_failed-pending now id ids (mark_failed j housekeeping now db) t h p in
    let row =
      failed_row-pending id now db.transactions t (j == id)
        (sym (lookup-update id j (failed_row housekeeping now) db.transactions) ∙ later.1) p in
    (rw row.0 later.0, row.1)

module _ (now : ℕ) where
  pub mark_all_failed-money :
      (ids : List ℕ) (db : Db)
      → ((mark_all_failed now ids db).accounts ≡ db.accounts)
        × ((mark_all_failed now ids db).ledger ≡ db.ledger)
  unfolding mark_all_failed mark_failed
  mark_all_failed-money [] db = (refl, refl)
  mark_all_failed-money (id ∷ ids) db =
      mark_all_failed-money ids (mark_failed id housekeeping now db)

  pub mark_all_failed-Meets :
      (ids : List ℕ) (db : Db) → Meets db → Meets (mark_all_failed now ids db)
  unfolding mark_all_failed mark_failed
  mark_all_failed-Meets [] db m = m
  mark_all_failed-Meets (id ∷ ids) db m =
      mark_all_failed-Meets ids (mark_failed id housekeeping now db) (record {
        accounts = m.accounts;
        transactions = mark_failed-accepted db.transactions m.transactions id housekeeping now;
        ledger = m.ledger;
        schedules = m.schedules;
        emails = m.emails;
        national_ids = m.national_ids;
      })

-- The housekeeping sweep, with no other request between its query and its writes and in rows that
-- meet the constraints: it returns how many transfers were stale, afterwards no transaction is
-- PENDING with an expired challenge, and neither an account nor the ledger has changed.
pub expire_stale_done :
    (now : ℕ) (db : Db)
    → meets_constraints db ≡ true
    → let out = expire_stale_transactions (λ d. d) now (open_session db) in
      (out.0 ≡ ok (length (list_stale now db.confirmations db.transactions)))
      × IsSwept now db out.1.committed
unfolding expire_stale_transactions ◌>>=◌
expire_stale_done now db met =
    let stale = list_stale now db.confirmations db.transactions in
    let money = mark_all_failed-money now stale db in
    rw (Meets-sound (mark_all_failed-Meets now stale db (Meets-complete db met))) (
      refl,
      record {
        none_left = λ id t found p.
            let before = mark_all_failed-pending now id stale db t found p in
            elim (Bool-cases (challenge_expired now (lookup id db.confirmations))) [
              | inl expired ↦ ground (
                arith,
                before.0,
                list_stale-listed now id db.confirmations db.transactions t before.1 p expired,
              )
              | inr in_time ↦ in_time
            ];
        accounts = money.0;
        ledger = money.1;
      },
    )
