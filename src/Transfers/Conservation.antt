-- ===== src/Transfers/Conservation.antt =====
-- An executed transfer conserves money, however it ends.
use online_banking_system.Prelude.{
  ℕ, ◌≡◌, ◌≢◌, refl, ap, ◌∙◌, ◌⊎◌, inl, inr, Bool, true, false, Option, none, some, [], ◌==◌,
  Bool-cases, if◌then◌else◌,
}
use online_banking_system.Prelude.Int.{ℤ, ◌+ℤ◌, int_laws}
use online_banking_system.Table.{lookup}
use online_banking_system.Db.{
  Error, is_domain_error, is_pending, rule, Transaction, debit, credit, Db,
}
use online_banking_system.Db.Constraints.{meets_constraints}
use online_banking_system.Session.{Session, ◌>>=◌, open_session}
use online_banking_system.Session.Check.{Result, ok, err}
use online_banking_system.Ledger.{signed}
use online_banking_system.Ledger.Conservation.{total}
use online_banking_system.Transactions.{mark_failed}
use online_banking_system.Transfers.{
  Others, at_lock, after_reload, at_reload, at_write, settle, resolve, execute_locked_transfer,
}
use online_banking_system.Transfers.Locked.{Settlement, locked_checks}
use online_banking_system.Transfers.Facts.{locked_checks-facts}
use online_banking_system.Transfers.Settled.{total-settle}
use online_banking_system.Transfers.Outcome.{
  execute_settles, execute_resolves, execute_breaks, execute_crashes,
}

balanced :
    (same : Bool) (x : ℤ) (n : ℕ)
    → (if same
        then (if same then x +ℤ signed debit n else x) +ℤ signed credit n
        else if same
        then x +ℤ signed debit n
        else x)
      ≡ x
balanced true x n = omega int_laws
balanced false x n = refl

-- What others have committed when an execution last looks: at its lock, or on failing when the
-- transaction is reloaded and when it is written.
pub data LastSeen (others : Others) (db : Db) : Db → Type 0 where
  locked : LastSeen others db (others at_lock db)
  reloaded : LastSeen others db (at_reload others db)
  written : LastSeen others db (at_write others db)

module _ (others : Others) (id now : ℕ) (b : Bool) (db : Db) where
  abbrev ending : Db
  ending = (execute_locked_transfer others id now b (open_session db)).1.committed

  abbrev Unmoved : Type 0
  Unmoved = (d : Db) × LastSeen others db d × (ending.accounts ≡ d.accounts)

  -- The transfer was committed, or no balance was changed.
  abbrev Ends : Type 0
  Ends =
      ((t : Settlement) × (locked_checks id (others at_lock db) ≡ ok t)
        × ((ending ≡ settle id now b t (others at_lock db)) ⊎ (ending ≡ others at_lock db)))
      ⊎ ((e : Error) × (locked_checks id (others at_lock db) ≡ err e) × Unmoved)

  resolve-accounts :
      (e : Error) (o : Option Transaction) (s : Session)
      → s.db ≡ at_reload others db
      → s.committed ≡ at_reload others db
      → (d : Db) × LastSeen others db d
        × ((resolve (others after_reload) id now e o s).1.committed.accounts ≡ d.accounts)
  unfolding resolve mark_failed ◌>>=◌
  resolve-accounts e none s seen saved = (_, reloaded, ap (λ (d : Db). d.accounts) saved)
  resolve-accounts e (some t) s seen saved = elim (Bool-cases (is_pending t.status)) [
    | inr settled ↦ (_, reloaded, rw settled (ap (λ (d : Db). d.accounts) saved))
    | inl waiting ↦
        let after = others after_reload s.db in
        (
          _,
          written,
          rw waiting (elim (Bool-cases (meets_constraints (mark_failed id (rule e) now after))) [
            | inl met ↦ rw met (ap (λ (d : Db). (others after_reload d).accounts) seen)
            | inr broken ↦ rw broken (ap (λ (d : Db). (others after_reload d).accounts) saved)
          ]),
        )
  ]

  execute-Ends : Ends
  execute-Ends = go (locked_checks id (others at_lock db)) refl
    where
      go : (r : Result Settlement) → locked_checks id (others at_lock db) ≡ r → Ends
      go (ok t) p = elim (Bool-cases (meets_constraints (settle id now b t (others at_lock db)))) [
        | inl met ↦ inl (t, p, inl (execute_settles others id now b (open_session db) t p met).1)
        | inr broken ↦
            inl (t, p, inr (execute_breaks others id now b (open_session db) t p broken).1)
      ]
      go (err e) p = elim (Bool-cases (is_domain_error e)) [
        | inl domain ↦
            let (d, last, same) =
              resolve-accounts e (lookup id (at_reload others db).transactions)
                (record { db = at_reload others db; committed = at_reload others db; sent = [] })
                refl refl in
            inr (
              e,
              p,
              (
                d,
                last,
                ap (λ (r : Result ℕ × Session). r.1.committed.accounts)
                      (execute_resolves others id now b (open_session db) e p domain)
                    ∙ same,
              ),
            )
        | inr other ↦ inr (
          e,
          p,
          (
            _,
            locked,
            ap (λ (d : Db). d.accounts)
                (execute_crashes others id now b (open_session db) e p other).1,
          ),
        )
      ]

-- A transfer between two accounts of one currency, that credits what it debits.
pub record IsWithinCurrency (t : Settlement) : Type 0 where
  pub apart : t.sender_id ≢ t.receiver_id
  pub same_currency : t.receiver.currency ≡ t.sender.currency
  pub same_amount : t.credit_amount ≡ t.amount

-- If the transfer, should it pass the checks under its lock, is between two different accounts of
-- one currency with equal amounts, then however its execution ends (executed, failed, resolved by
-- another request or refused by the database) the total of the balances in every currency is what
-- others have committed: by the time of its lock where the checks under it pass, and else by the
-- time of the lock, of the reload or of the write of the failure.
pub execute_conserves :
    (others : Others) (id now : ℕ) (b : Bool) (db : Db) (c : ℕ)
    → ((t : Settlement) → locked_checks id (others at_lock db) ≡ ok t → IsWithinCurrency t)
    → let after =
        (execute_locked_transfer others id now b (open_session db)).1.committed.accounts in
      ((t : Settlement) × (locked_checks id (others at_lock db) ≡ ok t)
        × (total c after ≡ total c (others at_lock db).accounts))
      ⊎ ((e : Error) × (locked_checks id (others at_lock db) ≡ err e)
          × ((d : Db) × LastSeen others db d × (total c after ≡ total c d.accounts)))
execute_conserves others id now b db c within = elim (execute-Ends others id now b db) [
  | inr (e, refused, (d, last, same)) ↦ inr (e, refused, (d, last, ap (total c) same))
  | inl (t, passed, inr same) ↦ inl (t, passed, ap (λ (d : Db). total c d.accounts) same)
  | inl (t, passed, inl done) ↦
      let (row, l) = locked_checks-facts id (others at_lock db) t passed in
      let w = within t passed in
      inl (
        t,
        passed,
        rw done (
            rw (total-settle id now b t row (others at_lock db) l w.apart c) (
              rw (w.same_currency, w.same_amount)
                (balanced (t.sender.currency == c) (total c (others at_lock db).accounts)
                  t.amount))),
      )
]
