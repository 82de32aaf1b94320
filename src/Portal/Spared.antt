-- ===== src/Portal/Spared.antt =====
-- Rows in which nobody but one customer has lost money, and the writes that keep them so.
use online_banking_system.Prelude.{
  ℕ, ◌≡◌, ◌≢◌, ◌∙◌, sym, refl, some, inl, inr, Bool-cases, ◌==◌, arith,
}
use online_banking_system.Prelude.Int.{pos, ◌≤ℤ◌, +ℤ_parts}
use online_banking_system.Table.{lookup}
use online_banking_system.Db.{Account, LedgerEntryType, debit, credit, Db}
use online_banking_system.Ledger.{shift_balance, post}
use online_banking_system.Ledger.Posting.{lookup-post}

-- From `a` to `after`: the account has the same customer, and unless that is `c`, no less money.
pub record Spares (c : ℕ) (a after : Account) : Type 0 where
  pub same_customer : after.customer_id ≡ a.customer_id
  pub no_less : a.customer_id ≢ c → a.balance ≤ℤ after.balance

pub record IsSpared (c : ℕ) (before db : Db) : Type 0 where
  pub at :
      (j : ℕ) (a : Account)
      → lookup j before.accounts ≡ some a
      → (after : Account) × (lookup j db.accounts ≡ some after) × Spares c a after

-- A debit only of an account of `c`.
abbrev pub May : LedgerEntryType → ℕ → ℕ → Db → Type 0
May debit c id db = (a : Account) → lookup id db.accounts ≡ some a → a.customer_id ≡ c
May credit c id db = Unit

pub untouched-IsSpared : (c : ℕ) (db : Db) → IsSpared c db db
untouched-IsSpared c db = record {
  at = λ j a found. (a, found, record { same_customer = refl; no_less = λ _. ground arith });
}

shift-Spares :
    (kind : LedgerEntryType) (c n id : ℕ) (a now : Account) (db : Db)
    → May kind c id db
    → lookup id db.accounts ≡ some now
    → Spares c a now
    → Spares c a (shift_balance kind n now)
unfolding shift_balance
shift-Spares debit c n id a now db may found h = record {
  same_customer = h.same_customer;
  no_less = λ other. absurd (other (sym h.same_customer ∙ may now found));
}
shift-Spares credit c n id a now db may found h = record {
  same_customer = h.same_customer;
  no_less = λ other. ground (arith, h.no_less other, +ℤ_parts now.balance (pos n));
}

pub post-IsSpared :
    (kind : LedgerEntryType) (tx id n cur c : ℕ) (before db : Db)
    → May kind c id db
    → IsSpared c before db
    → IsSpared c before (post kind tx id n cur db)
post-IsSpared kind tx id n cur c before db may h = record {
  at = λ j a found.
      let (now, there, spares) = h.at j a found in
      let moved = lookup-post j kind tx id n cur db in
      elim (Bool-cases (id == j)) [
        | inl here ↦
            let it : id ≡ j = ground arith in
            (
              shift_balance kind n now,
              ground (arith, moved, there),
              shift-Spares kind c n id a now db may (rw it there) spares,
            )
        | inr past ↦ (now, ground (arith, moved, there), spares)
      ];
}
