-- ===== src/Schedules/Overwritten.antt =====
-- The housekeeping sweep when other requests commit between its query and its writes.
use online_banking_system.Prelude.{
  ℕ, ◌≡◌, refl, true, some, List, [], ◌∷◌, ◌==◌, ◌∙◌, arith, Bool-cases, inl, inr,
}
use online_banking_system.Table.{lookup, lookup-update}
use online_banking_system.Db.{housekeeping, is_pending, Transaction, failed, Db}
use online_banking_system.Db.Constraints.{meets_constraints}
use online_banking_system.Session.{◌>>=◌, open_session}
use online_banking_system.Transactions.{mark_failed, failed_row}
use online_banking_system.Transactions.Accepted.{Meets-sound, Meets-complete}
use online_banking_system.Schedules.{
  challenge_expired, list_stale, mark_all_failed, expire_stale_transactions,
}
use online_banking_system.Schedules.Expired.{
  listed, list_stale-listed, mark_all_failed-money, mark_all_failed-Meets,
}

pub record HasFailed (id : ℕ) (db : Db) : Type 0 where
  pub row : Transaction
  pub found : lookup id db.transactions ≡ some row
  pub status : row.status ≡ failed

module _ (now id : ℕ) where
  mark_failed-HasFailed :
      (j : ℕ) (db : Db) → HasFailed id db → HasFailed id (mark_failed j housekeeping now db)
  unfolding mark_failed failed_row
  mark_failed-HasFailed j db h = elim (Bool-cases (j == id)) [
    | inl same ↦ record {
      row = failed_row housekeeping now h.row;
      found =
          lookup-update id j (failed_row housekeeping now) db.transactions
          ∙ ground (arith, same, h.found);
      status = refl;
    }
    | inr other ↦ record {
      row = h.row;
      found =
          lookup-update id j (failed_row housekeeping now) db.transactions
          ∙ ground (arith, other, h.found);
      status = h.status;
    }
  ]

  mark_all_failed-HasFailed :
      (ids : List ℕ) (db : Db) → HasFailed id db → HasFailed id (mark_all_failed now ids db)
  unfolding mark_all_failed
  mark_all_failed-HasFailed [] db h = h
  mark_all_failed-HasFailed (j ∷ ids) db h =
      mark_all_failed-HasFailed ids (mark_failed j housekeeping now db)
        (mark_failed-HasFailed j db h)

  mark_all_failed-listed :
      (ids : List ℕ) (db : Db) (row : Transaction)
      → listed id ids ≡ true
      → lookup id db.transactions ≡ some row
      → HasFailed id (mark_all_failed now ids db)
  unfolding mark_all_failed mark_failed listed
  mark_all_failed-listed [] db row l found = ground (arith, l)
  mark_all_failed-listed (j ∷ ids) db row l found = elim (Bool-cases (j == id)) [
    | inl same ↦ mark_all_failed-HasFailed ids (mark_failed j housekeeping now db) (record {
      row = failed_row housekeeping now row;
      found =
          lookup-update id j (failed_row housekeeping now) db.transactions
          ∙ ground (arith, same, found);
      status = refl;
    })
    | inr other ↦
        mark_all_failed-listed ids (mark_failed j housekeeping now db) row
          (ground (arith, l, other))
          (lookup-update id j (failed_row housekeeping now) db.transactions
            ∙ ground (arith, other, found))
  ]

-- The sweep marks a transaction FAILED that was PENDING with an expired challenge when the sweep
-- queried it, whatever other requests have made of its row since, if their rows meet the
-- constraints: a SUCCESS that a confirmation has committed meanwhile is overwritten, and its money
-- stays moved.
pub expire_overwrites :
    (others : Db → Db) (now id : ℕ) (db : Db) (t row : Transaction)
    → lookup id db.transactions ≡ some t
    → is_pending t.status ≡ true
    → challenge_expired now (lookup id db.confirmations) ≡ true
    → meets_constraints (others db) ≡ true
    → lookup id (others db).transactions ≡ some row
    → let out = expire_stale_transactions others now (open_session db) in
      HasFailed id out.1.committed × (out.1.committed.accounts ≡ (others db).accounts)
unfolding expire_stale_transactions ◌>>=◌
expire_overwrites others now id db t row found waiting expired met there =
    let stale = list_stale now db.confirmations db.transactions in
    let m = mark_all_failed-Meets now stale (others db) (Meets-complete (others db) met) in
    rw (Meets-sound m) (
      mark_all_failed-listed now id stale (others db) row
          (list_stale-listed now id db.confirmations db.transactions t found waiting expired) there,
      (mark_all_failed-money now stale (others db)).0,
    )
