-- ===== src/Schedules/Expiry.antt =====
-- _expire_stale_transactions_async. `others` is what other requests commit between its query and
-- its writes.
use online_banking_system.Prelude.{
  ℕ, Bool, false, ◌&&◌, Option, none, some, List, [], ◌∷◌, length, if◌then◌else◌,
}
use online_banking_system.Table.{Table, lookup}
use online_banking_system.Db.{housekeeping, is_pending, Transaction, TransferConfirmation, Db}
use online_banking_system.Session.Actions.{Action, ◌>>=◌, ◌>>◌, pure, check, modify, commit, wait}
use online_banking_system.Session.Check.{ok}
use online_banking_system.Transactions.{mark_failed, is_expired}

abbrev pub challenge_expired : ℕ → Option TransferConfirmation → Bool
challenge_expired now none = false
challenge_expired now (some c) = is_expired c now

-- The join of the PENDING transactions with the expired challenges: their ids.
unfoldable pub list_stale : ℕ → Table TransferConfirmation → Table Transaction → List ℕ
list_stale now confirmations [] = []
list_stale now confirmations ((id, t) ∷ rest) =
    let stale = list_stale now confirmations rest in
    if is_pending t.status && challenge_expired now (lookup id confirmations)
    then id ∷ stale
    else stale

unfoldable pub mark_all_failed : ℕ → List ℕ → Db → Db
unfolding mark_failed
mark_all_failed now [] db = db
mark_all_failed now (id ∷ ids) db = mark_all_failed now ids (mark_failed id housekeeping now db)

-- Returns how many were expired.
unfoldable pub expire_stale_transactions : (Db → Db) → ℕ → Action ℕ
unfolding list_stale mark_all_failed
expire_stale_transactions others now = do
  stale ← check (λ db. ok (list_stale now db.confirmations db.transactions))
  wait others
  modify (mark_all_failed now stale)
  commit
  pure (length stale)
