-- ===== src/Transfers/Budget.antt =====
-- How many wrong codes a challenge allows.
use online_banking_system.Prelude.{
  ℕ, ◌+◌, ◌<◌, ◌≡◌, ◌≢◌, sym, true, some, List, [], ◌∷◌, arith, Option-cases, inl, inr, length,
}
use mathlib.Core.Path.{subst}
use online_banking_system.Table.{lookup, lookup-update}
use online_banking_system.Db.{otp_attempts, Transaction, TransferConfirmation, Db, Customer}
use online_banking_system.Db.Constraints.{meets_constraints}
use online_banking_system.Session.{open_session}
use online_banking_system.Session.Check.{ok}
use online_banking_system.Transactions.{failed_row, register_failed_attempt}
use online_banking_system.Transfers.{Settings, get_challenge, confirm_transfer}
use online_banking_system.Transfers.Guessing.{
  IsWrong, failed_accepted, wrong_code_counted, last_wrong_code,
}

abbrev counted : TransferConfirmation → TransferConfirmation
counted c = record c { attempts = c.attempts + 1 }

get_challenge-counted :
    (customer : Customer) (id : ℕ) (c : TransferConfirmation) (db : Db)
    → get_challenge customer id db ≡ ok c
    → get_challenge customer id (register_failed_attempt id c db) ≡ ok (counted c)
unfolding get_challenge register_failed_attempt
get_challenge-counted customer id c db h = ground (
  arith,
  lookup-update id id (λ (k : TransferConfirmation). record k { attempts = c.attempts + 1 })
      db.confirmations,
)

get_challenge-row :
    (customer : Customer) (id : ℕ) (c : TransferConfirmation) (db : Db)
    → get_challenge customer id db ≡ ok c
    → (row : Transaction) × (lookup id db.transactions ≡ some row)
unfolding get_challenge
get_challenge-row customer id c db h = elim (Option-cases (lookup id db.transactions)) [
  | inl gone ↦ absurd (ground arith)
  | inr found ↦ found
]

module _ (hash_otp_code : ℕ → ℕ) (settings : Settings) (now : ℕ) (customer : Customer)
    (id : ℕ) where
  -- The committed rows after one confirmation with each code, one request after the other.
  pub guess_all : List ℕ → Db → Db
  guess_all [] db = db
  guess_all (code ∷ codes) db =
      guess_all codes
        (confirm_transfer hash_otp_code (λ d. d) (λ _ d. d) settings now customer id code
          (open_session db)).1.committed

  -- No code of the list hashes to the challenge's hash.
  abbrev pub AllWrong : List ℕ → ℕ → Type 0
  AllWrong [] hash = Unit
  AllWrong (code ∷ codes) hash = (hash_otp_code code ≢ hash) × AllWrong codes hash

  -- The transaction is FAILED for its attempts, and no balance has changed.
  abbrev pub IsLost : Db → Db → Type 0
  IsLost before after =
      (row : Transaction) × (lookup id after.transactions ≡ some (failed_row otp_attempts now row))
      × (after.accounts ≡ before.accounts)

  -- A challenge in time and with attempts left has a budget, in rows that meet the constraints:
  -- once as many wrong codes have been tried, one request after the other, as attempts were
  -- left, the transaction is FAILED and no balance has changed.
  pub guess_budget :
      (codes : List ℕ) (c : TransferConfirmation) (db : Db)
      → get_challenge customer id db ≡ ok c
      → now < c.expires_at
      → c.attempts < c.max_attempts
      → AllWrong codes c.otp_code_hash
      → c.attempts + length codes ≡ c.max_attempts
      → meets_constraints db ≡ true
      → IsLost db (guess_all codes db)
  unfolding guess_all register_failed_attempt
  guess_budget [] c db found early left wrong used met = absurd (omega arith)
  guess_budget (code ∷ []) c db found early left wrong used met =
      let (row, row_found) = get_challenge-row customer id c db found in
      let w : IsWrong hash_otp_code now code c = record {
        in_time = early;
        attempts_left = left;
        differs = wrong.0;
      } in
      let out =
        last_wrong_code hash_otp_code (λ d. d) (λ _ d. d) settings now customer id code db c row
          found w (omega arith) met row_found in
      (row, out.1, out.2)
  guess_budget (code ∷ next ∷ codes) c db found early left wrong used met =
      let w : IsWrong hash_otp_code now code c = record {
        in_time = early;
        attempts_left = left;
        differs = wrong.0;
      } in
      let out =
        wrong_code_counted hash_otp_code (λ d. d) (λ _ d. d) settings now customer id code db c
          found w (omega arith) met in
      let rest =
        guess_budget (next ∷ codes) (counted c) (register_failed_attempt id c db)
          (get_challenge-counted customer id c db found) early (omega arith) wrong.1 (omega arith)
          (failed_accepted id now db c met).1 in
      subst (λ d. IsLost db (guess_all (next ∷ codes) d)) (sym out.1) rest
