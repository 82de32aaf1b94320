-- ===== src/Transfers/Guessing.antt =====
-- Wrong codes in confirm_transfer.
use online_banking_system.Prelude.{
  ℕ, ◌+◌, ◌-◌, ◌<◌, ◌≡◌, ◌≢◌, refl, ◌∙◌, true, false, some, arith, ◌==◌, leb,
}
use online_banking_system.Table.{lookup, lookup-update}
use online_banking_system.Db.{
  too_many_otp_attempts, invalid_otp, otp_attempts, Transaction, TransferConfirmation, Db, Customer,
}
use online_banking_system.Db.Constraints.{meets_constraints}
use online_banking_system.Session.{open_session, ◌>>=◌}
use online_banking_system.Session.Check.{ok, err}
use online_banking_system.Transactions.{
  failed_row, mark_failed, register_failed_attempt, is_expired, attempts_exhausted,
}
use online_banking_system.Transactions.Accepted.{Meets-sound, Meets-complete, mark_failed-accepted}
use online_banking_system.Transfers.{
  Others, Settings, get_challenge, give_up, wrong_code, answer, confirm_transfer,
}

pub failed_accepted :
    (id now : ℕ) (db : Db) (c : TransferConfirmation)
    → meets_constraints db ≡ true
    → (meets_constraints (mark_failed id otp_attempts now (register_failed_attempt id c db)) ≡ true)
      × (meets_constraints (register_failed_attempt id c db) ≡ true)
unfolding mark_failed register_failed_attempt
failed_accepted id now db c met =
    let m = Meets-complete db met in
    (
      Meets-sound (record {
        accounts = m.accounts;
        transactions = mark_failed-accepted db.transactions m.transactions id otp_attempts now;
        ledger = m.ledger;
        schedules = m.schedules;
        emails = m.emails;
        national_ids = m.national_ids;
      }),
      Meets-sound (record {
        accounts = m.accounts;
        transactions = m.transactions;
        ledger = m.ledger;
        schedules = m.schedules;
        emails = m.emails;
        national_ids = m.national_ids;
      }),
    )

-- A code that is wrong for the challenge `c`, which is in time and not used up.
pub record IsWrong (hash_otp_code : ℕ → ℕ) (now code : ℕ) (c : TransferConfirmation) : Type 0 where
  pub in_time : now < c.expires_at
  pub attempts_left : c.attempts < c.max_attempts
  pub differs : hash_otp_code code ≢ c.otp_code_hash

module _ (hash_otp_code : ℕ → ℕ) (others_read : Db → Db) (others_lock : Others)
    (settings : Settings) (now : ℕ) (customer : Customer) (id code : ℕ) (db : Db)
    (c : TransferConfirmation) where
  -- A wrong code for a challenge in time that leaves attempts, where the rows of others meet
  -- the constraints: the attempt is counted, nothing else is changed, and InvalidOtpError tells
  -- the attempts that are left.
  pub wrong_code_counted :
      get_challenge customer id db ≡ ok c
      → IsWrong hash_otp_code now code c
      → c.attempts + 1 < c.max_attempts
      → meets_constraints (others_read db) ≡ true
      → let out =
          confirm_transfer hash_otp_code others_read others_lock settings now customer id code
            (open_session db) in
        (out.0 ≡ err (invalid_otp (c.max_attempts - (c.attempts + 1))))
        × (out.1.committed ≡ register_failed_attempt id c (others_read db))
  unfolding confirm_transfer answer wrong_code give_up ◌>>=◌
  wrong_code_counted found w left met =
      let ok_after = (failed_accepted id now (others_read db) c met).1 in
      let w1 = w.in_time in
      let w2 = w.attempts_left in
      let w3 = w.differs in
      let early : is_expired c now ≡ false = ground arith in
      let unused : attempts_exhausted c ≡ false = ground arith in
      let wrong : (hash_otp_code code == c.otp_code_hash) ≡ false = ground arith in
      let more : leb c.max_attempts (c.attempts + 1) ≡ false = ground arith in
      rw found (rw early (rw unused (rw wrong (rw more (rw ok_after (refl, refl))))))

  -- The last wrong code of a challenge in time writes FAILED to the transaction's row, whatever
  -- other requests have made of that row since it was read, if their rows meet the constraints:
  -- a SUCCESS that another confirmation has committed meanwhile is overwritten, though its
  -- money has moved.
  pub last_wrong_code :
      (row : Transaction)
      → get_challenge customer id db ≡ ok c
      → IsWrong hash_otp_code now code c
      → c.attempts + 1 ≡ c.max_attempts
      → meets_constraints (others_read db) ≡ true
      → lookup id (others_read db).transactions ≡ some row
      → let out =
          confirm_transfer hash_otp_code others_read others_lock settings now customer id code
            (open_session db) in
        (out.0 ≡ err too_many_otp_attempts)
        × (lookup id out.1.committed.transactions ≡ some (failed_row otp_attempts now row))
        × (out.1.committed.accounts ≡ (others_read db).accounts)
  unfolding confirm_transfer answer wrong_code give_up ◌>>=◌ mark_failed register_failed_attempt
  last_wrong_code row found w last met row_found =
      let ok_after = (failed_accepted id now (others_read db) c met).0 in
      let w1 = w.in_time in
      let w2 = w.attempts_left in
      let w3 = w.differs in
      let early : is_expired c now ≡ false = ground arith in
      let unused : attempts_exhausted c ≡ false = ground arith in
      let wrong : (hash_otp_code code == c.otp_code_hash) ≡ false = ground arith in
      let none_left : leb c.max_attempts (c.attempts + 1) ≡ true = ground arith in
      rw found (
        rw early (
          rw unused (
            rw wrong (
              rw none_left (
                rw ok_after (
                  refl,
                  lookup-update id id (failed_row otp_attempts now) (others_read db).transactions
                      ∙ ground (arith, row_found),
                  refl,
                ))))))
