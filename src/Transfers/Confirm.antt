-- ===== src/Transfers/Confirm.antt =====
-- confirm_transfer. `hash_otp_code` is the SHA-256 of a code. `others_read` is what other requests
-- commit after the challenge was read and before this request writes, `others_lock` what they
-- commit during the execution of the transfer.
use online_banking_system.Prelude.{ℕ, ◌+◌, ◌-◌, true, [], ◌∷◌, ◌==◌, leb, if◌then◌else◌}
use online_banking_system.Db.{
  Error, otp_expired, too_many_otp_attempts, invalid_otp, Reason, otp_timeout, otp_attempts,
  TransferConfirmation, Db, Customer,
}
use online_banking_system.Session.Actions.{
  Action, ◌>>=◌, ◌>>◌, pure, raise, check, modify, commit, send, wait,
}
use online_banking_system.Session.Messages.{
  audit, transfer_failed, transfer_completed, notify, completion_channel, Template,
}
use online_banking_system.Transactions.{
  mark_failed, register_failed_attempt, is_expired, attempts_exhausted,
}
use online_banking_system.Transfers.Access.{get_challenge}
use online_banking_system.Transfers.Execution.{Others, execute_locked_transfer}
use online_banking_system.Transfers.Challenge.{Settings}

module _ (hash_otp_code : ℕ → ℕ) where
  -- The transaction is failed for good and the failure audited.
  unfoldable pub give_up : ℕ → Customer → ℕ → Reason → Error → Action ℕ
  unfolding mark_failed
  give_up now customer id reason e = do
    modify (mark_failed id reason now)
    commit
    send (audit customer.user_id transfer_failed id ∷ [])
    raise e

  -- A wrong code: one attempt is used up, and with the last one the transfer.
  unfoldable pub wrong_code : ℕ → Customer → ℕ → TransferConfirmation → Action ℕ
  unfolding give_up register_failed_attempt
  wrong_code now customer id confirmation = do
    modify (register_failed_attempt id confirmation)
    if leb confirmation.max_attempts (confirmation.attempts + 1)
        then give_up now customer id otp_attempts too_many_otp_attempts
        else (do
          commit
          raise (invalid_otp (confirmation.max_attempts - (confirmation.attempts + 1))))

  unfoldable pub right_code : Others → Settings → ℕ → Customer → ℕ → Action ℕ
  unfolding execute_locked_transfer
  right_code others_lock settings now customer id = do
    done ← execute_locked_transfer others_lock id now true
    send (
        audit customer.user_id transfer_completed id
        ∷ notify customer.user_id (completion_channel settings.otp_delivery_channel)
            Template.transfer_completed id
        ∷ [])
    pure done

  unfoldable pub answer : Others → Settings → ℕ → Customer → ℕ → ℕ → TransferConfirmation → Action ℕ
  unfolding give_up wrong_code right_code
  answer others_lock settings now customer id code confirmation =
      if is_expired confirmation now
      then give_up now customer id otp_timeout otp_expired
      else if attempts_exhausted confirmation
      then give_up now customer id otp_attempts too_many_otp_attempts
      else if hash_otp_code code == confirmation.otp_code_hash
      then right_code others_lock settings now customer id
      else wrong_code now customer id confirmation

  unfoldable pub confirm_transfer : (Db → Db) → Others → Settings → ℕ → Customer → ℕ → ℕ → Action ℕ
  unfolding get_challenge answer
  confirm_transfer others_read others_lock settings now customer id code = do
    confirmation ← check (get_challenge customer id)
    wait others_read
    answer others_lock settings now customer id code confirmation
