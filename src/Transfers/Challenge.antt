-- ===== src/Transfers/Challenge.antt =====
-- initiate_transfer and resend_otp. Codes are only hashed and compared; the fresh code's hash
-- comes from outside.
use online_banking_system.Prelude.{ℕ, ◌+◌, ◌*◌, ◌++◌, [], ◌∷◌}
use online_banking_system.Db.{Customer}
use online_banking_system.Session.Actions.{Action, ◌>>=◌, ◌>>◌, pure, check, modify, commit, send}
use online_banking_system.Session.Messages.{
  audit, transfer_initiated, otp_messages, DeliveryChannel,
}
use online_banking_system.Transactions.{Stamp, create, create_confirmation, reissue}
use online_banking_system.Transfers.Validation.{TransferRequest, validate_transfer}
use online_banking_system.Transfers.Access.{get_challenge}

-- `settings.otp_expire_minutes` and `settings.otp_delivery_channel`
pub record Settings : Type 0 where
  pub otp_expire_minutes : ℕ
  pub otp_delivery_channel : DeliveryChannel

abbrev pub otp_lifetime : Settings → ℕ
otp_lifetime settings = settings.otp_expire_minutes * 60

-- Returns the new transaction's id and the lifetime of its code in seconds.
unfoldable pub initiate_transfer :
    Settings → Stamp → ℕ → Customer → TransferRequest → Action (ℕ × ℕ)
unfolding validate_transfer create create_confirmation otp_messages
initiate_transfer settings stamp otp_code_hash customer payload = do
  new ← check (λ db. validate_transfer db customer payload stamp.now)
  modify (create stamp new)
  modify (create_confirmation stamp.id otp_code_hash (stamp.now + otp_lifetime settings))
  commit
  send (
      otp_messages settings.otp_delivery_channel customer.user_id stamp.id
      ++ audit customer.user_id transfer_initiated stamp.id ∷ [])
  pure (stamp.id, otp_lifetime settings)

unfoldable pub resend_otp : Settings → ℕ → ℕ → Customer → ℕ → Action ℕ
unfolding get_challenge reissue otp_messages
resend_otp settings now otp_code_hash customer transaction_id = do
  confirmation ← check (get_challenge customer transaction_id)
  modify (reissue transaction_id otp_code_hash (now + otp_lifetime settings))
  commit
  send (otp_messages settings.otp_delivery_channel customer.user_id transaction_id)
  pure (otp_lifetime settings)
