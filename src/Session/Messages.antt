-- ===== src/Session/Messages.antt =====
-- The Celery messages of the services: calls of `write_audit_log_task.delay`,
-- `dispatch_audit_log` and `send_notification_task.delay` (backend/app/background_tasks/tasks.py).
-- Their metadata is left out.
use online_banking_system.Prelude.{ℕ, Option, List, [], ◌∷◌, map}

pub data AuditAction : Type 0 where
  transfer_initiated transfer_failed transfer_completed scheduled_transfer_completed : AuditAction
  deposit withdrawal admin_transaction_reversed : AuditAction
  customer_card_blocked admin_card_blocked admin_card_deleted card_payment : AuditAction
  scheduled_payment_created scheduled_payment_cancelled : AuditAction
  customer_registered registration_email_verified login_failed login_blocked : AuditAction
  login_email_not_verified login_password_ok_awaiting_mfa login_success : AuditAction
  two_factor_enabled two_factor_disabled mfa_login_failed mfa_login_success : AuditAction
  refresh_token_reuse_detected logout password_changed password_reset : AuditAction
  admin_customer_status_changed admin_account_created admin_account_status_changed : AuditAction
  admin_card_created admin_exchange_rate_created admin_customer_created : AuditAction
  admin_customer_deleted admin_customer_restored : AuditAction
  admin_beneficiary_deleted admin_beneficiary_restored beneficiary_added : AuditAction
  profile_updated : AuditAction

pub data Channel : Type 0 where
  email sms : Channel

pub data Template : Type 0 where
  transfer_otp transfer_completed registration_otp account_status_changed password_reset : Template

-- An audit entry of a user on a resource, one of an attempt by a user who may be unknown, and a
-- notification of a user about a resource.
pub data Message : Type 0 where
  audit : ℕ → AuditAction → ℕ → Message
  audit_attempt : Option ℕ → AuditAction → Message
  notify : ℕ → Channel → Template → ℕ → Message

-- `settings.otp_delivery_channel`
pub data DeliveryChannel : Type 0 where
  both email sms : DeliveryChannel

-- `["email", "sms"] if channel_setting == "both" else [channel_setting]`
abbrev pub channels : DeliveryChannel → List Channel
channels DeliveryChannel.both = Channel.email ∷ Channel.sms ∷ []
channels DeliveryChannel.email = Channel.email ∷ []
channels DeliveryChannel.sms = Channel.sms ∷ []

-- `"sms" if settings.otp_delivery_channel == "sms" else "email"`
abbrev pub completion_channel : DeliveryChannel → Channel
completion_channel DeliveryChannel.sms = Channel.sms
completion_channel _ = Channel.email

-- The loop over the channels that sends the one-time code.
unfoldable pub otp_messages : DeliveryChannel → ℕ → ℕ → List Message
otp_messages setting user_id resource =
    map (λ c. notify user_id c Template.transfer_otp resource) (channels setting)

-- The same loop of a registration.
unfoldable pub registration_messages : DeliveryChannel → ℕ → List Message
registration_messages setting user_id =
    map (λ c. notify user_id c Template.registration_otp user_id) (channels setting)
