-- ===== src/Notifications.antt =====
-- Notifications: send_notification_task of backend/app/background_tasks/tasks.py with its templates,
-- and the two services that send one-time codes. A text is the list of its parts: fixed words, and
-- what stands in a placeholder. The providers (backend/app/core/{email,sms}.py) get the text and where
-- to send it.
use online_banking_system.Prelude.{ℕ, Bool, true, false, Option, none, some, List, [], ◌∷◌, map}
use online_banking_system.Db.{User, CustomerRow, Db}
use online_banking_system.Session.Messages.{Channel, Template, DeliveryChannel, channels}
use online_banking_system.Auth.{get_user, get_by_user_id}
pub mod Arrived

-- The placeholders of the templates.
pub data Field : Type 0 where
  otp_code reference_number reset_token new_status : Field

abbrev pub same_field : Field → Field → Bool
same_field otp_code otp_code = true
same_field reference_number reference_number = true
same_field reset_token reset_token = true
same_field new_status new_status = true
same_field _ _ = false

pub data Part : Type 0 where
  words : Part
  placeholder : Field → Part

abbrev pub Context : Type 0
Context = List (Field × ℕ)

-- The parts of a text that is sent.
pub data Piece : Type 0 where
  fixed : Piece
  shown : ℕ → Piece

-- The bodies of _EMAIL_TEMPLATES
abbrev pub email_template : Template → List Part
email_template Template.registration_otp = words ∷ placeholder otp_code ∷ words ∷ []
email_template Template.transfer_otp =
    words ∷ placeholder reference_number ∷ words ∷ placeholder otp_code ∷ words ∷ []
email_template Template.transfer_completed = words ∷ placeholder reference_number ∷ words ∷ []
email_template Template.password_reset = words ∷ placeholder reset_token ∷ words ∷ []
email_template Template.account_status_changed = words ∷ placeholder new_status ∷ []

-- `_SMS_TEMPLATES.get(template, template)`: without a template the text is the template's name.
abbrev pub sms_template : Template → List Part
sms_template Template.transfer_otp = words ∷ placeholder otp_code ∷ words ∷ []
sms_template Template.transfer_completed = words ∷ placeholder reference_number ∷ words ∷ []
sms_template Template.password_reset = words ∷ []
sms_template Template.account_status_changed = words ∷ placeholder new_status ∷ []
sms_template Template.registration_otp = words ∷ []

unfoldable pub value_of : Field → Context → Option ℕ
value_of field [] = none
value_of field ((f, value) ∷ context) =
    let rest = value_of field context in
    elim (same_field f field) [ true ↦ some value | false ↦ rest ]

abbrev pub put : Piece → Option (List Piece) → Option (List Piece)
put piece none = none
put piece (some pieces) = some (piece ∷ pieces)

-- `body_template.format(**context)`; a placeholder without a value is a KeyError.
unfoldable pub fill : List Part → Context → Option (List Piece)
unfolding value_of
fill [] context = some []
fill (words ∷ parts) context = put fixed (fill parts context)
fill (placeholder field ∷ parts) context =
    let rest = fill parts context in
    elim (value_of field context) [ none ↦ none | some value ↦ put (shown value) rest ]

-- `f"{body_template}\n\n(context: {context})"`
abbrev pub all_values : Context → List Piece
all_values [] = []
all_values ((_, value) ∷ context) = shown value ∷ all_values context

-- _render_template
unfoldable pub render_template : List Part → Context → List Piece
unfolding fill
render_template parts context = elim (fill parts context) [
  | none ↦ fixed ∷ all_values context
  | some pieces ↦ pieces
]

-- The arguments of send_notification_task.
pub record Notification : Type 0 where
  pub user_id : ℕ
  pub channel : Channel
  pub template : Template
  pub context : Context

-- What a provider gets to send.
pub data Delivery : Type 0 where
  email_to sms_to : ℕ → List Piece → Delivery

abbrev pub sms_delivery : Notification → Option ℕ → Option Delivery
sms_delivery n none = none
sms_delivery n (some phone_number) =
    some (sms_to phone_number (render_template (sms_template n.template) n.context))

abbrev pub phone_number_of : Option (ℕ × CustomerRow) → Option ℕ
phone_number_of none = none
phone_number_of (some (_, customer)) = some customer.phone_number

-- The phone number of the user's customer row.
unfoldable pub phone_of : ℕ → Db → Option ℕ
unfolding get_by_user_id
phone_of user_id db = phone_number_of (get_by_user_id user_id db)

unfoldable pub dispatch : Notification → Db → Option User → Option Delivery
unfolding phone_of render_template
dispatch n db none = none
dispatch n db (some user) = elim n.channel [
  | Channel.email ↦
      some (email_to user.email (render_template (email_template n.template) n.context))
  | Channel.sms ↦ sms_delivery n (phone_of n.user_id db)
]

-- _send_notification_async
unfoldable pub send_notification : Db → Notification → Option Delivery
unfolding dispatch get_user
send_notification db n = dispatch n db (get_user n.user_id db)

-- The codes of initiate_transfer and resend_otp, one notification for each channel.
abbrev pub transfer_otp_notification : ℕ → ℕ → ℕ → Channel → Notification
transfer_otp_notification user_id code reference c = record {
  user_id = user_id;
  channel = c;
  template = Template.transfer_otp;
  context = (otp_code, code) ∷ (reference_number, reference) ∷ [];
}

unfoldable pub transfer_otp_notifications : DeliveryChannel → ℕ → ℕ → ℕ → List Notification
transfer_otp_notifications setting user_id code reference =
    map (transfer_otp_notification user_id code reference) (channels setting)

-- The codes of _issue_registration_otp.
abbrev pub registration_otp_notification : ℕ → ℕ → Channel → Notification
registration_otp_notification user_id code c = record {
  user_id = user_id;
  channel = c;
  template = Template.registration_otp;
  context = (otp_code, code) ∷ [];
}

unfoldable pub registration_otp_notifications : DeliveryChannel → ℕ → ℕ → List Notification
registration_otp_notifications setting user_id code =
    map (registration_otp_notification user_id code) (channels setting)
