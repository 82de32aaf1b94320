-- ===== src/Notifications/Arrived.antt =====
-- Whether a one-time code reaches the customer.
use online_banking_system.Prelude.{
  ℕ, ◌≡◌, refl, Bool, true, false, not, ◌&&◌, ◌||◌, Option, none, some, List, [], ◌∷◌, ◌==◌, arith,
}
use online_banking_system.Db.{User, CustomerRow, Db}
use online_banking_system.Session.Messages.{Channel, DeliveryChannel}
use online_banking_system.Auth.{get_user, get_by_user_id}
use online_banking_system.Notifications.{
  Piece, fixed, shown, Notification, Delivery, email_to, sms_to, send_notification, dispatch,
  phone_of, render_template, fill, value_of, transfer_otp_notification,
  registration_otp_notification, transfer_otp_notifications, registration_otp_notifications,
}

-- The text shows the code.
unfoldable pub shows : ℕ → List Piece → Bool
shows code [] = false
shows code (fixed ∷ pieces) = shows code pieces
shows code (shown value ∷ pieces) = value == code || shows code pieces

-- It goes to the address or the number, with the code in its text.
abbrev pub delivers : ℕ → ℕ → ℕ → Option Delivery → Bool
delivers address number code none = false
delivers address number code (some (email_to to pieces)) = to == address && shows code pieces
delivers address number code (some (sms_to to pieces)) = to == number && shows code pieces

-- One of the notifications is delivered to the address or the number with the code in its text.
unfoldable pub arrives : ℕ → ℕ → ℕ → Db → List Notification → Bool
arrives address number code db [] = false
arrives address number code db (n ∷ ns) =
    delivers address number code (send_notification db n) || arrives address number code db ns

-- `settings.otp_delivery_channel == "sms"`
abbrev pub is_sms_only : DeliveryChannel → Bool
is_sms_only DeliveryChannel.sms = true
is_sms_only _ = false

-- The user is known, and has a customer row.
pub record IsCustomer (user_id : ℕ) (db : Db) : Type 0 where
  pub user : User
  pub row : ℕ × CustomerRow
  pub known : get_user user_id db ≡ some user
  pub has_profile : get_by_user_id user_id db ≡ some row

abbrev is_sms : Channel → Bool
is_sms Channel.sms = true
is_sms Channel.email = false

module _ (user_id code reference : ℕ) (db : Db) (c : IsCustomer user_id db) where
  phone : phone_of user_id db ≡ some c.row.1.phone_number
  unfolding phone_of
  phone = rw c.has_profile refl

  itself : (n : ℕ) → (n == n) ≡ true
  itself n = ground arith

  -- Where the codes of the customer go.
  abbrev reached : Option Delivery → Bool
  reached = delivers c.user.email c.row.1.phone_number code

  transfer_delivers :
      (channel : Channel)
      → reached (send_notification db (transfer_otp_notification user_id code reference channel))
        ≡ true
  unfolding shows send_notification dispatch render_template fill value_of
  transfer_delivers Channel.email =
      rw c.known (ground (arith, itself code, itself c.user.email, itself c.row.1.phone_number))
  transfer_delivers Channel.sms =
      rw c.known
        (rw phone (ground (arith, itself code, itself c.user.email, itself c.row.1.phone_number)))

  registration_delivers :
      (channel : Channel)
      → reached (send_notification db (registration_otp_notification user_id code channel))
        ≡ not (is_sms channel)
  unfolding shows send_notification dispatch render_template fill value_of
  registration_delivers Channel.email =
      rw c.known (ground (arith, itself code, itself c.user.email, itself c.row.1.phone_number))
  registration_delivers Channel.sms = rw c.known (rw phone (ground arith))

-- A transfer's code reaches a customer, at the address of the user or the phone number of the
-- customer's row, over every setting of the delivery channel. The code of a registration does over
-- e-mail and over both channels, but not by SMS only: it does not reach the customer then.
pub codes_arrive :
    (setting : DeliveryChannel) (user_id code reference : ℕ) (db : Db) (c : IsCustomer user_id db)
    → let reach = arrives c.user.email c.row.1.phone_number code db in
      (reach (transfer_otp_notifications setting user_id code reference) ≡ true)
      × (reach (registration_otp_notifications setting user_id code) ≡ not (is_sms_only setting))
unfolding arrives transfer_otp_notifications registration_otp_notifications
codes_arrive DeliveryChannel.both user_id code reference db c =
    let by_email = transfer_delivers user_id code reference db c Channel.email in
    let signed_up = registration_delivers user_id code reference db c Channel.email in
    (rw by_email refl, rw signed_up refl)
codes_arrive DeliveryChannel.email user_id code reference db c =
    let by_email = transfer_delivers user_id code reference db c Channel.email in
    let signed_up = registration_delivers user_id code reference db c Channel.email in
    (rw by_email refl, rw signed_up refl)
codes_arrive DeliveryChannel.sms user_id code reference db c =
    let by_sms = transfer_delivers user_id code reference db c Channel.sms in
    let signed_up = registration_delivers user_id code reference db c Channel.sms in
    (rw by_sms refl, rw signed_up refl)
