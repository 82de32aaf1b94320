-- ===== src/Tests/Portal.antt =====
-- The theorems on the requests of customers, browsers and the application at concrete inputs.
use online_banking_system.Prelude.{
  ℕ, List, ◌≡◌, ◌↔◌, refl, true, false, not, some, none, [], ◌∷◌, ◌++◌, ◌==◌, length, arith,
}
use online_banking_system.Db.{unauthorized, invalid_refresh_token, Db}
use online_banking_system.Db.Constraints.{meets_constraints}
use online_banking_system.Session.{open_session}
use online_banking_system.Session.Check.{ok, err}
use online_banking_system.Session.Messages.{DeliveryChannel}
use online_banking_system.Auth.{
  Draw, get_user, get_by_hash, get_by_user_id, get_current_user, require_role, get_current_customer,
  access_claims, refresh_session, log_out, no_content, delete_cookie, refresh_endpoint,
}
use online_banking_system.Auth.Browser.{
  Browser, browse, refresh_all, renewals, IsSignedIn, stays_signed_in,
}
use online_banking_system.Auth.LoggedOut.{logout_ends}
use online_banking_system.Portal.{portal_request, on_own_cards, pay_by_card, list_transactions}
use online_banking_system.Portal.Protected.{IsUnspent, only_owner_spends}
use online_banking_system.Portal.Listed.{is_keyed, opened_by, listed_can_be_opened}
use online_banking_system.Pages.{page_of}
use online_banking_system.Notifications.{transfer_otp_notifications, registration_otp_notifications}
use online_banking_system.Notifications.Arrived.{arrives, is_sms_only, IsCustomer, codes_arrive}
use online_banking_system.RateLimit.{Hits, literal}
use online_banking_system.RateLimit.Texts.{Text, same_text}
use online_banking_system.App.{
  AppSettings, is_production, guard_production_configuration, started, get_client_ip,
}
use online_banking_system.App.Middleware.{
  Stack, HttpScope, Outgoing, http, response_start, response_body, handle, send_rate_limited,
}
use online_banking_system.App.Guarded.{IsSecure, starts_iff_IsSecure}
use online_banking_system.App.Forwarded.{is_plain, address_not_forged}
use online_banking_system.Tests.Sample.{alice, settings, stamp, account}
use online_banking_system.Tests.Keys.{
  crypto, user_11, session_31, signed_in_bank, token_settings, draw,
}

-- Customer 10 pays by card 7; account 2 is of customer 20.
paying_customer : get_current_customer crypto 50 (some 3) signed_in_bank ≡ ok alice
unfolding get_current_customer require_role get_current_user access_claims get_by_user_id get_user
paying_customer = refl

only_owner_spends_example :
    IsUnspent 2
      (account 20 1002 1 300)
      (portal_request crypto
        (λ d. d)
        (λ _ d. d)
        settings
        50
        (some 3)
        (on_own_cards (pay_by_card (stamp 300) 7 1000 1))
        (open_session signed_in_bank)).1.committed
only_owner_spends_example =
    only_owner_spends crypto settings 50 (some 3) (on_own_cards (pay_by_card (stamp 300) 7 1000 1))
      signed_in_bank 2 (account 20 1002 1 300) refl
      (λ me signed same.
        let who : alice.id ≡ me.id = cc (paying_customer, signed) in omega (arith, who, same))

abbrev browser : Browser
browser = record { db = signed_in_bank; jar = some (record { value = 40; expires_at = 900 }) }

signed_in : IsSignedIn crypto 11 31 900 browser
unfolding get_by_hash get_user meets_constraints
signed_in = record {
  cookie = _;
  token = session_31;
  user = user_11;
  kept = refl;
  lasts = refl;
  stored = refl;
  there = refl;
  live = refl;
  lives = refl;
  owner = refl;
  known = refl;
  admitted = refl;
  accepted = refl;
}

stays_signed_in_example :
    let out = refresh_all crypto true token_settings (draw 41 ∷ draw 42 ∷ []) browser in
    (out.0 ≡ renewals crypto true token_settings 11 (draw 41 ∷ draw 42 ∷ []))
    × (last : ℕ) × (until : ℕ) × IsSignedIn crypto 11 last until out.1
stays_signed_in_example =
    stays_signed_in crypto true token_settings 11 (draw 41 ∷ draw 42 ∷ []) 31 900 browser signed_in
      (omega arith, λ e. omega (arith, e), (omega arith, λ e. omega (arith, e), tt))

logout_ends_example :
    let out = browse crypto true token_settings 60 log_out browser in
    (out.0 ≡ ok (no_content, delete_cookie))
    × (out.1.jar ≡ none)
    × ((d : Draw)
        → browse crypto true token_settings d.now (refresh_session d) out.1
          ≡ (err unauthorized, out.1))
    × ((others : Db → Db) (d : Draw)
        → (refresh_endpoint crypto true token_settings others d
            (some signed_in.cookie.value)
            (open_session out.1.db)).0
          ≡ err invalid_refresh_token)
logout_ends_example =
    logout_ends crypto true token_settings 11 31 900 60 browser signed_in (omega arith)

keyed : is_keyed (signed_in_bank.accounts) ≡ true
unfolding is_keyed
keyed = refl

transactions_keyed : is_keyed signed_in_bank.transactions ≡ true
unfolding is_keyed
transactions_keyed = refl

listed_can_be_opened_example :
    list_transactions (λ rows. rows) alice 1 20 signed_in_bank
    ≡ page_of (λ rows. rows) 1 20 (opened_by alice signed_in_bank signed_in_bank.transactions)
listed_can_be_opened_example =
    listed_can_be_opened (λ rows. rows) alice 1 20 signed_in_bank refl keyed transactions_keyed

user_11-IsCustomer : IsCustomer 11 signed_in_bank
unfolding get_user get_by_user_id
user_11-IsCustomer = record { user = user_11; row = _; known = refl; has_profile = refl }

codes_arrive_example :
    let reach =
      arrives user_11-IsCustomer.user.email user_11-IsCustomer.row.1.phone_number 123456
        signed_in_bank in
    (reach (transfer_otp_notifications DeliveryChannel.sms 11 123456 5) ≡ true)
    × (reach (registration_otp_notifications DeliveryChannel.sms 11 123456)
        ≡ not (is_sms_only DeliveryChannel.sms))
codes_arrive_example =
    codes_arrive DeliveryChannel.sms 11 123456 5 signed_in_bank user_11-IsCustomer

-- Every text of 44 characters counts as a key here.
abbrev app_settings : AppSettings
app_settings = record {
  environment = literal "Production";
  jwt_secret_key = literal "0123456789012345678901234567890123456789";
  encryption_key = literal "MDEyMzQ1Njc4OTAxMjM0NTY3ODkwMTIzNDU2Nzg5MDE=";
  cors_allow_origins = literal "https://bank.example" ∷ [];
}

in_production : is_production app_settings ≡ true
unfolding is_production same_text
in_production = refl

starts_iff_IsSecure_example :
    (guard_production_configuration (λ key. length key == 44) app_settings ≡ started app_settings)
    ↔ IsSecure (λ key. length key == 44) app_settings
starts_iff_IsSecure_example =
    starts_iff_IsSecure (λ key. length key == 44) app_settings in_production

plain : is_plain (literal "203.0.113.9") ≡ true
unfolding is_plain
plain = refl

address_not_forged_example :
    (get_client_ip true
        (some (literal "1.1.1.1" ++ (literal ", " ++ literal "203.0.113.9")))
        (some (literal "203.0.113.9"))
      ≡ some (literal "203.0.113.9"))
    × (get_client_ip false (some (literal "1.1.1.1")) (some (literal "203.0.113.9"))
        ≡ some (literal "203.0.113.9"))
address_not_forged_example =
    address_not_forged (literal "1.1.1.1") (literal "203.0.113.9") (some (literal "1.1.1.1"))
      (some (literal "203.0.113.9")) plain

-- One request a minute, and an application that answers "ok" with status 200.
abbrev one_a_minute : Stack
one_a_minute = record {
  limits = (literal "/", record { limit = 1; window_seconds = 60 }) ∷ [];
  template = λ path. path;
  inner = λ scope. (response_start 200 [] ∷ response_body (literal "ok") ∷ [], false);
  fresh_id = literal "fresh";
  refusal_body = literal "{}";
  error_length = literal "2";
  error_body = literal "{}";
}

abbrev get_health : HttpScope
get_health = record { path = literal "/health"; client = some (literal "1.1.1.1"); headers = [] }

-- The second request of the minute.
abbrev second : (List Outgoing × List (Text × ℕ)) × Hits
second = handle one_a_minute 1 (http get_health) (handle one_a_minute 0 (http get_health) []).1

second_is_refused : second.0.0 ≡ send_rate_limited (literal "{}")
unfolding handle
second_is_refused = refl
