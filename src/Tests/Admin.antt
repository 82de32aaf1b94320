-- ===== src/Tests/Admin.antt =====
-- The theorems on accounts, the back office and the rate limiter at concrete inputs.
use online_banking_system.Prelude.{ℕ, ◌+◌, ◌≡◌, ◌≤◌, refl, true, false, List, [], ◌∷◌, some}
use online_banking_system.Table.{update, lookup}
use online_banking_system.Db.{account_not_active, unauthorized, AccountStatus}
use online_banking_system.Db.Constraints.{meets_constraints}
use online_banking_system.Session.{open_session, ◌>>=◌}
use online_banking_system.Session.Check.{ok, err}
use online_banking_system.Transactions.{Stamp}
use online_banking_system.Teller.{deposit, withdraw}
use online_banking_system.Accounts.{get_dashboard}
use online_banking_system.Accounts.Totals.{
  total_of, listings, customer_balance, dashboard_shows_balances,
}
use online_banking_system.Admin.{
  update_account_status, on_accounts, set_account_status, admin_request,
}
use online_banking_system.Admin.Frozen.{left_by, frozen_account_is_still}
use online_banking_system.Admin.Movements.{Movement, deposit_on, pay_by, undo, execute, perform_all}
use online_banking_system.RateLimit.{
  Text, Limit, Request, answers, per_minute, RateLimitSettings, literal, build_rate_limits,
  first_match,
}
use online_banking_system.RateLimit.History.{spec_answers, in_order}
use online_banking_system.RateLimit.Refinement.{limiter_refines_history}
use online_banking_system.RateLimit.Bound.{hits_between, granted, limiter_bounds_every_window}
use online_banking_system.Tests.Sample.{bank, alice, stamp}
use online_banking_system.Tests.Keys.{crypto, signed_in_bank}
use online_banking_system.Admin.Audited.{IsAudited, admin_request-IsAudited}
use online_banking_system.Auth.{get_user}

dashboard_shows_balances_example :
    let totals = (get_dashboard alice (bank 5000 0)).balances_by_currency in
    (total_of 1 totals ≡ customer_balance 10 1 (bank 5000 0).accounts) × (listings 1 totals ≤ 1)
dashboard_shows_balances_example = dashboard_shows_balances alice (bank 5000 0) 1

closed : (update_account_status 99 50 1 AccountStatus.closed (open_session (bank 5000 0))).0 ≡ ok 1
unfolding update_account_status meets_constraints update ◌>>=◌
closed = refl

-- A deposit, a card payment and the reversal of a transfer, after account 1 was closed.
abbrev attempts : List Movement
attempts =
    deposit_on (stamp 60) 1 500 1 99
    ∷ pay_by (stamp 61) alice 7 100 1
    ∷ undo (stamp 62) 99 100
    ∷ execute 100 63 true
    ∷ []

frozen_account_is_still_example :
    let after = left_by 99 50 1 AccountStatus.closed (bank 5000 0) in
    (lookup 1 (perform_all (λ _ d. d) attempts after).accounts ≡ lookup 1 after.accounts)
    × ((stamp : Stamp) (amount currency teller : ℕ)
        → ((deposit (λ d. d) stamp 1 amount currency teller (open_session after)).0
            ≡ err account_not_active)
          × ((withdraw (λ d. d) stamp 1 amount currency teller (open_session after)).0
              ≡ err account_not_active))
frozen_account_is_still_example =
    frozen_account_is_still 99 50 1 AccountStatus.closed (bank 5000 0) 1 (λ _ d. d) attempts refl
      closed (λ at d same. same)

-- Two requests of a key in ten seconds.
abbrev twice : Text → Limit
twice _ = record { limit = 2; window_seconds = 10 }

abbrev request : ℕ → Request
request now = record { key = 5 ∷ []; now = now }

abbrev burst : List Request
burst = request 1 ∷ request 2 ∷ request 3 ∷ request 12 ∷ request 13 ∷ []

-- The third is refused; the hit at 1 has left the window at 12, that at 2 has left it at 13.
burst-answers : answers twice [] burst ≡ true ∷ true ∷ false ∷ true ∷ true ∷ []
unfolding answers
burst-answers = refl

burst-order : in_order 0 burst ≡ true
unfolding in_order
burst-order = refl

limiter_refines_history_example : answers twice [] burst ≡ spec_answers twice [] burst
limiter_refines_history_example = limiter_refines_history twice 0 burst burst-order

limiter_bounds_every_window_example :
    hits_between (5 ∷ []) 2 (2 + 10) (granted (answers twice [] burst) burst) ≤ 2
limiter_bounds_every_window_example =
    limiter_bounds_every_window twice (5 ∷ []) 2 0 burst burst-order

abbrev limits : RateLimitSettings
limits = record {
  api_v1_prefix = literal "/api/v1";
  rate_limit_login_per_minute = 10;
  rate_limit_register_per_minute = 5;
  rate_limit_password_reset_per_minute = 3;
  rate_limit_transfer_per_minute = 20;
  rate_limit_default_per_minute = 120;
}

abbrev confirm_prefix : Text
confirm_prefix = literal "/api/v1/auth/register/confirm"

matched :
    first_match confirm_prefix (build_rate_limits limits) ≡ some (confirm_prefix, per_minute 10)
unfolding first_match build_rate_limits
matched = refl

-- Administrator 99 closes account 1.
admin_request-IsAudited_example :
    IsAudited crypto
      (λ d. d)
      50
      (some 2)
      (on_accounts (set_account_status 50 1 AccountStatus.closed))
      signed_in_bank
      (admin_request crypto
        (λ d. d)
        50
        (some 2)
        (on_accounts (set_account_status 50 1 AccountStatus.closed))
        (open_session signed_in_bank))
admin_request-IsAudited_example =
    admin_request-IsAudited crypto (λ d. d) 50 (some 2)
      (on_accounts (set_account_status 50 1 AccountStatus.closed)) signed_in_bank

closed_by_admin :
    (admin_request crypto
      (λ d. d)
      50
      (some 2)
      (on_accounts (set_account_status 50 1 AccountStatus.closed))
      (open_session signed_in_bank)).0
    ≡ ok tt
unfolding admin_request get_user meets_constraints update ◌>>=◌ update_account_status
closed_by_admin = refl

-- User 11 has no access token.
others_are_refused :
    (admin_request crypto
      (λ d. d)
      50
      (some 1)
      (on_accounts (set_account_status 50 1 AccountStatus.closed))
      (open_session signed_in_bank)).0
    ≡ err unauthorized
unfolding admin_request ◌>>=◌
others_are_refused = refl
