-- ===== src/Tests/Money.antt =====
-- The theorems on tellers, cards, rates and the ledger at the sample bank.
use online_banking_system.Prelude.{◌≡◌, ◌+◌, ◌*◌, ◌^◌, ◌≤◌, ◌<◌, refl, [], ◌∷◌, arith}
use online_banking_system.Table.{all_rows}
use online_banking_system.Db.{debit}
use online_banking_system.Db.Constraints.{
  slot_taken, transaction_check, ledger_check, meets_constraints,
}
use online_banking_system.Session.{open_session}
use online_banking_system.Session.Check.{ok}
use online_banking_system.Transactions.{converted, get_active_rate}
use online_banking_system.Transactions.Selection.{
  IsChoice, converted_nearest, get_active_rate_newest,
}
use online_banking_system.Teller.{withdraw, withdrawal_row}
use online_banking_system.Teller.Movement.{Moved}
use online_banking_system.Teller.Outcome.{IsOpen, IsReady, withdraw_done}
use online_banking_system.Cards.{mask}
use online_banking_system.RateLimit.{literal}
use online_banking_system.Tests.Sample.{bank, account, stamp, euro_rate}

account-IsOpen : IsOpen 1 1 (account 10 1001 1 5000) (bank 5000 0)
account-IsOpen = record { found = refl; active = refl; same_currency = refl }

bank-IsReady : IsReady (stamp 200) (bank 5000 0)
unfolding meets_constraints all_rows transaction_check ledger_check slot_taken
bank-IsReady = record { met = refl; no_debit = refl; no_credit = refl }

withdraw_done_example :
    ((withdraw (λ d. d) (stamp 200) 1 2000 1 99 (open_session (bank 5000 0))).0 ≡ ok 200)
    × Moved debit
        (stamp 200)
        (withdrawal_row 1 2000 1 99)
        1
        (account 10 1001 1 5000)
        (bank 5000 0)
        (withdraw (λ d. d) (stamp 200) 1 2000 1 99 (open_session (bank 5000 0))).1.committed
withdraw_done_example =
    withdraw_done (λ d. d) (stamp 200) 1 2000 1 99 (bank 5000 0) (account 10 1001 1 5000)
      account-IsOpen (omega arith) (omega arith) bank-IsReady

converted_nearest_example :
    (2 * (10 ^ 8 * converted 1001 170000000) ≤ 2 * (1001 * 170000000) + 10 ^ 8)
    × (2 * (1001 * 170000000) < 2 * (10 ^ 8 * converted 1001 170000000) + 10 ^ 8)
converted_nearest_example = converted_nearest 1001 170000000

get_active_rate_newest_example :
    IsChoice 1 2 50 (get_active_rate 1 2 50 ((60, euro_rate) ∷ [])) ((60, euro_rate) ∷ [])
get_active_rate_newest_example = get_active_rate_newest 1 2 50 ((60, euro_rate) ∷ [])

card_is_masked : mask (literal "4111111111111111") ≡ literal "4111 **** **** 1111"
unfolding mask
card_is_masked = refl

short_number_is_masked : mask (literal "41-11") ≡ literal "**** **** **** ****"
unfolding mask
short_number_is_masked = refl
