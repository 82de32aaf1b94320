-- ===== src/Cards/Checks.antt =====
-- The checks of pay_with_card on the locked card and account, and those of block_own_card.
use online_banking_system.Prelude.{ℕ, Bool, true, false, Option, none, some, ◌==◌}
use online_banking_system.Prelude.Int.{pos, ltb_ℤ}
use online_banking_system.Table.{Table, lookup}
use online_banking_system.Db.{
  conflict, account_not_active, currency_mismatch, insufficient_balance, is_active, CardStatus,
  Card, Db,
}
use online_banking_system.Session.Check.{Result, ok, err, ◌>>=◌, ◌>>◌, require, refuse, or_raise}

abbrev pub is_chargeable : CardStatus → Bool
is_chargeable CardStatus.active = true
is_chargeable _ = false

-- `deleted_at IS NULL`
abbrev pub not_deleted : Option Card → Option Card
not_deleted none = none
not_deleted (some c) = elim c.deleted_at [ none ↦ some c | some _ ↦ none ]

-- CardRepository.get_by_id and get_one_for_update
unfoldable pub get_card : ℕ → Table Card → Option Card
get_card id cards = not_deleted (lookup id cards)

-- The account to charge.
unfoldable pub payment_checks : ℕ → ℕ → ℕ → Db → Result ℕ
unfolding get_card
payment_checks card_id amount currency db = do
  card ← or_raise (get_card card_id db.cards) conflict
  require (is_chargeable card.status) conflict
  account ← or_raise (lookup card.account_id db.accounts) conflict
  require (is_active account.status) account_not_active
  require (account.currency == currency) currency_mismatch
  refuse (ltb_ℤ account.balance (pos amount)) insufficient_balance
  ok card.account_id

unfoldable pub block_checks : CardStatus → Result (Unit {0})
block_checks CardStatus.blocked = err conflict
block_checks CardStatus.expired = err conflict
block_checks CardStatus.active = ok tt
