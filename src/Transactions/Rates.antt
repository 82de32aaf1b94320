-- ===== src/Transactions/Rates.antt =====
-- ExchangeRateRepository.get_active_rate, and the conversion of an amount.
use online_banking_system.Prelude.{
  ℕ, ◌+◌, ◌*◌, ◌/◌, ◌^◌, Bool, true, ◌&&◌, Option, none, some, [], ◌∷◌, leb, ltb, ◌==◌,
  if◌then◌else◌,
}
use online_banking_system.Table.{Table}
use online_banking_system.Db.{ExchangeRate}

abbrev pub not_ended : Option ℕ → ℕ → Bool
not_ended none now = true
not_ended (some t) now = ltb now t

-- The WHERE clauses of the query.
unfoldable pub is_usable : ℕ → ℕ → ℕ → ExchangeRate → Bool
is_usable source target now r =
    r.source_currency == source
    && r.target_currency == target
    && r.in_force
    && leb r.valid_from now
    && not_ended r.valid_to now

-- ORDER BY valid_from DESC: of two, the later one.
abbrev pub newer : ℕ → ExchangeRate → Option (ℕ × ExchangeRate) → Option (ℕ × ExchangeRate)
newer id r none = some (id, r)
newer id r (some (j, q)) = if ltb r.valid_from q.valid_from then some (j, q) else some (id, r)

unfoldable pub get_active_rate : ℕ → ℕ → ℕ → Table ExchangeRate → Option (ℕ × ExchangeRate)
unfolding is_usable
get_active_rate source target now [] = none
get_active_rate source target now ((id, r) ∷ t) =
    let rest = get_active_rate source target now t in
    if is_usable source target now r then newer id r rest else rest

-- `(amount * rate).quantize(Decimal("0.01"), rounding=ROUND_HALF_UP)`, of positive numbers: cents
-- times units of 10^-8, to the nearest cent, halves up.
unfoldable pub converted : ℕ → ℕ → ℕ
converted amount rate = (2 * (amount * rate) + 10 ^ 8) / (2 * 10 ^ 8)
