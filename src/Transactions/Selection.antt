-- ===== src/Transactions/Selection.antt =====
-- Which exchange rate applies, and how the converted amount is rounded.
use online_banking_system.Prelude.{
  ap, false, ℕ, ◌+◌, ◌*◌, ◌^◌, ◌<◌, ◌≤◌, ◌≡◌, refl, true, Option, none, some, [], ◌∷◌, arith, ltb,
  if◌then◌else◌, Bool-cases, inl, inr,
}
use online_banking_system.Table.{Table, HasRow}
use online_banking_system.Db.{ExchangeRate}
use online_banking_system.Transactions.Rates.{
  not_ended, is_usable, newer, get_active_rate, converted,
}

-- The converted amount is the product with the rate to the nearest cent, a half rounded up: it
-- exceeds the exact product by at most half a cent, and falls short of it by less.
pub converted_nearest :
    (amount rate : ℕ)
    → (2 * (10 ^ 8 * converted amount rate) ≤ 2 * (amount * rate) + 10 ^ 8)
      × (2 * (amount * rate) < 2 * (10 ^ 8 * converted amount rate) + 10 ^ 8)
unfolding converted
converted_nearest amount rate = omega arith

-- A rate for the pair of currencies that is active, has begun and has not ended.
pub record Applies (source target now : ℕ) (r : ExchangeRate) : Type 0 where
  pub from : r.source_currency ≡ source
  pub into : r.target_currency ≡ target
  pub in_force : r.in_force ≡ true
  pub begun : r.valid_from ≤ now
  pub lasts : (ending : ℕ) → r.valid_to ≡ some ending → now < ending

module _ (source target now : ℕ) where
  still_on : (e : Option ℕ) → not_ended e now ≡ true → (ending : ℕ) → e ≡ some ending → now < ending
  still_on none h ending same = cc same
  still_on (some t) h ending same = ground (arith, h, same)

  on_still :
      (e : Option ℕ) → ((ending : ℕ) → e ≡ some ending → now < ending) → not_ended e now ≡ true
  on_still none h = refl
  on_still (some t) h = let after = h t refl in ground (arith, after)

  usable-Applies :
      (r : ExchangeRate) → is_usable source target now r ≡ true → Applies source target now r
  unfolding is_usable
  usable-Applies r h = record {
    from = ground (arith, h);
    into = ground (arith, h);
    in_force = ground (arith, h);
    begun = ground (arith, h);
    lasts = still_on r.valid_to (ground (arith, h));
  }

  Applies-usable :
      (r : ExchangeRate) → Applies source target now r → is_usable source target now r ≡ true
  unfolding is_usable
  Applies-usable r a =
      let on = on_still r.valid_to a.lasts in
      ground (arith, a.from, a.into, a.in_force, a.begun, on)

  skipped :
      (q r : ExchangeRate)
      → q ≡ r
      → is_usable source target now q ≡ false
      → ¬ Applies source target now r
  skipped q r same not_usable a =
      let usable = Applies-usable r a in let refused = ap (is_usable source target now) same in cc

  -- What the choice of a rate promises of the table that it was made from.
  abbrev pub IsChoice : Option (ℕ × ExchangeRate) → Table ExchangeRate → Type 0
  IsChoice none t = (id : ℕ) (q : ExchangeRate) → HasRow id q t → ¬ Applies source target now q
  IsChoice (some (id, r)) t =
      HasRow id r t
      × Applies source target now r
      × ((j : ℕ) (q : ExchangeRate)
          → HasRow j q t
          → Applies source target now q
          → q.valid_from ≤ r.valid_from)

  choose :
      (id : ℕ) (q : ExchangeRate) (t : Table ExchangeRate) (rest : Option (ℕ × ExchangeRate))
      → IsChoice rest t
      → IsChoice (if is_usable source target now q then newer id q rest else rest) ((id, q) ∷ t)
  choose id q t none h = elim (Bool-cases (is_usable source target now q)) [
    | inl usable ↦ rw usable (
      inl (refl, refl),
      usable-Applies q usable,
      λ j r there a. elim there [
        | inl same ↦ rw same.1 (omega arith)
        | inr past ↦ absurd (h j r past a)
      ],
    )
    | inr not_usable ↦ rw not_usable (λ j r there a. elim there [
      | inl same ↦ absurd (skipped q r same.1 not_usable a)
      | inr past ↦ h j r past a
    ])
  ]
  choose id q t (some (k, v)) h = elim (Bool-cases (is_usable source target now q)) [
    | inr not_usable ↦ rw not_usable (
      inr h.0,
      h.1,
      λ j r there a. elim there [
        | inl same ↦ absurd (skipped q r same.1 not_usable a)
        | inr past ↦ h.2 j r past a
      ],
    )
    | inl usable ↦ rw usable (elim (Bool-cases (ltb q.valid_from v.valid_from)) [
      | inl older ↦ rw older (
        inr h.0,
        h.1,
        λ j r there a. elim there [
          | inl same ↦ rw (← same.1) (ground (arith, older))
          | inr past ↦ h.2 j r past a
        ],
      )
      | inr not_older ↦ rw not_older (
        inl (refl, refl),
        usable-Applies q usable,
        λ j r there a. elim there [
          | inl same ↦ rw same.1 (omega arith)
          | inr past ↦ let before = h.2 j r past a in ground (arith, not_older, before)
        ],
      )
    ])
  ]

  -- The rate that applies is a row of the table, for the pair of currencies, active, begun and not
  -- ended, and no other such row began later; where none is found, the table has no such row.
  pub get_active_rate_newest :
      (t : Table ExchangeRate) → IsChoice (get_active_rate source target now t) t
  unfolding get_active_rate
  get_active_rate_newest [] = λ id q there a. absurd there
  get_active_rate_newest ((id, q) ∷ t) =
      choose id q t (get_active_rate source target now t) (get_active_rate_newest t)
