-- ===== src/Pages.antt =====
-- Queries: the rows that meet a condition, and their pages, as the `list_*` methods of the
-- repositories (backend/app/modules/*/repository.py) make them.
use online_banking_system.Prelude.{
  ℕ, ◌-◌, ◌*◌, Bool, true, Option, none, some, [], ◌∷◌, length, take, drop, if◌then◌else◌,
}
use online_banking_system.Table.{Table}

-- The rows of a query.
unfoldable pub where_rows {ℓ} : {V : Type ℓ} → (V → Bool) → Table V → Table V
where_rows p [] = []
where_rows p ((id, v) ∷ rows) = let rest = where_rows p rows in if p v then (id, v) ∷ rest else rest

-- `query.order_by(...).offset(offset).limit(limit)` with `offset = (page - 1) * page_size`, and the
-- count of the query's rows. `order` is the order in which the database returns the rows of this
-- query: ORDER BY leaves open that of rows with the same `created_at`.
unfoldable pub page_of {ℓ} : {V : Type ℓ} → (Table V → Table V) → ℕ → ℕ → Table V → Table V × ℕ
unfolding take drop
page_of order page page_size rows =
    (take page_size (drop ((page - 1) * page_size) (order rows)), length rows)

-- `if status is not None: query.where(status == ...)`
abbrev pub optionally {ℓ} : {S : Type ℓ} → (S → Bool) → Option S → Bool
optionally test none = true
optionally test (some s) = test s
