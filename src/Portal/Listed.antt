-- ===== src/Portal/Listed.antt =====
-- The list of a customer's transactions, and the transactions that the customer can open.
use online_banking_system.Prelude.{
  if◌then◌else◌, ℕ, zero, suc, ◌-◌, ◌*◌, take, drop, ◌≡◌, ◌∙◌, refl, sym, ap, true, false, Bool,
  not, ◌&&◌, Option, none, some, List, [], ◌∷◌, ◌==◌, arith, Bool-cases, inl, inr,
}
use online_banking_system.Table.{Table, lookup, HasRow}
use online_banking_system.Pages.{where_rows, page_of}
use online_banking_system.Db.{Account, Transaction, Customer, Db}
use online_banking_system.Session.Check.{Result, ok, err}
use online_banking_system.Accounts.{list_for_customer}
use online_banking_system.Portal.Transactions.{
  ids_of, is_in, get_owned_transaction, touches, list_for_customer_accounts, unless_empty,
  list_transactions, is_customers, owns_side, customer_owns_transaction,
}

-- Ids are unique, as primary keys are.
unfoldable pub is_keyed {ℓ} : {V : Type ℓ} → Table V → Bool
unfolding is_in ids_of
is_keyed [] = true
is_keyed ((id, _) ∷ rows) = not (is_in (some id) (ids_of rows)) && is_keyed rows

both_of : (b c : Bool) → (not b && c) ≡ true → (b ≡ false) × (c ≡ true)
both_of true c h = cc h
both_of false c h = (refl, h)

same_number : (j id : ℕ) → (j == id) ≡ true → j ≡ id
same_number j id h = ground arith

module _ (customer : Customer) where
  -- A row that is not in the table is not in the part of it that is the customer's.
  not_mine :
      (id : ℕ) (accounts : Table Account)
      → is_in (some id) (ids_of accounts) ≡ false
      → is_in (some id) (ids_of (list_for_customer customer.id accounts)) ≡ false
  unfolding is_in ids_of list_for_customer
  not_mine id [] h = refl
  not_mine id ((j, a) ∷ accounts) h = ground (arith, not_mine id accounts)

  mine_iff :
      (id : ℕ) (accounts : Table Account)
      → is_keyed accounts ≡ true
      → is_in (some id) (ids_of (list_for_customer customer.id accounts))
        ≡ is_customers customer (lookup id accounts)
  unfolding is_in ids_of list_for_customer is_keyed
  mine_iff id [] h = refl
  mine_iff id ((j, a) ∷ accounts) h = elim (Bool-cases (j == id)) [
    | inl here ↦
        let gone =
          rw (same_number j id here) at
            (both_of (is_in (some j) (ids_of accounts)) (is_keyed accounts) h).0 in
        elim (Bool-cases (a.customer_id == customer.id)) [
          | inl mine ↦ rw mine (rw here (rw mine refl))
          | inr other ↦ rw other (rw here (rw other (not_mine id accounts gone)))
        ]
    | inr past ↦
        let rest =
          mine_iff id accounts
            (both_of (is_in (some j) (ids_of accounts)) (is_keyed accounts) h).1 in
        elim (Bool-cases (a.customer_id == customer.id)) [
          | inl mine ↦ rw mine (rw past rest)
          | inr other ↦ rw other (rw past rest)
        ]
  ]

  side_iff :
      (side : Option ℕ) (db : Db)
      → is_keyed db.accounts ≡ true
      → is_in side (ids_of (list_for_customer customer.id db.accounts)) ≡ owns_side db customer side
  unfolding owns_side is_in
  side_iff none db h = refl
  side_iff (some id) db h = mine_iff id db.accounts h

  touches_iff :
      (db : Db)
      → is_keyed db.accounts ≡ true
      → (t : Transaction)
      → touches (ids_of (list_for_customer customer.id db.accounts)) t
        ≡ customer_owns_transaction db customer t
  unfolding touches customer_owns_transaction
  touches_iff db h t =
      rw (side_iff t.sender_account_id db h) (rw (side_iff t.receiver_account_id db h) refl)

where_rows-same {ℓ} :
    {V : Type ℓ} (p q : V → Bool) (rows : Table V)
    → ((v : V) → p v ≡ q v)
    → where_rows p rows ≡ where_rows q rows
unfolding where_rows
where_rows-same p q [] same = refl
where_rows-same p q ((id, v) ∷ rows) same = rw (same v) (rw (where_rows-same p q rows same) refl)

where_rows-none {ℓ} : {V : Type ℓ} (rows : Table V) → where_rows (λ v. false) rows ≡ []
unfolding where_rows
where_rows-none [] = refl
where_rows-none ((id, v) ∷ rows) = where_rows-none rows

is_in-none : (side : Option ℕ) → is_in side [] ≡ false
unfolding is_in
is_in-none none = refl
is_in-none (some id) = refl

touches-none : (t : Transaction) → touches [] t ≡ false
unfolding touches
touches-none t = rw (is_in-none t.sender_account_id) (is_in-none t.receiver_account_id)

abbrev nothing : Table Transaction
nothing = []

take-none : (n : ℕ) → take n nothing ≡ nothing
unfolding take
take-none zero = refl
take-none (suc n) = refl

drop-none : (n : ℕ) → drop n nothing ≡ nothing
unfolding drop
drop-none zero = refl
drop-none (suc n) = refl

module _ (order : Table Transaction → Table Transaction)
    (none_ordered : order nothing ≡ nothing) where
  page_of-none : (page page_size : ℕ) → page_of order page page_size nothing ≡ (nothing, 0)
  unfolding page_of
  page_of-none page page_size =
      rw none_ordered (rw (drop-none ((page - 1) * page_size)) (rw (take-none page_size) refl))

  -- The early return answers what the query would.
  no_early_return :
      (page page_size : ℕ) (ids : List ℕ) (db : Db)
      → unless_empty ids (list_for_customer_accounts order page page_size ids db)
        ≡ list_for_customer_accounts order page page_size ids db
  unfolding list_for_customer_accounts
  no_early_return page page_size [] db =
      rw (where_rows-same (touches []) (λ t. false) db.transactions touches-none)
        (rw (where_rows-none db.transactions) (sym (page_of-none page page_size)))
  no_early_return page page_size (id ∷ ids) db = refl

-- Rows of a table with unique ids are found by their ids.
HasRow-is_in :
    (id : ℕ) (t : Transaction) (rows : Table Transaction)
    → HasRow id t rows
    → is_in (some id) (ids_of rows) ≡ true
unfolding is_in ids_of
HasRow-is_in id t [] there = absurd there
HasRow-is_in id t ((j, u) ∷ rows) there = elim there [
  | inl here ↦ let same = here.0 in ground (arith, same)
  | inr past ↦ let found = HasRow-is_in id t rows past in ground (arith, found)
]

lookup-HasRow :
    (id : ℕ) (t : Transaction) (rows : Table Transaction)
    → is_keyed rows ≡ true
    → HasRow id t rows
    → lookup id rows ≡ some t
unfolding is_keyed
lookup-HasRow id t [] keyed there = absurd there
lookup-HasRow id t ((j, u) ∷ rows) keyed there =
    let rest = both_of (is_in (some j) (ids_of rows)) (is_keyed rows) keyed in
    elim (Bool-cases (j == id)) [
      | inl same ↦ elim there [
        | inl here ↦ rw same (ap some here.1)
        | inr past ↦
            let found = HasRow-is_in id t rows past in
            cc (rw (same_number j id same) at rest.0, found)
      ]
      | inr other ↦ elim there [
        | inl here ↦ let same = here.0 in absurd (ground (arith, same, other))
        | inr past ↦ rw other (lookup-HasRow id t rows rest.1 past)
      ]
    ]

abbrev pub is_ok : {A : Type 0} → Result A → Bool
is_ok (ok a) = true
is_ok (err e) = false

-- The rows that get_owned_transaction returns to the customer.
unfoldable pub opened_by : Customer → Db → Table Transaction → Table Transaction
opened_by customer db [] = []
opened_by customer db ((id, t) ∷ rows) =
    let rest = opened_by customer db rows in
    if is_ok (get_owned_transaction customer id db) then (id, t) ∷ rest else rest

opens_iff :
    (customer : Customer) (id : ℕ) (t : Transaction) (db : Db)
    → lookup id db.transactions ≡ some t
    → is_ok (get_owned_transaction customer id db) ≡ customer_owns_transaction db customer t
unfolding get_owned_transaction
opens_iff customer id t db found = elim (Bool-cases (customer_owns_transaction db customer t)) [
  | inl owned ↦ rw found (rw owned refl)
  | inr foreign ↦ rw found (rw foreign refl)
]

opened_by-where_rows :
    (customer : Customer) (db : Db) (rows : Table Transaction)
    → ((id : ℕ) (t : Transaction) → HasRow id t rows → lookup id db.transactions ≡ some t)
    → opened_by customer db rows ≡ where_rows (customer_owns_transaction db customer) rows
unfolding opened_by where_rows
opened_by-where_rows customer db [] found = refl
opened_by-where_rows customer db ((id, t) ∷ rows) found =
    rw (opens_iff customer id t db (found id t (inl (refl, refl))))
      (rw (opened_by-where_rows customer db rows (λ j u there. found j u (inr there))) refl)

-- What a customer sees listed is what the customer can open: where the ids of accounts and of
-- transactions are unique, a page of the list of transactions, with its total, is that page of
-- exactly the transactions that get_owned_transaction returns to the customer, in whatever order
-- the database returns the rows of the query.
pub listed_can_be_opened :
    (order : Table Transaction → Table Transaction) (customer : Customer) (page page_size : ℕ)
    (db : Db)
    → order [] ≡ []
    → is_keyed db.accounts ≡ true
    → is_keyed db.transactions ≡ true
    → list_transactions order customer page page_size db
      ≡ page_of order page page_size (opened_by customer db db.transactions)
unfolding list_transactions list_for_customer_accounts
listed_can_be_opened order customer page page_size db none_ordered keyed unique =
    no_early_return order none_ordered page page_size
      (ids_of (list_for_customer customer.id db.accounts)) db
    ∙ rw
        (where_rows-same (touches (ids_of (list_for_customer customer.id db.accounts)))
          (customer_owns_transaction db customer) db.transactions (touches_iff customer db keyed))
        (rw
          (opened_by-where_rows customer db db.transactions
            (λ id t. lookup-HasRow id t db.transactions unique))
          refl)
