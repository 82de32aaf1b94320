-- ===== src/Table.antt =====
-- A database table: its rows by primary key. The backend reaches its tables only through
-- SQLAlchemy's `select`, `add` and attribute writes; these are the effects of those on the rows.
use online_banking_system.Prelude.{
  ℕ, ◌≡◌, refl, Bool, true, Option, none, some, ◌⊎◌, List, [], ◌∷◌, ◌&&◌, arith, ◌==◌, Bool-cases,
  inl, inr, ap, sym, ◌∙◌, if◌then◌else◌,
}

abbrev pub Table {ℓ} : Type ℓ → Type ℓ
Table V = List (ℕ × V)

module _ {ℓ} {V : Type ℓ} where
  -- SELECT ... WHERE id = k
  abbrev pub lookup : ℕ → Table V → Option V
  lookup k [] = none
  lookup k ((j, v) ∷ t) = if j == k then some v else lookup k t

  -- INSERT of a row with a new key
  abbrev pub insert : ℕ → V → Table V → Table V
  insert k v t = (k, v) ∷ t

  abbrev pub apply_some : (V → V) → Option V → Option V
  apply_some f none = none
  apply_some f (some v) = some (f v)

  -- UPDATE of the row with key k
  unfoldable pub update : ℕ → (V → V) → Table V → Table V
  update k f [] = []
  update k f ((j, v) ∷ t) = if j == k then (j, f v) ∷ t else (j, v) ∷ update k f t

  -- SELECT of the first row that meets a condition, with its key
  abbrev pub find_by : (V → Bool) → Table V → Option (ℕ × V)
  find_by p [] = none
  find_by p ((j, v) ∷ t) = if p v then some (j, v) else find_by p t

  -- A CHECK constraint holds of every row.
  unfoldable pub all_rows : (V → Bool) → Table V → Bool
  all_rows p [] = true
  all_rows p ((_, v) ∷ t) = p v && all_rows p t

  pub lookup-update :
      (j k : ℕ) (f : V → V) (t : Table V)
      → lookup j (update k f t) ≡ (if k == j then apply_some f (lookup j t) else lookup j t)
  unfolding update
  lookup-update j k f [] = ground arith
  lookup-update j k f ((i, v) ∷ t) = ground (arith, lookup-update j k f t)

  pub lookup-insert :
      (j k : ℕ) (v : V) (t : Table V)
      → lookup j (insert k v t) ≡ (if k == j then some v else lookup j t)
  lookup-insert j k v t = refl

  -- A table keeps its CHECK when the row that is written meets it.
  pub all_rows-update :
      (p : V → Bool) (k : ℕ) (f : V → V) (t : Table V)
      → all_rows p t ≡ true
      → ((v : V) → lookup k t ≡ some v → p (f v) ≡ true)
      → all_rows p (update k f t) ≡ true
  unfolding update all_rows
  all_rows-update p k f [] h w = refl
  all_rows-update p k f ((j, v) ∷ t) h w = elim (Bool-cases (j == k)) [
    | inl here ↦ ground (arith, w v)
    | inr past ↦
        rw past (ground (arith, all_rows-update p k f t (ground arith) (λ u e. w u (rw past e))))
  ]

  pub all_rows-lookup :
      (p : V → Bool) (k : ℕ) (v : V) (t : Table V)
      → all_rows p t ≡ true
      → lookup k t ≡ some v
      → p v ≡ true
  unfolding all_rows
  all_rows-lookup p k v [] h e = ground arith
  all_rows-lookup p k v ((j, u) ∷ t) h e = ground (arith, all_rows-lookup p k v t)

  pub update-update :
      (k : ℕ) (f g : V → V) (t : Table V) → update k g (update k f t) ≡ update k (λ v. g (f v)) t
  unfolding update
  update-update k f g [] = refl
  update-update k f g ((j, v) ∷ t) = elim (Bool-cases (j == k)) [
    | inl here ↦ rw here (rw here refl)
    | inr past ↦ rw past (rw past (ap (λ r. (j, v) ∷ r) (update-update k f g t)))
  ]

  -- Writing what a row holds already changes nothing.
  pub update-unchanged :
      (k : ℕ) (f : V → V) (v : V) (t : Table V) → lookup k t ≡ some v → f v ≡ v → update k f t ≡ t
  unfolding update
  update-unchanged k f v [] found same = refl
  update-unchanged k f v ((j, u) ∷ t) found same = elim (Bool-cases (j == k)) [
    | inl here ↦
        let it : u ≡ v = cc (rw here at found) in
        rw here (ap (λ w. (j, w) ∷ t) (ap f it ∙ same ∙ sym it))
    | inr past ↦ rw past (ap (λ r. (j, u) ∷ r) (update-unchanged k f v t (rw past at found) same))
  ]

module _ {V : Type 0} where
  -- The row is in the table.
  abbrev pub HasRow : ℕ → V → Table V → Type 0
  HasRow k v [] = ⊥
  HasRow k v ((j, u) ∷ t) = ((j ≡ k) × (u ≡ v)) ⊎ HasRow k v t

  pub find_by-HasRow :
      (p : V → Bool) (t : Table V) (k : ℕ) (v : V)
      → find_by p t ≡ some (k, v)
      → (p v ≡ true) × HasRow k v t
  find_by-HasRow p [] k v e = cc e
  find_by-HasRow p ((j, u) ∷ t) k v e = elim (Bool-cases (p u)) [
    | inl here ↦
        let it = rw here at e in
        let same_key : j ≡ k = cc it in
        let same_row : u ≡ v = cc it in (rw (← same_row) here, inl (same_key, same_row))
    | inr past ↦ let there = find_by-HasRow p t k v (rw past at e) in (there.0, inr there.1)
  ]
