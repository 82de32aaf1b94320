-- ===== src/RateLimit/Windows.antt =====
-- The deque of a key: its order, what is popped from it, and how many of its hits are recent.
use online_banking_system.Prelude.{
  ℕ, ◌+◌, ◌-◌, ◌≡◌, ◌≤◌, refl, Bool, true, ◌&&◌, List, [], ◌∷◌, ◌++◌, ltb, leb, arith,
  if◌then◌else◌, length, Bool-cases, inl, inr,
}
use online_banking_system.RateLimit.{prune}
use online_banking_system.RateLimit.History.{recent}

-- The times of a deque do not decrease, and lie between two times.
unfoldable pub ordered : ℕ → ℕ → List ℕ → Bool
ordered low high [] = leb low high
ordered low high (t ∷ ts) = leb low t && ordered t high ts

pub ordered-bounds : (low high : ℕ) (ts : List ℕ) → ordered low high ts ≡ true → low ≤ high
unfolding ordered
ordered-bounds low high [] o = ground arith
ordered-bounds low high (t ∷ ts) o = ground (arith, ordered-bounds t high ts)

ordered-lower :
    (low from high : ℕ) (ts : List ℕ)
    → low ≤ from
    → ordered from high ts ≡ true
    → ordered low high ts ≡ true
unfolding ordered
ordered-lower low from high [] le o = ground arith
ordered-lower low from high (t ∷ ts) le o = ground arith

pub ordered-higher :
    (low high to : ℕ) (ts : List ℕ)
    → high ≤ to
    → ordered low high ts ≡ true
    → ordered low to ts ≡ true
unfolding ordered
ordered-higher low high to [] le o = ground arith
ordered-higher low high to (t ∷ ts) le o = ground (arith, ordered-higher t high to ts le)

module _ (now window : ℕ) where
  pub prune-ordered :
      (low high : ℕ) (ts : List ℕ)
      → ordered low high ts ≡ true
      → ordered low high (prune now window ts) ≡ true
  unfolding ordered prune
  prune-ordered low high [] o = o
  prune-ordered low high (t ∷ ts) o = elim (Bool-cases (ltb window (now - t))) [
    | inr kept ↦ rw kept o
    | inl old ↦ rw old (
        ordered-lower low t high (prune now window ts) (ground arith)
          (prune-ordered t high ts (ground arith)))
  ]

  -- What is popped will never count again.
  pub prune-recent :
      (later : ℕ) (ts : List ℕ)
      → now ≤ later
      → recent later window (prune now window ts) ≡ recent later window ts
  unfolding recent prune
  prune-recent later [] le = refl
  prune-recent later (t ∷ ts) le = ground (arith, prune-recent later ts le)

  all_recent :
      (low high : ℕ) (ts : List ℕ)
      → ordered low high ts ≡ true
      → now - low ≤ window
      → recent now window ts ≡ length ts
  unfolding ordered recent
  all_recent low high [] o le = refl
  all_recent low high (t ∷ ts) o le = ground (arith, all_recent t high ts)

  -- The deque holds exactly the hits that are recent.
  pub prune-length :
      (low high : ℕ) (ts : List ℕ)
      → ordered low high ts ≡ true
      → length (prune now window ts) ≡ recent now window ts
  unfolding ordered recent prune
  prune-length low high [] o = refl
  prune-length low high (t ∷ ts) o = elim (Bool-cases (ltb window (now - t))) [
    | inr kept ↦ ground (arith, all_recent t high ts)
    | inl old ↦ ground (arith, prune-length t high ts)
  ]

pub ordered-append :
    (low high now : ℕ) (ts : List ℕ)
    → ordered low high ts ≡ true
    → high ≤ now
    → ordered low now (ts ++ (now ∷ [])) ≡ true
unfolding ordered
ordered-append low high now [] o le = ground arith
ordered-append low high now (t ∷ ts) o le = ground (arith, ordered-append t high now ts)

pub recent-append :
    (later window now : ℕ) (ts : List ℕ)
    → recent later window (ts ++ (now ∷ []))
      ≡ (if leb (later - now) window then 1 else 0) + recent later window ts
unfolding recent
recent-append later window now [] = refl
recent-append later window now (t ∷ ts) = ground (arith, recent-append later window now ts)
