-- ===== src/RateLimit/History.antt =====
-- The promise of a rate limiter: it remembers every hit that it has admitted, and admits a request
-- while its key has fewer than `limit` hits that are at most a window old.
use online_banking_system.Prelude.{
  ℕ, ◌+◌, ◌-◌, Bool, true, false, ◌&&◌, List, [], ◌∷◌, ltb, leb, if◌then◌else◌,
}
use online_banking_system.RateLimit.{Text, same_text, Limit, Request}

-- The hits of a list that are at most a window old.
unfoldable pub recent : ℕ → ℕ → List ℕ → ℕ
recent now window [] = 0
recent now window (t ∷ ts) = (if leb (now - t) window then 1 else 0) + recent now window ts

-- The hits of a key in the history that are at most a window old.
unfoldable pub recent_of : Text → ℕ → ℕ → List Request → ℕ
unfolding same_text
recent_of key now window [] = 0
recent_of key now window (r ∷ rs) =
    (if same_text r.key key && leb (now - r.now) window then 1 else 0) + recent_of key now window rs

module _ (policy : Text → Limit) where
  unfoldable pub admits : List Request → Request → Bool
  unfolding recent_of
  admits history r =
      let p = policy r.key in ltb (recent_of r.key r.now p.window_seconds history) p.limit

  unfoldable pub spec_answers : List Request → List Request → List Bool
  unfolding admits
  spec_answers history [] = []
  spec_answers history (r ∷ rs) =
      let yes = spec_answers (r ∷ history) rs in
      let no = spec_answers history rs in if admits history r then true ∷ yes else false ∷ no

-- The times of the requests do not decrease, from a time on.
unfoldable pub in_order : ℕ → List Request → Bool
in_order start [] = true
in_order start (r ∷ rs) = leb start r.now && in_order r.now rs
