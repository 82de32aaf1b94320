-- ===== src/RateLimit/InMemory.antt =====
-- InMemoryRateLimiter. Times are in the unit of the windows.
use online_banking_system.Prelude.{
  ℕ, ◌-◌, Bool, true, false, List, [], ◌∷◌, ◌++◌, ltb, leb, if◌then◌else◌, length,
}
use online_banking_system.RateLimit.Texts.{Text, same_text}

-- `self._hits`, a defaultdict of deques, the oldest hit first
abbrev pub Hits : Type 0
Hits = List (Text × List ℕ)

-- `self._hits[key]`
unfoldable pub hits_of : Text → Hits → List ℕ
unfolding same_text
hits_of key [] = []
hits_of key ((k, ts) ∷ hits) = if same_text k key then ts else hits_of key hits

-- The while loop: hits that have left the window are popped from the left.
unfoldable pub prune : ℕ → ℕ → List ℕ → List ℕ
prune now window_seconds [] = []
prune now window_seconds (t ∷ ts) =
    let rest = prune now window_seconds ts in if ltb window_seconds (now - t) then rest else t ∷ ts

-- `len(window) >= limit`, or the hit is appended
unfoldable pub record_hit : ℕ → ℕ → List ℕ → Bool × List ℕ
record_hit now limit window =
    if leb limit (length window) then (false, window) else (true, window ++ (now ∷ []))

unfoldable pub is_allowed : ℕ → Text → ℕ → ℕ → Hits → Bool × Hits
unfolding hits_of prune record_hit
is_allowed now key limit window_seconds hits =
    let out = record_hit now limit (prune now window_seconds (hits_of key hits)) in
    (out.0, (key, out.1) ∷ hits)

-- A limit and its window in seconds.
pub record Limit : Type 0 where
  pub limit : ℕ
  pub window_seconds : ℕ

pub record Request : Type 0 where
  pub key : Text
  pub now : ℕ

module _ (policy : Text → Limit) where
  -- The answers to a sequence of requests, with the limit of each key.
  unfoldable pub answers : Hits → List Request → List Bool
  unfolding is_allowed
  answers hits [] = []
  answers hits (r ∷ rs) =
      let p = policy r.key in
      let out = is_allowed r.now r.key p.limit p.window_seconds hits in out.0 ∷ answers out.1 rs
