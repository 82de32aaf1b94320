-- ===== src/RateLimit/Bound.antt =====
-- How many requests of a key get through.
use online_banking_system.Prelude.{
  ℕ, ◌+◌, ◌≡◌, ◌≤◌, Bool, true, false, ◌&&◌, List, [], ◌∷◌, leb, arith, if◌then◌else◌, Bool-cases,
  inl, inr,
}
use online_banking_system.RateLimit.{Text, same_text, same_text_sound, Limit, Request, answers}
use online_banking_system.RateLimit.History.{recent_of, admits, spec_answers, in_order}
use online_banking_system.RateLimit.Refinement.{limiter_refines_history}

-- The requests with the answer yes.
unfoldable pub granted : List Bool → List Request → List Request
granted (true ∷ bs) (r ∷ rs) = r ∷ granted bs rs
granted (false ∷ bs) (r ∷ rs) = granted bs rs
granted _ _ = []

-- The requests of a key between two times.
unfoldable pub hits_between : Text → ℕ → ℕ → List Request → ℕ
unfolding same_text
hits_between key low high [] = 0
hits_between key low high (r ∷ rs) =
    (if same_text r.key key && leb low r.now && leb r.now high then 1 else 0)
    + hits_between key low high rs

between-recent :
    (key : Text) (low high now window : ℕ) (rs : List Request)
    → now ≤ low + window
    → hits_between key low high rs ≤ recent_of key now window rs
unfolding hits_between recent_of
between-recent key low high now window [] le = ground arith
between-recent key low high now window (r ∷ rs) le = elim (Bool-cases (same_text r.key key)) [
  | inl same ↦ rw same (ground (arith, between-recent key low high now window rs le))
  | inr other ↦ rw other (ground (arith, between-recent key low high now window rs le))
]

module _ (policy : Text → Limit) (key : Text) (low : ℕ) where
  abbrev in_window : List Request → ℕ
  in_window = hits_between key low (low + (policy key).window_seconds)

  admits-in_window :
      (history : List Request) (r : Request)
      → admits policy history r ≡ true
      → in_window history ≤ (policy key).limit
      → in_window (r ∷ history) ≤ (policy key).limit
  unfolding admits hits_between
  admits-in_window history r admitted le = elim (Bool-cases (same_text r.key key)) [
    | inr other ↦ rw other (ground (arith, le))
    | inl same ↦
        let here = rw (same_text_sound r.key key same) at admitted in
        let w = (policy key).window_seconds in
        rw same (ground (arith, le, here, between-recent key low (low + w) r.now w history))
  ]

  spec-in_window :
      (history rs : List Request)
      → in_window history ≤ (policy key).limit
      → in_window history + in_window (granted (spec_answers policy history rs) rs)
        ≤ (policy key).limit
  unfolding spec_answers granted hits_between
  spec-in_window history [] le = ground (arith, le)
  spec-in_window history (r ∷ rs) le = elim (Bool-cases (admits policy history r)) [
    | inl admitted ↦
        rw admitted
          (ground (arith, spec-in_window (r ∷ history) rs (admits-in_window history r admitted le)))
    | inr refused ↦ rw refused (spec-in_window history rs le)
  ]

-- However the requests come, with times that do not decrease and a fixed limit and window for each
-- key, InMemoryRateLimiter lets at most `limit` requests of a key through in every time span as
-- long as the key's window, wherever it starts.
pub limiter_bounds_every_window :
    (policy : Text → Limit) (key : Text) (low start : ℕ) (rs : List Request)
    → in_order start rs ≡ true
    → hits_between key low (low + (policy key).window_seconds) (granted (answers policy [] rs) rs)
      ≤ (policy key).limit
unfolding hits_between
limiter_bounds_every_window policy key low start rs order =
    rw (limiter_refines_history policy start rs order)
      (ground (arith, spec-in_window policy key low [] rs (ground arith)))
