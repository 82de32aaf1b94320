-- ===== src/RateLimit/Longest.antt =====
-- Which limit a path gets.
use online_banking_system.Prelude.{
  ℕ, ◌≡◌, ◌≤◌, refl, Bool, true, false, not, ◌&&◌, ◌||◌, some, List, [], ◌∷◌, ◌++◌, leb, arith,
  length, Bool-cases, inl, inr, ap,
}
use online_banking_system.RateLimit.{
  Text, startswith, Limit, RateLimitSettings, build_rate_limits, first_match,
}

-- No listed prefix of the path is longer than `n`.
unfoldable pub none_longer : Text → ℕ → List (Text × Limit) → Bool
unfolding startswith
none_longer path n [] = true
none_longer path n ((q, _) ∷ limits) =
    (not (startswith path q) || leb (length q) n) && none_longer path n limits

-- No text of the list starts with the prefix.
unfoldable none_extends : Text → List (Text × Limit) → Bool
none_extends p [] = true
none_extends p ((q, _) ∷ limits) = not (startswith q p) && none_extends p limits

-- A prefix is listed behind all that start with it.
unfoldable specific_first : List (Text × Limit) → Bool
unfolding none_extends
specific_first [] = true
specific_first ((p, _) ∷ limits) = none_extends p limits && specific_first limits

-- Of two prefixes of a path, the longer one starts with the other.
prefixes_nest :
    (path p q : Text)
    → startswith path p ≡ true
    → startswith path q ≡ true
    → length p ≤ length q
    → startswith q p ≡ true
unfolding startswith
prefixes_nest path [] q sp sq le = refl
prefixes_nest [] (c ∷ p) q sp sq le = absurd (ground arith)
prefixes_nest (d ∷ path) (c ∷ p) [] sp sq le = absurd (ground arith)
prefixes_nest (d ∷ path) (c ∷ p) (e ∷ q) sp sq le = ground (arith, prefixes_nest path p q)

none_extends-longer :
    (path p : Text) (limits : List (Text × Limit))
    → startswith path p ≡ true
    → none_extends p limits ≡ true
    → none_longer path (length p) limits ≡ true
unfolding none_extends none_longer
none_extends-longer path p [] sp ne = refl
none_extends-longer path p ((q, l) ∷ limits) sp ne =
    ground (arith, none_extends-longer path p limits sp, prefixes_nest path p q sp)

first_match-longest :
    (path p : Text) (l : Limit) (limits : List (Text × Limit))
    → specific_first limits ≡ true
    → first_match path limits ≡ some (p, l)
    → none_longer path (length p) limits ≡ true
unfolding specific_first first_match none_longer
first_match-longest path p l [] ordered found = refl
first_match-longest path p l ((q, m) ∷ limits) ordered found =
    elim (Bool-cases (startswith path q)) [
      | inr other ↦
          ground
            (arith, other, first_match-longest path p l limits (ground arith) (rw other at found))
      | inl here ↦
          let same : q ≡ p = cc (rw here at found) in
          let nest : none_extends q limits ≡ true = ground (arith, ordered) in
          let longer = none_extends-longer path q limits here nest in
          ground (arith, here, ap length same, rw (ap length same) at longer)
    ]

startswith-append : (p s t : Text) → startswith (p ++ s) (p ++ t) ≡ startswith s t
unfolding startswith
startswith-append [] s t = refl
startswith-append (c ∷ p) s t = ground (arith, startswith-append p s t)

startswith_self : (p : Text) (c : ℕ) (s : Text) → startswith p (p ++ (c ∷ s)) ≡ false
unfolding startswith
startswith_self [] c s = refl
startswith_self (d ∷ p) c s = ground (arith, startswith_self p c s)

build_rate_limits-specific_first :
    (settings : RateLimitSettings) → specific_first (build_rate_limits settings) ≡ true
unfolding specific_first build_rate_limits startswith
build_rate_limits-specific_first settings = simp (startswith-append, startswith_self) refl

-- The limit of a path is that of its most specific prefix, whatever the API's prefix is: when the
-- middleware matches a path with a prefix, every other prefix of `_build_rate_limits` that the path
-- starts with is at most as long.
pub matched_prefix_is_longest :
    (settings : RateLimitSettings) (path p : Text) (l : Limit)
    → first_match path (build_rate_limits settings) ≡ some (p, l)
    → none_longer path (length p) (build_rate_limits settings) ≡ true
matched_prefix_is_longest settings path p l found =
    first_match-longest path p l (build_rate_limits settings)
      (build_rate_limits-specific_first settings) found
