-- ===== src/Auth/Revoked.antt =====
-- The refresh tokens after revoke_all_for_user, and the search by hash after an update.
use online_banking_system.Prelude.{
  ℕ, ◌≡◌, false, some, [], ◌∷◌, ◌==◌, arith, is_none, Bool-cases, inl, inr,
}
use online_banking_system.Table.{Table, lookup, update, find_by}
use online_banking_system.Db.{RefreshToken}
use online_banking_system.Auth.{revoke_live}

module _ (user_id now : ℕ) where
  -- Every token of the user is revoked.
  pub revoke_live-lookup :
      (k : ℕ) (ts : Table RefreshToken) (t : RefreshToken)
      → lookup k (revoke_live user_id now ts) ≡ some t
      → t.user_id ≡ user_id
      → is_none t.revoked_at ≡ false
  unfolding revoke_live
  revoke_live-lookup k [] t found of_user = ground arith
  revoke_live-lookup k ((j, u) ∷ ts) t found of_user = ground (arith, revoke_live-lookup k ts t)

  -- So is the one that a search by hash finds.
  pub revoke_live-find :
      (hash k : ℕ) (ts : Table RefreshToken) (t : RefreshToken)
      → find_by (λ v. v.token_hash == hash) (revoke_live user_id now ts) ≡ some (k, t)
      → t.user_id ≡ user_id
      → is_none t.revoked_at ≡ false
  unfolding revoke_live
  revoke_live-find hash k [] t found of_user = ground arith
  revoke_live-find hash k ((j, u) ∷ ts) t found of_user =
      ground (arith, revoke_live-find hash k ts t)

pub find_by_sound :
    (hash k : ℕ) (ts : Table RefreshToken) (t : RefreshToken)
    → find_by (λ v. v.token_hash == hash) ts ≡ some (k, t)
    → t.token_hash ≡ hash
find_by_sound hash k [] t found = ground arith
find_by_sound hash k ((j, u) ∷ ts) t found = ground (arith, find_by_sound hash k ts t)

-- The first row with a hash is still the first one, with what an update of it changed.
pub find_by-update :
    (hash k : ℕ) (f : RefreshToken → RefreshToken) (ts : Table RefreshToken) (t : RefreshToken)
    → find_by (λ v. v.token_hash == hash) ts ≡ some (k, t)
    → lookup k ts ≡ some t
    → ((u : RefreshToken) → (f u).token_hash ≡ u.token_hash)
    → find_by (λ v. v.token_hash == hash) (update k f ts) ≡ some (k, f t)
unfolding update
find_by-update hash k f [] t found there same = ground arith
find_by-update hash k f ((j, u) ∷ ts) t found there same = elim (Bool-cases (j == k)) [
  | inl here ↦
      rw here
        (ground (arith, here, there, same u, same t, find_by_sound hash k ((j, u) ∷ ts) t found))
  | inr past ↦ rw past (ground (arith, past, there, found, find_by-update hash k f ts t))
]
