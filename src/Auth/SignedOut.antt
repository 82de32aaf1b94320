-- ===== src/Auth/SignedOut.antt =====
-- The sessions of a user after a change of the password.
use online_banking_system.Prelude.{ℕ, ◌≡◌, refl, true, false, some, arith, Bool-cases, inl, inr}
use online_banking_system.Db.{invalid_refresh_token, RefreshToken, User, Db}
use online_banking_system.Db.Constraints.{meets_constraints}
use online_banking_system.Session.{◌>>=◌, open_session}
use online_banking_system.Session.Check.{ok, err}
use online_banking_system.Auth.Crypto.{Crypto}
use online_banking_system.Auth.{
  TokenSettings, Draw, get_by_hash, is_valid, set_password, change_password, refresh,
}
use online_banking_system.Auth.Revoked.{revoke_live-find}
use online_banking_system.Auth.Reuse.{refresh_invalid}

module _ (crypto : Crypto) (new_hash now current id : ℕ) (u : User) (db : Db) where
  change_password-committed :
      (r : Unit {0})
      → (change_password crypto new_hash now current id u (open_session db)).0 ≡ ok r
      → ((change_password crypto new_hash now current id u (open_session db)).1.committed
          ≡ set_password new_hash now id db)
        × (meets_constraints (set_password new_hash now id db) ≡ true)
  unfolding change_password ◌>>=◌
  change_password-committed r returned =
      elim (Bool-cases (crypto.verify_password current u.password_hash)) [
        | inr wrong ↦ cc returned
        | inl right ↦ elim (Bool-cases (meets_constraints (set_password new_hash now id db))) [
          | inl met ↦ rw right (rw met (refl, refl))
          | inr broken ↦ cc (rw broken at (rw right at returned))
        ]
      ]

  set_password-invalid :
      (hash k later : ℕ) (t : RefreshToken)
      → get_by_hash hash (set_password new_hash now id db) ≡ some (k, t)
      → t.user_id ≡ id
      → is_valid later t ≡ false
  unfolding get_by_hash set_password
  set_password-invalid hash k later t found of_user =
      ground (arith, revoke_live-find id now hash k db.refresh_tokens t found of_user)

-- After a change of the password has returned, no token that the user got before it can be
-- refreshed any more: whoever presents one gets InvalidRefreshTokenError.
pub change_signs_out :
    (crypto : Crypto) (settings : TokenSettings) (new_hash now current id : ℕ) (u : User) (db : Db)
    (r : Unit {0}) (others : Db → Db) (draw : Draw) (raw k : ℕ) (t : RefreshToken)
    → (change_password crypto new_hash now current id u (open_session db)).0 ≡ ok r
    → let after =
        (change_password crypto new_hash now current id u (open_session db)).1.committed in
      get_by_hash (crypto.hash_refresh_token raw) after ≡ some (k, t)
      → t.user_id ≡ id
      → (refresh crypto settings others draw raw (open_session after)).0 ≡ err invalid_refresh_token
change_signs_out crypto settings new_hash now current id u db r others draw raw k t returned found
      of_user =
    let done = change_password-committed crypto new_hash now current id u db r returned in
    let after = set_password new_hash now id db in
    let there = rw done.0 at found in
    rw done.0 (
      (refresh_invalid crypto settings others draw raw k t after there
        (set_password-invalid crypto new_hash now current id u db (crypto.hash_refresh_token raw) k
          draw.now t there of_user)
        done.1).0)
