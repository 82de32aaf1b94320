-- ===== src/Auth/SingleUse.antt =====
-- The fingerprint in a password reset token.
use online_banking_system.Prelude.{
  ℕ, ◌≡◌, ◌≢◌, refl, true, false, Option, none, some, arith, Bool-cases, Option-cases, inl, inr,
  ==_self,
}
use online_banking_system.Table.{lookup, lookup-update}
use online_banking_system.Db.{invalid_reset_token, User, Db}
use online_banking_system.Db.Constraints.{meets_constraints}
use online_banking_system.Session.{◌>>=◌, open_session}
use online_banking_system.Session.Check.{Result, ok, err}
use online_banking_system.Auth.Crypto.{Crypto, Claims}
use online_banking_system.Auth.{
  get_user, set_password, reset_token_holds, reset_user, confirm_password_reset,
}

-- The claims of a token do not depend on when it is read, or on whether its expiry is checked.
pub record IsSteady (crypto : Crypto) : Type 0 where
  pub steady :
      (token now : ℕ) (c : Claims)
      → crypto.decode token now ≡ some c
      → crypto.decode_expired token ≡ some c

-- The claims `c` of a token allow a reset of `u`'s password.
record Allows (crypto : Crypto) (now token : ℕ) (c : Claims) (u : User) (db : Db) : Type 0 where
  claims : crypto.decode_expired token ≡ some c
  known : get_user c.sub db ≡ some u
  holds : reset_token_holds crypto (crypto.decode token now) u.password_hash ≡ true

module _ (crypto : Crypto) (now token : ℕ) (db : Db) where
  reset_user-Allows :
      (id : ℕ)
      → reset_user crypto now token db ≡ ok id
      → (c : Claims) × (u : User) × Allows crypto now token c u db × (c.sub ≡ id)
  unfolding reset_user
  reset_user-Allows id reset = elim (Option-cases (crypto.decode_expired token)) [
    | inl unread ↦ cc (rw unread at reset)
    | inr (c, read) ↦ elim (Option-cases (get_user c.sub db)) [
      | inl unknown ↦ cc (rw unknown at (rw read at reset))
      | inr (u, known) ↦
          elim (Bool-cases (reset_token_holds crypto (crypto.decode token now) u.password_hash)) [
            | inr fails ↦ cc (rw fails at (rw known at (rw read at reset)))
            | inl holds ↦ (
              c,
              u,
              record { claims = read; known = known; holds = holds },
              cc (rw holds at (rw known at (rw read at reset))),
            )
          ]
    ]
  ]

  set_password-get_user :
      (id new_hash : ℕ) (u : User)
      → get_user id db ≡ some u
      → get_user id (set_password new_hash now id db) ≡ some (record u { password_hash = new_hash })
  unfolding get_user set_password
  set_password-get_user id new_hash u known = elim (Option-cases (lookup id db.users)) [
    | inl gone ↦ cc (rw gone at known)
    | inr (v, there) ↦ elim (Option-cases v.deleted_at) [
      | inr (_, deleted) ↦ cc (rw deleted at (rw there at known))
      | inl live ↦
          rw (lookup-update id id (λ w. record w { password_hash = new_hash }) db.users)
            (rw (==_self id) (rw there (rw live (cc (rw live at (rw there at known))))))
    ]
  ]

module _ (crypto : Crypto) where
  holds-fingerprint :
      (o : Option Claims) (hash : ℕ)
      → reset_token_holds crypto o hash ≡ true
      → (c : Claims) × (o ≡ some c) × (c.pwd_fp ≡ some (crypto.password_fingerprint hash))
  unfolding reset_token_holds
  holds-fingerprint none hash holds = cc holds
  holds-fingerprint (some c) hash holds = elim (Option-cases c.pwd_fp) [
    | inl absent ↦ ground (arith, absent)
    | inr (fp, there) ↦ (c, refl, ground (arith, there, holds))
  ]

  -- A token that holds for a hash holds for no hash of another fingerprint.
  other_hash-refused :
      (o p : Option Claims) (new_hash old_hash : ℕ)
      → ((c d : Claims) → o ≡ some c → p ≡ some d → c ≡ d)
      → crypto.password_fingerprint new_hash ≢ crypto.password_fingerprint old_hash
      → reset_token_holds crypto o old_hash ≡ true
      → reset_token_holds crypto p new_hash ≡ false
  other_hash-refused o p new_hash old_hash same differs holds =
      elim (Bool-cases (reset_token_holds crypto p new_hash)) [
        | inr refused ↦ refused
        | inl again ↦
            let (c, e, f) = holds-fingerprint o old_hash holds in
            let (d, e', f') = holds-fingerprint p new_hash again in
            absurd (differs cc (same c d e e'))
      ]

  reset_user-refused :
      (now token : ℕ) (db : Db) (c : Claims) (u : User)
      → crypto.decode_expired token ≡ some c
      → get_user c.sub db ≡ some u
      → reset_token_holds crypto (crypto.decode token now) u.password_hash ≡ false
      → reset_user crypto now token db ≡ err invalid_reset_token
  unfolding reset_user
  reset_user-refused now token db c u read known fails = rw read (rw known (rw fails refl))

module _ (crypto : Crypto) (new_hash now token : ℕ) (db : Db) where
  confirm-committed :
      (o : Result ℕ) (r : Unit {0})
      → reset_user crypto now token db ≡ o
      → (confirm_password_reset crypto new_hash now token (open_session db)).0 ≡ ok r
      → (id : ℕ) × (o ≡ ok id)
        × ((confirm_password_reset crypto new_hash now token (open_session db)).1.committed
            ≡ set_password new_hash now id db)
  unfolding confirm_password_reset ◌>>=◌
  confirm-committed (err e) r refused returned = cc (rw refused at returned)
  confirm-committed (ok id) r allowed returned =
      elim (Bool-cases (meets_constraints (set_password new_hash now id db))) [
        | inl met ↦ (id, refl, rw allowed (rw met refl))
        | inr broken ↦ cc (rw broken at (rw allowed at returned))
      ]

  confirm-refused :
      reset_user crypto now token db ≡ err invalid_reset_token
      → (confirm_password_reset crypto new_hash now token (open_session db)).0
        ≡ err invalid_reset_token
  unfolding confirm_password_reset ◌>>=◌
  confirm-refused refused = rw refused refl

-- A password reset token serves once: when a reset with it has returned, and the new hash has another
-- fingerprint than the user's hash had, every later reset with the same token, at any time and with
-- any new password, raises InvalidResetTokenError. The claims of a token are taken to be the same
-- whenever it is read.
pub reset_once :
    (crypto : Crypto) (new_hash now token : ℕ) (db : Db) (c : Claims) (u : User) (r : Unit {0})
    (later_hash later : ℕ)
    → IsSteady crypto
    → crypto.decode token now ≡ some c
    → get_user c.sub db ≡ some u
    → crypto.password_fingerprint new_hash ≢ crypto.password_fingerprint u.password_hash
    → (confirm_password_reset crypto new_hash now token (open_session db)).0 ≡ ok r
    → let after =
        (confirm_password_reset crypto new_hash now token (open_session db)).1.committed in
      (confirm_password_reset crypto later_hash later token (open_session after)).0
      ≡ err invalid_reset_token
reset_once crypto new_hash now token db c u r later_hash later s read known differs returned =
    let (id, allowed, done) =
      confirm-committed crypto new_hash now token db (reset_user crypto now token db) r refl
        returned in
    let (d, v, a, of_user) = reset_user-Allows crypto now token db id allowed in
    let expired = s.steady token now c read in
    let same : d ≡ c = cc (expired, a.claims) in
    let user : v ≡ u = cc (a.known, known, same) in
    let at_id : c.sub ≡ id = cc (same, of_user) in
    let fails =
      other_hash-refused crypto (crypto.decode token now) (crypto.decode token later) new_hash
        u.password_hash (λ x y e f. cc (s.steady token now x e, s.steady token later y f)) differs
        (rw user at a.holds) in
    rw done (
      confirm-refused crypto later_hash later token (set_password new_hash now id db) (
        reset_user-refused crypto later token (set_password new_hash now id db) c
          (record u { password_hash = new_hash }) expired
          (rw at_id (set_password-get_user crypto now token db id new_hash u (rw at_id at known)))
          fails))
