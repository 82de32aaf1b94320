-- ===== src/Admin/Guarded.antt =====
-- Who can use the back office.
use online_banking_system.Prelude.{
  ℕ, ◌≡◌, refl, ◌⊎◌, inl, inr, true, false, Option, none, some, Bool-cases, Option-cases,
}
use online_banking_system.Db.{Error, User, UserRole, Db}
use online_banking_system.Session.{Session, ◌>>=◌, open_session}
use online_banking_system.Session.Check.{Result, ok, err}
use online_banking_system.Auth.Crypto.{Crypto, Claims, TokenKind}
use online_banking_system.Auth.{
  get_user, shut_out, is_kind, same_role, access_claims, get_current_user, require_role,
}
use online_banking_system.Admin.{AdminEndpoint, serve_endpoint, admin_request}

-- The bearer token of the request is an access token, signed and in time, of a user with the role
-- who is neither deleted, blocked nor disabled.
pub record HasRole (crypto : Crypto) (role : UserRole) (now : ℕ) (credentials : Option ℕ) (id : ℕ)
    (db : Db) : Type 0 where
  pub token : ℕ
  pub claims : Claims
  pub user : User
  pub bearer : credentials ≡ some token
  pub decoded : crypto.decode token now ≡ some claims
  pub access : is_kind claims.kind TokenKind.access ≡ true
  pub subject : claims.sub ≡ id
  pub known : get_user id db ≡ some user
  pub admitted : shut_out user ≡ false
  pub has_role : same_role user.role role ≡ true

module _ (crypto : Crypto) (role : UserRole) (now : ℕ) (db : Db) where
  require_role-HasRole :
      (credentials : Option ℕ) (w : ℕ × User)
      → require_role crypto role now credentials db ≡ ok w
      → HasRole crypto role now credentials w.0 db
  unfolding require_role get_current_user access_claims
  require_role-HasRole none w passed = cc passed
  require_role-HasRole (some token) w passed = elim (Option-cases (crypto.decode token now)) [
    | inl unread ↦ cc (rw unread at passed)
    | inr (c, read) ↦ elim (Bool-cases (is_kind c.kind TokenKind.access)) [
      | inr other ↦ cc (rw other at (rw read at passed))
      | inl access ↦ elim (Option-cases (get_user c.sub db)) [
        | inl unknown ↦ cc (rw unknown at (rw access at (rw read at passed)))
        | inr (u, known) ↦ elim (Bool-cases (shut_out u)) [
          | inl out ↦ cc (rw out at (rw known at (rw access at (rw read at passed))))
          | inr admitted ↦ elim (Bool-cases (same_role u.role role)) [
            | inr lacks ↦
                cc (rw lacks at (rw admitted at (rw known at (rw access at (rw read at passed)))))
            | inl has ↦
                let all =
                  rw has at (rw admitted at (rw known at (rw access at (rw read at passed)))) in
                let it : c.sub ≡ w.0 = cc all in
                record {
                  token = token;
                  claims = c;
                  user = u;
                  bearer = refl;
                  decoded = read;
                  access = access;
                  subject = it;
                  known = rw it at known;
                  admitted = admitted;
                  has_role = has;
                }
          ]
        ]
      ]
    ]
  ]

module _ (crypto : Crypto) (others : Db → Db) (now : ℕ) (credentials : Option ℕ)
    (endpoint : AdminEndpoint) (db : Db) where
  -- Served for an administrator, or an error without any effect.
  abbrev pub IsGuarded : Result (Unit {0}) × Session → Type 0
  IsGuarded out =
      ((id : ℕ) × HasRole crypto UserRole.admin now credentials id db
        × (out ≡ serve_endpoint others endpoint id (open_session db)))
      ⊎ ((e : Error) × (out ≡ (err e, open_session db)))

  admin_request-IsGuarded :
      (o : Result (ℕ × User))
      → require_role crypto UserRole.admin now credentials db ≡ o
      → IsGuarded (admin_request crypto others now credentials endpoint (open_session db))
  unfolding admin_request ◌>>=◌
  admin_request-IsGuarded (ok w) passed =
      inl (
        w.0,
        require_role-HasRole crypto UserRole.admin now db credentials w passed,
        rw passed refl,
      )
  admin_request-IsGuarded (err e) refused = inr (e, rw refused refl)

-- The back office is closed to everyone else: a request to an endpoint of the admin router that
-- writes is either served in the name of the user of its bearer token, who has the role ADMIN and is
-- neither deleted, blocked nor disabled, or raises, and has then committed nothing and sent nothing.
pub only_admins :
    (crypto : Crypto) (others : Db → Db) (now : ℕ) (credentials : Option ℕ)
    (endpoint : AdminEndpoint) (db : Db)
    → IsGuarded crypto others now credentials endpoint db
        (admin_request crypto others now credentials endpoint (open_session db))
only_admins crypto others now credentials endpoint db =
    admin_request-IsGuarded crypto others now credentials endpoint db
      (require_role crypto UserRole.admin now credentials db) refl
