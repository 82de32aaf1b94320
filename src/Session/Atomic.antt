-- ===== src/Session/Atomic.antt =====
-- A request that checks, writes once and commits: `try: ... except DomainError: rollback; raise`.
use online_banking_system.Prelude.{ℕ, ◌≡◌, refl, true, false, inl, inr, List, Bool-cases}
use online_banking_system.Db.{Error, integrity_error, is_domain_error, Db}
use online_banking_system.Db.Constraints.{meets_constraints}
use online_banking_system.Session.Check.{Result, ok, err}
use online_banking_system.Session.Messages.{Message}
use online_banking_system.Session.Actions.{
  Action, pure, raise, check, modify, commit, send, wait, ◌>>=◌, ◌>>◌, try_except, open_session,
}

module _ {A : Type 0} (others : Db → Db) (checks : Db → Result A) (writes : A → Db → Db)
    (ms : List Message) (reply : ℕ) where
  unfoldable pub one_write : Action ℕ
  one_write =
      try_except (do wait others; a ← check checks; modify (writes a); commit; send ms; pure reply)
        raise

  -- A check that fails is raised, and only what others committed is committed.
  pub one_write_refused :
      (db : Db) (e : Error)
      → checks (others db) ≡ err e
      → ((one_write (open_session db)).0 ≡ err e)
        × ((one_write (open_session db)).1.committed ≡ others db)
  unfolding one_write try_except ◌>>=◌
  one_write_refused db e refused = rw refused (elim (Bool-cases (is_domain_error e)) [
    | inl domain ↦ rw domain (refl, refl)
    | inr other ↦ rw other (refl, refl)
  ])

  -- Checks that pass, and writes that the constraints accept, are committed together.
  pub one_write_done :
      (db : Db) (a : A)
      → checks (others db) ≡ ok a
      → meets_constraints (writes a (others db)) ≡ true
      → ((one_write (open_session db)).0 ≡ ok reply)
        × ((one_write (open_session db)).1.committed ≡ writes a (others db))
  unfolding one_write try_except ◌>>=◌
  one_write_done db a passed met = rw passed (rw met (refl, refl))

  one_write_broken :
      (db : Db) (a : A)
      → checks (others db) ≡ ok a
      → meets_constraints (writes a (others db)) ≡ false
      → ((one_write (open_session db)).0 ≡ err integrity_error)
        × ((one_write (open_session db)).1.committed ≡ others db)
  unfolding one_write try_except ◌>>=◌
  one_write_broken db a passed broken = rw passed (rw broken (refl, refl))

  -- Whatever is raised, nothing of the request is committed.
  pub one_write_atomic :
      (db : Db) (e : Error)
      → (one_write (open_session db)).0 ≡ err e
      → (one_write (open_session db)).1.committed ≡ others db
  one_write_atomic db e raised = go (checks (others db)) refl
    where
      go :
          (r : Result A)
          → checks (others db) ≡ r
          → (one_write (open_session db)).1.committed ≡ others db
      go (err x) p = (one_write_refused db x p).1
      go (ok a) p = elim (Bool-cases (meets_constraints (writes a (others db)))) [
        | inl met ↦ cc (raised, (one_write_done db a p met).0)
        | inr broken ↦ (one_write_broken db a p broken).1
      ]

  -- A request that returns has passed its checks and committed its writes.
  pub one_write_ok :
      (db : Db) (r : ℕ)
      → (one_write (open_session db)).0 ≡ ok r
      → (a : A) × (checks (others db) ≡ ok a)
        × ((one_write (open_session db)).1.committed ≡ writes a (others db))
  one_write_ok db r returned = go (checks (others db)) refl
    where
      go :
          (c : Result A)
          → checks (others db) ≡ c
          → (a : A) × (checks (others db) ≡ ok a)
            × ((one_write (open_session db)).1.committed ≡ writes a (others db))
      go (err x) p = cc (returned, (one_write_refused db x p).0)
      go (ok a) p = elim (Bool-cases (meets_constraints (writes a (others db)))) [
        | inl met ↦ (a, p, (one_write_done db a p met).1)
        | inr broken ↦ cc (returned, (one_write_broken db a p broken).0)
      ]
